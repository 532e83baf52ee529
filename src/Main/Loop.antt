-- ===== src/Main/Loop.antt =====
-- src/cm.c and, for an entry's new nickname, src/tdbush.c: what the daemon does with its entries, and how
-- it comes back to them.
use certmonger.Prelude.{
  ℕ, zero, suc, ◌==◌, Bool, true, false, Option, none, some, List, [], ◌∷◌, ◌++◌, length, ◌+ℤ◌, ℤ,
  pos, ltb_ℤ, Text, text_eq, if◌then◌else◌, ◌&&◌,
}
use certmonger.Iterate.Machine.{When, soon, soonish, delayed, no_time}
use certmonger.Iterate.Delay.{delay_soon, delay_soonish}
use certmonger.Main.Context.{
  Trigger, at_time, on_traffic, added, freed, Iteration, Events, Slot, Context,
}
use certmonger.Main.Slots.{
  find_index, slot_at, modify_slot, remove_slot, is_named, has_event, find_entry_by_nickname,
}

-- A new entry, which is not started.
abbrev pub new_slot : ℕ → Text → Text → Slot
new_slot e name bus = record {
  entry = e;
  nickname = name;
  busname = bus;
  is_started = false;
  next_event = none;
}

module _ {S : Type 0} (it : Iteration S) (ev : Events) where
  -- tevent_add_timer() or tevent_add_fd()
  unfoldable pub add_event : Trigger → Context S → Option ℕ × Context S
  add_event t c = elim (ev.new_event c.calls) [
    | none ↦ (none, c)
    | some h ↦ (some h, record c { calls = added h t ∷ c.calls })
  ]

  -- talloc_free() of an event, which may be NULL.
  unfoldable pub free_event : Option ℕ → Context S → Context S
  free_event none c = c
  free_event (some h) c = record c { calls = freed h ∷ c.calls }

  -- The switch of `cm_service_entry`.
  unfoldable pub schedule : When → ℤ → Option ℕ → Context S → Option ℕ × Context S
  schedule When.now delay fd c = add_event (at_time (ev.time c.calls)) c
  schedule soon delay fd c = add_event (at_time (ev.time c.calls +ℤ pos delay_soon)) c
  schedule soonish delay fd c = add_event (at_time (ev.time c.calls +ℤ pos delay_soonish)) c
  schedule delayed delay fd c = add_event (at_time (ev.time c.calls +ℤ delay)) c
  schedule no_time delay none c = (none, c)
  schedule no_time delay (some n) c = add_event (on_traffic n) c

  -- `cm_service_entry` for the entry at an address
  unfoldable pub service_entry : ℕ → Context S → Option ℕ × Context S
  service_entry e c =
      let (v, shared) = it.pass c.shared e in
      schedule v.when v.delay v.fd (record c { shared = shared })

  -- entry_events[i].next_event = cm_service_entry(context, NULL, i)
  unfoldable pub serve : ℕ → ℕ → Context S → Context S
  serve i e c =
      let (next, d) = service_entry e c in
      record d { slots = modify_slot d.slots i (λ s. record s { next_event = next }) }

  -- `cm_timer_h` and `cm_fd_h`, for the event with the handle `h`
  unfoldable pub handle_event : ℕ → Context S → Context S
  handle_event h c = elim (find_index (has_event h) c.slots) [
    | none ↦ c
    | some i ↦ elim (slot_at c.slots i) [
      | none ↦ c
      | some s ↦ serve i s.entry (free_event (some h) c)
    ]
  ]

  -- `cm_start_entry`, once the entry was found at `i`
  unfoldable pub start_at : ℕ → Slot → Context S → Bool × Context S
  start_at i s c =
      let (fine, shared) = it.begin c.shared s.entry in
      if fine
      then (
        true,
        serve i s.entry (record c {
          shared = shared;
          slots = modify_slot c.slots i (λ s. record s { is_started = true });
        }),
      )
      else (false, record c { shared = shared })

  -- An operation on the entry that has a nickname, which fails if there is none.
  unfoldable pub at_nickname :
      Text → (ℕ → Slot → Context S → Bool × Context S) → Context S → Bool × Context S
  at_nickname name act c = elim (find_entry_by_nickname c name) [
    | none ↦ (false, c)
    | some i ↦ elim (slot_at c.slots i) [ none ↦ (false, c) | some s ↦ act i s c ]
  ]

  -- `cm_start_entry`
  unfoldable pub start_entry : Text → Context S → Bool × Context S
  start_entry name c = at_nickname name start_at c

  -- `cm_stop_entry`, once the entry was found at `i`
  unfoldable pub stop_at : ℕ → Slot → Context S → Bool × Context S
  stop_at i s c =
      let d = free_event s.next_event c in
      (
        true,
        record d {
          shared = it.save (it.finish c.shared s.entry) s.entry;
          slots = modify_slot d.slots i (λ s. record s { is_started = false; next_event = none });
        },
      )

  -- `cm_stop_entry`
  unfoldable pub stop_entry : Text → Context S → Bool × Context S
  stop_entry name c = at_nickname name stop_at c

  -- `cm_restart_entry`
  unfoldable pub restart_entry : Text → Context S → Bool × Context S
  restart_entry name c =
      let (stopped, d) = stop_entry name c in if stopped then start_entry name d else (false, d)

  -- "Clearing previously-set idle timer."
  abbrev pub clear_timeout : Context S → Context S
  clear_timeout c = record (free_event c.idle_event c) { idle_event = none }

  -- `cm_timeout_h`
  unfoldable pub on_timeout : Context S → Context S
  on_timeout c = record (clear_timeout c) {
    should_quit = if length c.slots == 0 then suc c.should_quit else c.should_quit;
  }

  -- What follows, by whether there is a time to wait and whether there are no entries.
  unfoldable pub rearm : Bool → Bool → Context S → Context S
  rearm true true c =
      let (h, d) = add_event (at_time (ev.time c.calls +ℤ c.idle_timeout)) c in
      record d { idle_event = h }
  rearm true false c = record c { idle_timeout = pos 0 }
  rearm false unused c = c

  -- `cm_reset_timeout`
  unfoldable pub reset_timeout : Context S → Context S
  reset_timeout c = rearm (ltb_ℤ (pos 0) c.idle_timeout) (length c.slots == 0) (clear_timeout c)

  -- A nickname that is not in use: the arrays grow, and the entry is started and saved.
  unfoldable pub insert_entry : ℕ → Text → Text → Context S → Bool × Context S
  insert_entry e name bus c =
      let d = reset_timeout (record c { slots = c.slots ++ (new_slot e name bus ∷ []) }) in
      let r = (start_entry name d).1 in (true, record r { shared = it.save r.shared e })

  -- `cm_add_entry` for an entry that has a nickname; the result is whether it returned 0.
  unfoldable pub add_entry : ℕ → Text → Text → Context S → Bool × Context S
  add_entry e name bus c = elim (find_index (is_named name) c.slots) [
    | some i ↦ (false, c)
    | none ↦ insert_entry e name bus c
  ]

  -- `cm_add_entry` for one that has none: the times that the clock shows in turn are tried, until one is
  -- no entry's name.
  unfoldable pub unused_name : List Text → List Slot → Option Text
  unused_name [] ss = none
  unused_name (name ∷ names) ss =
      let later = unused_name names ss in
      elim (find_index (is_named name) ss) [ none ↦ some name | some i ↦ later ]

  -- The end of `cm_remove_entry`, once the entry was found at `i`
  unfoldable pub remove_at : ℕ → Slot → Context S → Bool × Context S
  remove_at i s c =
      let (gone, shared) = it.drop c.shared s.entry in
      if gone
      then (true, record c { shared = shared; slots = remove_slot c.slots i })
      else (false, record c { shared = shared })

  -- The entry that was stopped is removed.
  unfoldable pub remove_stopped : Text → Bool × Context S → Bool × Context S
  remove_stopped name (true, c) = at_nickname name remove_at c
  remove_stopped name (false, c) = (false, c)

  -- `cm_remove_entry`; the result is whether it returned 0.
  unfoldable pub remove_entry : Text → Context S → Bool × Context S
  remove_entry name c =
      let (removed, d) = remove_stopped name (stop_entry name c) in (removed, reset_timeout d)

  -- The new nickname that a client's org.fedorahosted.certmonger.request.modify() gives the entry at `i`
  unfoldable pub rename_entry : ℕ → Text → Context S → Context S
  rename_entry i name c = record c {
    slots = modify_slot c.slots i (λ s. record s { nickname = name });
  }

  -- One turn of the loop of `cm_restart_entries_by_ca`: whether an entry was restarted, and the status so far.
  unfoldable pub restart_if : Text → Slot → Bool × (Bool × Context S) → Bool × (Bool × Context S)
  restart_if ca s (seen, (status, c)) =
      if elim (it.ca_of c.shared s.entry) [ none ↦ false | some name ↦ text_eq name ca ]
      then (let (fine, d) = restart_entry s.nickname c in
          (true, ((if seen then fine && status else fine), d)))
      else (seen, (status, c))

  -- The turns from the index `i` on, as many as there are entries left.
  unfoldable pub restart_from : Text → ℕ → ℕ → Bool × (Bool × Context S) → Bool × (Bool × Context S)
  restart_from ca zero i r = r
  restart_from ca (suc left) i r =
      restart_from ca left (suc i)
        (elim (slot_at r.1.1.slots i) [ none ↦ r | some s ↦ restart_if ca s r ])

  -- `cm_restart_entries_by_ca`
  unfoldable pub restart_entries_by_ca : Text → Context S → Bool × Context S
  restart_entries_by_ca ca c = (restart_from ca (length c.slots) 0 (false, (false, c))).1

  -- Something that is done to the entries from the index `i` on, as many as are left.
  unfoldable pub sweep : (ℕ → Slot → Context S → Context S) → ℕ → ℕ → Context S → Context S
  sweep act zero i c = c
  sweep act (suc left) i c =
      sweep act left (suc i) (elim (slot_at c.slots i) [ none ↦ c | some s ↦ act i s c ])

  -- What `cm_start_all` does to an entry.
  unfoldable pub set_going : ℕ → Slot → Context S → Context S
  set_going i s c = if s.is_started then serve i s.entry c else (start_at i s c).1

  -- The loop of `cm_start_all` over the entries, and its last call
  unfoldable pub start_all : Context S → Context S
  start_all c = reset_timeout (sweep set_going (length c.slots) 0 c)

  -- The loop of `cm_stop_all` over the entries
  unfoldable pub stop_all : Context S → Context S
  stop_all c = sweep (λ i s d. (stop_at i s d).1) (length c.slots) 0 c
