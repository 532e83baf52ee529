-- ===== src/Main/Keeping.antt =====
-- src/cm.c: the orders of clients and the events leave each pending event its one pointer.
use certmonger.Prelude.{
  ℕ, Bool, true, false, Option, none, some, ◌≡◌, refl, ap, ==_iff, arith, if◌then◌else◌,
}
use certmonger.Main.Context.{Iteration, Events, Slot, Context}
use certmonger.Main.Slots.{find_index, slot_at, modify_slot, is_event, has_event}
use certmonger.Main.Loop.{free_event, serve, handle_event, start_at, stop_at}
use certmonger.Main.Counts.{
  count_if-modify_slot, count_if-remove_slot, Found, find_index-Found, slot_at-modify_slot,
}
use certmonger.Main.Owners.{pending, FreshEvents, Orderly, Detached}
use certmonger.Main.Serving.{serve-Orderly}

pub event_is : (h : ℕ) (o : Option ℕ) → is_event h o ≡ true → o ≡ some h
event_is h none mine = ground arith
event_is h (some g) mine = ap some ((==_iff g h).0 mine)

module _ {S : Type 0} (it : Iteration S) (ev : Events) where
  -- Freeing the event of an entry leaves only its pointer behind.
  pub freed-Detached :
      (i : ℕ) (s : Slot) (c : Context S) (o : Option ℕ)
      → Orderly c
      → slot_at c.slots i ≡ some s
      → s.next_event ≡ o
      → Detached i s (free_event it ev o c)
  unfolding free_event pending
  freed-Detached i s c none v at event = record {
    here = at;
    counts = λ h. let before = (v.tidy h).0 in rw event (omega arith);
    few = λ h. (v.tidy h).1;
  }
  freed-Detached i s c (some g) v at event = record {
    here = at;
    counts = λ h.
        let (before, few) = v.tidy h in
        let slots = count_if-remove_slot (has_event h) c.slots i s at in
        let mine = rw event at slots in rw event (omega arith);
    few = λ h. let few = (v.tidy h).1 in omega arith;
  }

  -- An entry whose event is not pending any more gives up its pointer, too.
  cleared-Orderly :
      (i : ℕ) (s : Slot) (c : Context S) (shared : S)
      → Detached i s c
      → Orderly (record c {
        shared = shared;
        slots = modify_slot c.slots i (λ s. record s { is_started = false; next_event = none });
      })
  cleared-Orderly i s c shared v =
      let cleared : Slot → Slot = λ s. record s { is_started = false; next_event = none } in
      record {
        tidy = λ h.
            let slots = count_if-modify_slot (has_event h) c.slots i s cleared v.here in
            let before = v.counts h in (omega arith, v.few h);
      }

  pub stop_at-Orderly :
      (i : ℕ) (s : Slot) (c : Context S)
      → Orderly c
      → slot_at c.slots i ≡ some s
      → Orderly (stop_at it ev i s c).1
  unfolding stop_at
  stop_at-Orderly i s c v at =
      cleared-Orderly i s (free_event it ev s.next_event c) _
        (freed-Detached i s c s.next_event v at refl)

  -- A change of the shared state is nothing to the context.
  pub shared-Orderly :
      (c : Context S) (shared : S) → Orderly c → Orderly (record c { shared = shared })
  shared-Orderly c shared v = record { tidy = v.tidy }

  pub picked :
      (b : Bool) (x y : Bool × Context S)
      → Orderly x.1
      → Orderly y.1
      → Orderly (if b then x else y).1
  picked true x y hx hy = hx
  picked false x y hx hy = hy

  started-Detached :
      (i : ℕ) (s : Slot) (c : Context S) (shared : S)
      → Orderly c
      → slot_at c.slots i ≡ some s
      → s.next_event ≡ none
      → Detached i
          (record s { is_started = true })
          (record c {
            shared = shared;
            slots = modify_slot c.slots i (λ s. record s { is_started = true });
          })
  started-Detached i s c shared v at bare =
      let started : Slot → Slot = λ s. record s { is_started = true } in
      record {
        here = slot_at-modify_slot c.slots i s started at;
        counts = λ h.
            let slots = count_if-modify_slot (has_event h) c.slots i s started at in
            let before = (v.tidy h).0 in rw bare (omega arith);
        few = λ h. (v.tidy h).1;
      }

  -- An entry without an event is started.
  pub start_at-Orderly :
      FreshEvents ev
      → (i : ℕ) (s : Slot) (c : Context S) → Orderly c
      → slot_at c.slots i ≡ some s
      → s.next_event ≡ none
      → Orderly (start_at it ev i s c).1
  unfolding start_at
  start_at-Orderly fresh i s c v at bare =
      picked (it.begin c.shared s.entry).0 _ _
        (serve-Orderly it ev fresh i s.entry (record s { is_started = true }) _
          (started-Detached i s c (it.begin c.shared s.entry).1 v at bare))
        (shared-Orderly c (it.begin c.shared s.entry).1 v)

  handled :
      FreshEvents ev
      → (h : ℕ) (c : Context S) (o : Option ℕ) → Orderly c
      → Found (has_event h) c.slots o
      → Orderly (elim o [
        | none ↦ c
        | some i ↦ elim (slot_at c.slots i) [
          | none ↦ c
          | some s ↦ serve it ev i s.entry (free_event it ev (some h) c)
        ]
      ])
  handled fresh h c none v found = v
  handled fresh h c (some i) v (s, at, mine) = rw at (
      serve-Orderly it ev fresh i s.entry s (free_event it ev (some h) c)
        (freed-Detached i s c (some h) v at (event_is h s.next_event mine)))

  -- `cm_timer_h` and `cm_fd_h`.
  pub handle_event-Orderly :
      FreshEvents ev → (h : ℕ) (c : Context S) → Orderly c → Orderly (handle_event it ev h c)
  unfolding handle_event
  handle_event-Orderly fresh h c v =
      handled fresh h c (find_index (has_event h) c.slots) v
        (find_index-Found (has_event h) c.slots)
