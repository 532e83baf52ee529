-- ===== src/Main/Arrays.antt =====
-- src/cm.c: entries that come and go, and the idle timer, leave each pending event
-- its one pointer.
use certmonger.Prelude.{
  ℕ, ◌==◌, Bool, true, false, Option, none, some, [], ◌∷◌, ◌++◌, ◌≡◌, refl, ap, ◌∙◌, sym, pos,
  ltb_ℤ, Text, text_eq, text_eq_iff, arith, length,
}
use certmonger.Main.Context.{Trigger, Iteration, Events, Slot, Context}
use certmonger.Main.Slots.{find_index, slot_at, is_named, has_event}
use certmonger.Main.Loop.{
  add_event, free_event, on_timeout, rearm, reset_timeout, add_entry, insert_entry, new_slot,
  remove_at, rename_entry, remove_stopped, remove_entry, start_entry, stop_entry,
}
use certmonger.Main.Counts.{
  count_if-remove_slot, count_if-append, count_if-unseen, Found, find_index-Found,
  find_index-append, slot_at-append, same_index, same_slot,
}
use certmonger.Main.Owners.{pending, FreshEvents, Orderly}
use certmonger.Main.Serving.{add_event-Adds}
use certmonger.Main.Keeping.{shared-Orderly, picked}
use certmonger.Main.Named.{
  start_entry-Orderly, stop_entry-Orderly, stop_entry-IsBare, IsBare, at_nickname_rule,
  free_event-slots,
}

module _ {S : Type 0} (it : Iteration S) (ev : Events) where
  idle_off-Orderly :
      (o : Option ℕ) (c : Context S)
      → Orderly c
      → c.idle_event ≡ o
      → Orderly (record (free_event it ev o c) { idle_event = none })
  unfolding free_event pending
  idle_off-Orderly none c v idle = record {
    tidy = λ h. let before = rw idle at (v.tidy h) in before;
  }
  idle_off-Orderly (some g) c v idle = record {
    tidy = λ h. let (before, few) = rw idle at (v.tidy h) in (omega arith, omega arith);
  }

  -- A new idle timer, while there is none.
  idle_on-Orderly :
      FreshEvents ev
      → (t : Trigger) (c : Context S) → Orderly c
      → c.idle_event ≡ none
      → Orderly (record (add_event it ev t c).1 { idle_event = (add_event it ev t c).0 })
  idle_on-Orderly fresh t c v idle =
      let a = add_event-Adds it ev fresh t c in
      record {
        tidy = λ h.
            let (before, few) = rw idle at (v.tidy h) in
            let more = a.counts h in (rw a.same_slots (omega arith), a.single h few);
      }

  pub on_timeout-Orderly : (c : Context S) → Orderly c → Orderly (on_timeout it ev c)
  unfolding on_timeout
  on_timeout-Orderly c v =
      let off = idle_off-Orderly c.idle_event c v refl in record { tidy = off.tidy }

  rearm-Orderly :
      FreshEvents ev
      → (waits bare : Bool) (c : Context S) → Orderly c
      → c.idle_event ≡ none
      → Orderly (rearm it ev waits bare c)
  unfolding rearm
  rearm-Orderly fresh true true c v idle = idle_on-Orderly fresh _ c v idle
  rearm-Orderly fresh true false c v idle = record { tidy = v.tidy }
  rearm-Orderly fresh false bare c v idle = v

  pub reset_timeout-Orderly :
      FreshEvents ev → (c : Context S) → Orderly c → Orderly (reset_timeout it ev c)
  unfolding reset_timeout
  reset_timeout-Orderly fresh c v =
      rearm-Orderly fresh (ltb_ℤ (pos 0) c.idle_timeout) (length c.slots == 0) _
        (idle_off-Orderly c.idle_event c v refl) refl

  rearm-slots :
      FreshEvents ev
      → (waits bare : Bool) (c : Context S) → (rearm it ev waits bare c).slots ≡ c.slots
  unfolding rearm
  rearm-slots fresh true true c = (add_event-Adds it ev fresh _ c).same_slots
  rearm-slots fresh true false c = refl
  rearm-slots fresh false bare c = refl

  pub reset_timeout-slots :
      FreshEvents ev → (c : Context S) → (reset_timeout it ev c).slots ≡ c.slots
  unfolding reset_timeout
  reset_timeout-slots fresh c =
      rearm-slots fresh (ltb_ℤ (pos 0) c.idle_timeout) (length c.slots == 0) _
      ∙ free_event-slots it ev c.idle_event c

  grown-Orderly :
      (e : ℕ) (name bus : Text) (c : Context S)
      → Orderly c
      → Orderly (record c { slots = c.slots ++ (new_slot e name bus ∷ []) })
  grown-Orderly e name bus c v =
      let new = new_slot e name bus in
      record {
        tidy = λ h.
            let (before, few) = v.tidy h in
            let slots = count_if-append (has_event h) c.slots new in (omega arith, few);
      }

  inserted_IsBare :
      FreshEvents ev
      → (e : ℕ) (name bus : Text) (c : Context S) → find_index (is_named name) c.slots ≡ none
      → text_eq name name ≡ true
      → IsBare it ev name
          (reset_timeout it ev (record c { slots = c.slots ++ (new_slot e name bus ∷ []) }))
  inserted_IsBare fresh e name bus c missing itself =
      rw (reset_timeout-slots fresh (record c { slots = c.slots ++ (new_slot e name bus ∷ []) }))
        λ i s looked at.
          let last =
            find_index-append (is_named name) c.slots (new_slot e name bus) missing itself in
          let index = same_index i (length c.slots) (sym looked ∙ last) in
          let there = rw index at at in
          ap (λ (x : Slot). x.next_event)
            (same_slot s (new_slot e name bus)
              (sym there ∙ slot_at-append c.slots (new_slot e name bus)))

  pub insert_entry-Orderly :
      FreshEvents ev
      → (e : ℕ) (name bus : Text) (c : Context S) → Orderly c
      → find_index (is_named name) c.slots ≡ none
      → Orderly (insert_entry it ev e name bus c).1
  unfolding insert_entry
  insert_entry-Orderly fresh e name bus c v missing =
      let grown = grown-Orderly e name bus c v in
      let d = reset_timeout it ev (record c { slots = c.slots ++ (new_slot e name bus ∷ []) }) in
      shared-Orderly it ev (start_entry it ev name d).1 _ (
        start_entry-Orderly it ev fresh name d (reset_timeout-Orderly fresh _ grown)
          (inserted_IsBare fresh e name bus c missing ((text_eq_iff name name).1 refl)))

  added_by :
      FreshEvents ev
      → (e : ℕ) (name bus : Text) (c : Context S) (o : Option ℕ) → Orderly c
      → find_index (is_named name) c.slots ≡ o
      → Found (is_named name) c.slots o
      → let r : Bool × Context S = elim o [
        | some i ↦ (false, c)
        | none ↦ insert_entry it ev e name bus c
      ] in
        Orderly r.1
  added_by fresh e name bus c (some i) v looked found = v
  added_by fresh e name bus c none v looked found = insert_entry-Orderly fresh e name bus c v looked

  pub add_entry-Orderly :
      FreshEvents ev
      → (e : ℕ) (name bus : Text) (c : Context S) → Orderly c
      → Orderly (add_entry it ev e name bus c).1
  unfolding add_entry
  add_entry-Orderly fresh e name bus c v =
      added_by fresh e name bus c (find_index (is_named name) c.slots) v refl
        (find_index-Found (is_named name) c.slots)

  pub rename_entry-Orderly :
      (i : ℕ) (name : Text) (c : Context S) → Orderly c → Orderly (rename_entry it ev i name c)
  unfolding rename_entry
  rename_entry-Orderly i name c v =
      let renamed : Slot → Slot = λ s. record s { nickname = name } in
      record {
        tidy = λ h. rw (count_if-unseen (has_event h) c.slots i renamed (λ s. refl)) (v.tidy h);
      }

  remove_at-Orderly :
      (i : ℕ) (s : Slot) (c : Context S)
      → Orderly c
      → slot_at c.slots i ≡ some s
      → s.next_event ≡ none
      → Orderly (remove_at it ev i s c).1
  unfolding remove_at
  remove_at-Orderly i s c v at bare =
      picked it ev (it.drop c.shared s.entry).0 _ _
        (record {
          tidy = λ h.
              let (before, few) = v.tidy h in
              let slots = rw bare at (count_if-remove_slot (has_event h) c.slots i s at) in
              (omega arith, few);
        })
        (shared-Orderly it ev c (it.drop c.shared s.entry).1 v)

  remove_stopped-Orderly :
      (name : Text) (r : Bool × Context S)
      → Orderly r.1
      → (r.0 ≡ true → IsBare it ev name r.1)
      → Orderly (remove_stopped it ev name r).1
  unfolding remove_stopped
  remove_stopped-Orderly name (false, c) v bare = v
  remove_stopped-Orderly name (true, c) v bare =
      at_nickname_rule it ev (λ r. Orderly r.1) (remove_at it ev) name c v
        λ i s looked at. remove_at-Orderly i s c v at (bare refl i s looked at)

  pub remove_entry-Orderly :
      FreshEvents ev
      → (name : Text) (c : Context S) → Orderly c
      → Orderly (remove_entry it ev name c).1
  unfolding remove_entry
  remove_entry-Orderly fresh name c v = reset_timeout-Orderly fresh _ (
      remove_stopped-Orderly name (stop_entry it ev name c) (stop_entry-Orderly it ev name c v)
        (stop_entry-IsBare it ev name c))
