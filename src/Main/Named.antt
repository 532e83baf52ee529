-- ===== src/Main/Named.antt =====
-- src/cm.c: the orders that name an entry leave each pending event its one pointer.
use certmonger.Prelude.{
  ℕ, Bool, true, false, Option, none, some, List, ◌≡◌, refl, ◌∙◌, ap, sym, Text, arith,
  if◌then◌else◌,
}
use certmonger.Main.Context.{Iteration, Events, Slot, Context}
use certmonger.Main.Slots.{find_index, slot_at, modify_slot, is_named, find_entry_by_nickname}
use certmonger.Main.Loop.{
  free_event, start_at, at_nickname, start_entry, stop_at, stop_entry, restart_entry,
}
use certmonger.Main.Counts.{
  Found, find_index-Found, find_index-modify_slot, slot_at-modify_slot, same_slot, same_index,
}
use certmonger.Main.Owners.{FreshEvents, Orderly}
use certmonger.Main.Keeping.{stop_at-Orderly, start_at-Orderly}

cleared_bare :
    (name : Text) (ss : List Slot) (i : ℕ) (s : Slot)
    → find_index (is_named name) ss ≡ some i
    → slot_at ss i ≡ some s
    → let cleared = modify_slot ss i (λ s. record s { is_started = false; next_event = none }) in
      (j : ℕ) (r : Slot)
      → find_index (is_named name) cleared ≡ some j
      → slot_at cleared j ≡ some r
      → r.next_event ≡ none
cleared_bare name ss i s looked at j r looked_again at_again =
    let f : Slot → Slot = λ s. record s { is_started = false; next_event = none } in
    let same : find_index (is_named name) (modify_slot ss i f) ≡ find_index (is_named name) ss =
      find_index-modify_slot (is_named name) ss i f (λ s. refl) in
    let index : ◌≡◌ {A = Option ℕ} (some j) (some i) = sym looked_again ∙ same ∙ looked in
    let there : slot_at (modify_slot ss i f) j ≡ some (f s) =
      rw (same_index j i index) (slot_at-modify_slot ss i s f at) in
    ap (λ (x : Slot). x.next_event) (same_slot r (f s) (sym at_again ∙ there))

module _ {S : Type 0} (it : Iteration S) (ev : Events) where
  -- What an operation on the entry that has a nickname comes to, by whether there is one.
  module _ (P : Bool × Context S → Type 0) (act : ℕ → Slot → Context S → Bool × Context S)
      (name : Text) (c : Context S) where
    acted :
        (o : Option ℕ)
        → find_index (is_named name) c.slots ≡ o
        → Found (is_named name) c.slots o
        → P (false, c)
        → ((i : ℕ) (s : Slot)
            → find_index (is_named name) c.slots ≡ some i
            → slot_at c.slots i ≡ some s
            → P (act i s c))
        → P (elim o [
          | none ↦ (false, c)
          | some i ↦ elim (slot_at c.slots i) [ none ↦ (false, c) | some s ↦ act i s c ]
        ])
    acted none looked found fails does = fails
    acted (some i) looked (s, at, mine) fails does = rw at (does i s looked at)

    pub at_nickname_rule :
        P (false, c)
        → ((i : ℕ) (s : Slot)
            → find_index (is_named name) c.slots ≡ some i
            → slot_at c.slots i ≡ some s
            → P (act i s c))
        → P (at_nickname it ev name act c)
    unfolding at_nickname find_entry_by_nickname
    at_nickname_rule fails does =
        acted (find_index (is_named name) c.slots) refl (find_index-Found (is_named name) c.slots)
          fails does

  pub stop_entry-Orderly :
      (name : Text) (c : Context S) → Orderly c → Orderly (stop_entry it ev name c).1
  unfolding stop_entry
  stop_entry-Orderly name c v =
      at_nickname_rule (λ r. Orderly r.1) (stop_at it ev) name c v
        λ i s looked at. stop_at-Orderly it ev i s c v at

  -- The entry with a nickname has no event.
  abbrev pub IsBare : Text → Context S → Type 0
  IsBare name c =
      (i : ℕ) (s : Slot)
      → find_index (is_named name) c.slots ≡ some i
      → slot_at c.slots i ≡ some s
      → s.next_event ≡ none

  pub start_entry-Orderly :
      FreshEvents ev
      → (name : Text) (c : Context S) → Orderly c
      → IsBare name c
      → Orderly (start_entry it ev name c).1
  unfolding start_entry
  start_entry-Orderly fresh name c v bare =
      at_nickname_rule (λ r. Orderly r.1) (start_at it ev) name c v
        λ i s looked at. start_at-Orderly it ev fresh i s c v at (bare i s looked at)

  -- An entry that was stopped has no event.
  pub free_event-slots : (o : Option ℕ) (c : Context S) → (free_event it ev o c).slots ≡ c.slots
  unfolding free_event
  free_event-slots none c = refl
  free_event-slots (some h) c = refl

  stop_at-IsBare :
      (name : Text) (i : ℕ) (s : Slot) (c : Context S)
      → find_index (is_named name) c.slots ≡ some i
      → slot_at c.slots i ≡ some s
      → IsBare name (stop_at it ev i s c).1
  unfolding stop_at
  stop_at-IsBare name i s c looked at =
      rw (free_event-slots s.next_event c) (cleared_bare name c.slots i s looked at)

  pub stop_entry-IsBare :
      (name : Text) (c : Context S)
      → (stop_entry it ev name c).0 ≡ true
      → IsBare name (stop_entry it ev name c).1
  unfolding stop_entry
  stop_entry-IsBare name c =
      at_nickname_rule (λ r. r.0 ≡ true → IsBare name r.1) (stop_at it ev) name c
        (λ failed. ground arith) λ i s looked at stopped. stop_at-IsBare name i s c looked at

  restarted :
      FreshEvents ev
      → (name : Text) (r : Bool × Context S) → Orderly r.1
      → (r.0 ≡ true → IsBare name r.1)
      → Orderly (if r.0 then start_entry it ev name r.1 else (false, r.1)).1
  restarted fresh name (true, d) v bare = start_entry-Orderly fresh name d v (bare refl)
  restarted fresh name (false, d) v bare = v

  pub restart_entry-Orderly :
      FreshEvents ev
      → (name : Text) (c : Context S) → Orderly c
      → Orderly (restart_entry it ev name c).1
  unfolding restart_entry
  restart_entry-Orderly fresh name c v =
      restarted fresh name (stop_entry it ev name c) (stop_entry-Orderly name c v)
        (stop_entry-IsBare name c)
