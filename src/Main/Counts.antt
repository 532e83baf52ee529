-- ===== src/Main/Counts.antt =====
-- Counting in the array of entries of src/cm.c, and what changes of the array do to a count and to a search.
use certmonger.Prelude.{
  ℕ, zero, suc, ◌==◌, ◌<◌, ◌+◌, Bool, true, false, Option, none, some, List, [], ◌∷◌, ◌++◌, ◌≡◌,
  refl, ap, if◌then◌else◌, arith, length,
}
use certmonger.Main.Context.{Slot}
use certmonger.Main.Slots.{find_index, slot_at, modify_slot, remove_slot}

abbrev pub one : Bool → ℕ
one true = 1
one false = 0

abbrev pub count_if : (Slot → Bool) → List Slot → ℕ
count_if test [] = 0
count_if test (s ∷ ss) = one (test s) + count_if test ss

pub same_index : (i j : ℕ) → ◌≡◌ {A = Option ℕ} (some i) (some j) → i ≡ j
same_index i j h = ap (λ o. elim o [ none ↦ i | some x ↦ x ]) h

pub same_slot : (r s : Slot) → ◌≡◌ {A = Option Slot} (some r) (some s) → r ≡ s
same_slot r s h = ap (λ o. elim o [ none ↦ r | some x ↦ x ]) h

misses :
    (b : Bool) (o : Option ℕ)
    → (if b then some 0 else elim o [ none ↦ none | some i ↦ some (suc i) ]) ≡ none
    → (b ≡ false) × (o ≡ none)
misses true o h = ground arith
misses false none h = (refl, refl)
misses false (some i) h = ground arith

module _ (test : Slot → Bool) where
  pub count_if-modify_slot :
      (ss : List Slot) (i : ℕ) (s : Slot) (f : Slot → Slot)
      → slot_at ss i ≡ some s
      → count_if test (modify_slot ss i f) + one (test s) ≡ count_if test ss + one (test (f s))
  unfolding modify_slot slot_at
  count_if-modify_slot [] i s f at = ground arith
  count_if-modify_slot (r ∷ ss) zero s f at = rw (same_slot r s at) (omega arith)
  count_if-modify_slot (r ∷ ss) (suc i) s f at =
      let ih = count_if-modify_slot ss i s f at in omega arith

  pub count_if-remove_slot :
      (ss : List Slot) (i : ℕ) (s : Slot)
      → slot_at ss i ≡ some s
      → count_if test (remove_slot ss i) + one (test s) ≡ count_if test ss
  unfolding remove_slot slot_at
  count_if-remove_slot [] i s at = ground arith
  count_if-remove_slot (r ∷ ss) zero s at = rw (same_slot r s at) (omega arith)
  count_if-remove_slot (r ∷ ss) (suc i) s at =
      let ih = count_if-remove_slot ss i s at in omega arith

  pub count_if-append :
      (ss : List Slot) (s : Slot) → count_if test (ss ++ (s ∷ [])) ≡ count_if test ss + one (test s)
  count_if-append [] s = omega arith
  count_if-append (r ∷ ss) s = let ih = count_if-append ss s in omega arith

  pub count_if-unseen :
      (ss : List Slot) (i : ℕ) (f : Slot → Slot)
      → ((s : Slot) → test (f s) ≡ test s)
      → count_if test (modify_slot ss i f) ≡ count_if test ss
  unfolding modify_slot
  count_if-unseen [] i f same = refl
  count_if-unseen (s ∷ ss) zero f same = rw (same s) refl
  count_if-unseen (s ∷ ss) (suc i) f same = rw (count_if-unseen ss i f same) refl

  -- What a search finds.
  abbrev pub Found : List Slot → Option ℕ → Type 0
  Found ss none = count_if test ss ≡ 0
  Found ss (some i) = (s : Slot) × (slot_at ss i ≡ some s) × (test s ≡ true)

  looking_on :
      (b : Bool) (s : Slot) (ss : List Slot) (o : Option ℕ)
      → test s ≡ b
      → Found ss o
      → Found (s ∷ ss) (if b then some 0 else elim o [ none ↦ none | some i ↦ some (suc i) ])
  unfolding slot_at
  looking_on true s ss o passes h = (s, refl, passes)
  looking_on false s ss none passes h = rw (passes, h) refl
  looking_on false s ss (some i) passes h = h

  pub find_index-Found : (ss : List Slot) → Found ss (find_index test ss)
  unfolding find_index
  find_index-Found [] = refl
  find_index-Found (s ∷ ss) =
      looking_on (test s) s ss (find_index test ss) refl (find_index-Found ss)

  -- A search that found nothing finds a new entry at the end.
  pub find_index-append :
      (ss : List Slot) (s : Slot)
      → find_index test ss ≡ none
      → test s ≡ true
      → find_index test (ss ++ (s ∷ [])) ≡ some (length ss)
  unfolding find_index
  find_index-append [] s missing passes = rw passes refl
  find_index-append (r ∷ ss) s missing passes =
      let (first, later) = misses (test r) (find_index test ss) missing in
      rw (first, find_index-append ss s later passes) refl

  -- A change that the search does not see.
  pub find_index-modify_slot :
      (ss : List Slot) (i : ℕ) (f : Slot → Slot)
      → ((s : Slot) → test (f s) ≡ test s)
      → find_index test (modify_slot ss i f) ≡ find_index test ss
  unfolding find_index modify_slot
  find_index-modify_slot [] i f same = refl
  find_index-modify_slot (s ∷ ss) zero f same = rw (same s) refl
  find_index-modify_slot (s ∷ ss) (suc i) f same =
      let ih = find_index-modify_slot ss i f same in rw ih refl

pub slot_at-modify_slot :
    (ss : List Slot) (i : ℕ) (s : Slot) (f : Slot → Slot)
    → slot_at ss i ≡ some s
    → slot_at (modify_slot ss i f) i ≡ some (f s)
unfolding slot_at modify_slot
slot_at-modify_slot [] i s f at = ground arith
slot_at-modify_slot (r ∷ ss) zero s f at = rw (same_slot r s at) refl
slot_at-modify_slot (r ∷ ss) (suc i) s f at = slot_at-modify_slot ss i s f at

pub slot_at-append : (ss : List Slot) (s : Slot) → slot_at (ss ++ (s ∷ [])) (length ss) ≡ some s
unfolding slot_at
slot_at-append [] s = refl
slot_at-append (r ∷ ss) s = slot_at-append ss s

-- A change of one place does nothing to another.
pub slot_at-elsewhere :
    (ss : List Slot) (i j : ℕ) (f : Slot → Slot)
    → (i == j) ≡ false
    → slot_at (modify_slot ss i f) j ≡ slot_at ss j
unfolding slot_at modify_slot
slot_at-elsewhere [] i j f other = refl
slot_at-elsewhere (s ∷ ss) zero zero f other = ground arith
slot_at-elsewhere (s ∷ ss) zero (suc j) f other = refl
slot_at-elsewhere (s ∷ ss) (suc i) zero f other = refl
slot_at-elsewhere (s ∷ ss) (suc i) (suc j) f other = slot_at-elsewhere ss i j f (ground arith)

-- A change does nothing to the entries in front of or behind it.
pub slot_at-other :
    (ss : List Slot) (i j : ℕ) (f : Slot → Slot)
    → i < j
    → slot_at (modify_slot ss i f) j ≡ slot_at ss j
unfolding slot_at modify_slot
slot_at-other [] i j f before = refl
slot_at-other (s ∷ ss) i zero f before = absurd (omega arith)
slot_at-other (s ∷ ss) zero (suc j) f before = refl
slot_at-other (s ∷ ss) (suc i) (suc j) f before = slot_at-other ss i j f (omega arith)
