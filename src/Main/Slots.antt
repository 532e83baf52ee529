-- ===== src/Main/Slots.antt =====
-- src/cm.c: looking for entries in the context.
use certmonger.Prelude.{
  ℕ, zero, suc, ◌==◌, Bool, false, Option, none, some, List, [], ◌∷◌, Text, text_eq, if◌then◌else◌,
  length,
}
use certmonger.Main.Context.{Slot, Context}

-- The index of the first entry of which `test` holds.
unfoldable pub find_index : (Slot → Bool) → List Slot → Option ℕ
find_index test [] = none
find_index test (s ∷ ss) =
    let rest = find_index test ss in
    if test s then some 0 else elim rest [ none ↦ none | some i ↦ some (suc i) ]

-- entries[i]
unfoldable pub slot_at : List Slot → ℕ → Option Slot
slot_at [] i = none
slot_at (s ∷ ss) zero = some s
slot_at (s ∷ ss) (suc i) = slot_at ss i

-- A change of `entries[i]` and `entry_events[i]`.
unfoldable pub modify_slot : List Slot → ℕ → (Slot → Slot) → List Slot
modify_slot [] i f = []
modify_slot (s ∷ ss) zero f = f s ∷ ss
modify_slot (s ∷ ss) (suc i) f = s ∷ modify_slot ss i f

-- The memmove() that closes the gap at `i`.
unfoldable pub remove_slot : List Slot → ℕ → List Slot
remove_slot [] i = []
remove_slot (s ∷ ss) zero = ss
remove_slot (s ∷ ss) (suc i) = s ∷ remove_slot ss i

abbrev pub is_named : Text → Slot → Bool
is_named name s = text_eq s.nickname name

-- Whether a pointer is to the event with a handle.
abbrev pub is_event : ℕ → Option ℕ → Bool
is_event h none = false
is_event h (some g) = g == h

abbrev pub has_event : ℕ → Slot → Bool
has_event h s = is_event h s.next_event

module _ {S : Type 0} where
  -- `cm_find_entry_by_nickname`
  unfoldable pub find_entry_by_nickname : Context S → Text → Option ℕ
  find_entry_by_nickname c name = find_index (is_named name) c.slots

  -- The address of the entry at an index.
  abbrev pub entry_at : Context S → Option ℕ → Option ℕ
  entry_at c none = none
  entry_at c (some i) = elim (slot_at c.slots i) [ none ↦ none | some s ↦ some s.entry ]

  -- `cm_get_entry_by_nickname`
  unfoldable pub get_entry_by_nickname : Context S → Text → Option ℕ
  get_entry_by_nickname c name = entry_at c (find_index (is_named name) c.slots)

  -- `cm_get_entry_by_busname`
  unfoldable pub get_entry_by_busname : Context S → Text → Option ℕ
  get_entry_by_busname c name = entry_at c (find_index (λ s. text_eq s.busname name) c.slots)

  -- `cm_get_entry_by_index`, for an index that is not negative.
  unfoldable pub get_entry_by_index : Context S → ℕ → Option ℕ
  get_entry_by_index c i = entry_at c (some i)

  -- `cm_get_n_entries`
  unfoldable pub get_n_entries : Context S → ℕ
  get_n_entries c = length c.slots
