-- ===== src/Main/Owners.antt =====
-- src/cm.c: whose the pending events are.
use certmonger.Prelude.{ℕ, ◌+◌, ◌-◌, ◌≤◌, ◌==◌, some, List, [], ◌∷◌, ◌≡◌}
use certmonger.Main.Context.{EventCall, added, freed, Events, Slot, Context}
use certmonger.Main.Slots.{slot_at, is_event, has_event}
use certmonger.Main.Counts.{one, count_if}

-- How many events with a handle are pending after some calls.
unfoldable pub pending : ℕ → List EventCall → ℕ
pending h [] = 0
pending h (added g t ∷ cs) = one (g == h) + pending h cs
pending h (freed g ∷ cs) = pending h cs - one (g == h)

-- The event library gives a new event a handle that no pending event has.
abbrev pub FreshEvents : Events → Type 0
FreshEvents ev = (cs : List EventCall) (h : ℕ) → ev.new_event cs ≡ some h → pending h cs ≡ 0

module _ {S : Type 0} where
  -- How many pointers of the context are to an event.
  abbrev pub owned : ℕ → Context S → ℕ
  owned h c = count_if (has_event h) c.slots + one (is_event h c.idle_event)

  -- Every pending event has exactly one pointer in the context, and every pointer is to one.
  pub record Orderly (c : Context S) : Type 0 where
    pub tidy : (h : ℕ) → (owned h c ≡ pending h c.calls) × (pending h c.calls ≤ 1)

  -- The same, but for the event of an entry, which is not pending any more and to which the entry still
  -- has its pointer.
  pub record Detached (i : ℕ) (s : Slot) (c : Context S) : Type 0 where
    pub here : slot_at c.slots i ≡ some s
    pub counts : (h : ℕ) → owned h c ≡ pending h c.calls + one (has_event h s)
    pub few : (h : ℕ) → pending h c.calls ≤ 1
