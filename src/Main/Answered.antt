-- ===== src/Main/Answered.antt =====
-- src/cm.c: the event that fires is answered by the entry that waits for it.
use certmonger.Prelude.{
  ℕ, ◌+◌, ◌==◌, ◌∷◌, Bool, true, false, Option, none, some, ◌≡◌, ◌⊎◌, inl, inr, refl, ◌∙◌, ap, ℤ,
  arith,
}
use certmonger.Iterate.Machine.{When, no_time}
use certmonger.Main.Context.{Trigger, added, Iteration, Events, Slot, Context}
use certmonger.Main.Slots.{find_index, slot_at, is_event, has_event}
use certmonger.Main.Loop.{add_event, free_event, schedule, service_entry, serve, handle_event}
use certmonger.Main.Counts.{
  one, count_if, Found, find_index-Found, slot_at-elsewhere, count_if-remove_slot,
}
use certmonger.Main.Owners.{pending, FreshEvents, Orderly}
use certmonger.Main.Serving.{service_entry-Adds}
use certmonger.Main.Keeping.{event_is}

module _ {S : Type 0} (it : Iteration S) (ev : Events) where
  add_by-shared :
      (t : Trigger) (c : Context S) (o : Option ℕ)
      → let r : Option ℕ × Context S = elim o [
        | none ↦ (none, c)
        | some h ↦ (some h, record c { calls = added h t ∷ c.calls })
      ] in
        r.1.shared ≡ c.shared
  add_by-shared t c none = refl
  add_by-shared t c (some h) = refl

  add_event-shared : (t : Trigger) (c : Context S) → (add_event it ev t c).1.shared ≡ c.shared
  unfolding add_event
  add_event-shared t c = add_by-shared t c (ev.new_event c.calls)

  schedule-shared :
      (at : When) (delay : ℤ) (fd : Option ℕ) (c : Context S)
      → (schedule it ev at delay fd c).1.shared ≡ c.shared
  unfolding schedule
  schedule-shared no_time delay none c = refl
  schedule-shared no_time delay (some n) c = add_event-shared _ c
  schedule-shared _ delay fd c = add_event-shared _ c

  service_entry-shared :
      (e : ℕ) (c : Context S) → (service_entry it ev e c).1.shared ≡ (it.pass c.shared e).1
  unfolding service_entry
  service_entry-shared e c =
      let r = it.pass c.shared e in
      schedule-shared r.0.when r.0.delay r.0.fd (record c { shared = r.1 })

  -- One pass over the entry at `i`, and nothing to the others.
  pub record Served (i : ℕ) (s : Slot) (c d : Context S) : Type 0 where
    pub passed : d.shared ≡ (it.pass c.shared s.entry).1
    pub others : (j : ℕ) → (i == j) ≡ false → slot_at d.slots j ≡ slot_at c.slots j
    pub idle : d.idle_event ≡ c.idle_event

  serve-Served :
      FreshEvents ev
      → (i h : ℕ) (s : Slot) (c : Context S)
      → Served i s c (serve it ev i s.entry (free_event it ev (some h) c))
  unfolding serve free_event
  serve-Served fresh i h s c =
      let d = free_event it ev (some h) c in
      let a = service_entry-Adds it ev fresh s.entry d in
      record {
        passed = service_entry-shared s.entry d;
        others = λ j other. slot_at-elsewhere _ i j _ other ∙ ap (λ ss. slot_at ss j) a.same_slots;
        idle = a.same_idle;
      }

  -- What becomes of an event that fires.
  abbrev pub Answered : ℕ → Context S → Context S → Type 0
  Answered h c d =
      ((c.idle_event ≡ some h) × (d ≡ c))
      ⊎ ((i : ℕ) × (s : Slot) × (slot_at c.slots i ≡ some s)
          × (s.next_event ≡ some h)
          × Served i s c d)

  answered :
      FreshEvents ev
      → (h : ℕ) (c : Context S) (b : Bool) (o : Option ℕ) → is_event h c.idle_event ≡ b
      → Found (has_event h) c.slots o
      → count_if (has_event h) c.slots + one (is_event h c.idle_event) ≡ 1
      → Answered h c (elim o [
        | none ↦ c
        | some i ↦ elim (slot_at c.slots i) [
          | none ↦ c
          | some s ↦ serve it ev i s.entry (free_event it ev (some h) c)
        ]
      ])
  answered fresh h c true none timer found total = inl (event_is h c.idle_event timer, refl)
  answered fresh h c false none timer found total =
      let total = rw (timer, found) at total in absurd (omega arith)
  answered fresh h c true (some i) timer (s, at, mine) total =
      let slots = rw mine at (count_if-remove_slot (has_event h) c.slots i s at) in
      let total = rw timer at total in absurd (omega arith)
  answered fresh h c false (some i) timer (s, at, mine) total =
      rw at (inr (i, s, at, event_is h s.next_event mine, serve-Served fresh i h s c))

  -- If new events have handles that no pending event has, and every pending event has exactly one
  -- pointer among the entries and the idle timer: when an event that is pending fires, either it is that
  -- of the idle timer and the search of `cm_timer_h` and `cm_fd_h` leaves the context alone, or it is that
  -- of an entry, over which there is exactly one pass, while the other entries and the idle timer stay as
  -- they are.
  pub handle_event-Answered :
      FreshEvents ev
      → (h : ℕ) (c : Context S) → Orderly c
      → pending h c.calls ≡ 1
      → Answered h c (handle_event it ev h c)
  unfolding handle_event
  handle_event-Answered fresh h c v waits =
      answered fresh h c (is_event h c.idle_event) (find_index (has_event h) c.slots) refl
        (find_index-Found (has_event h) c.slots) ((v.tidy h).0 ∙ waits)
