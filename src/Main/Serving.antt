-- ===== src/Main/Serving.antt =====
-- src/cm.c: coming back to an entry gives it the only new event.
use certmonger.Prelude.{
  ℕ, ◌+◌, ◌≤◌, ◌==◌, Bool, true, false, Option, none, some, List, ◌∷◌, ◌≡◌, refl, ℤ, arith, subst,
  ==_iff,
}
use certmonger.Iterate.Machine.{When, no_time}
use certmonger.Main.Context.{Trigger, EventCall, added, Iteration, Events, Slot, Context}
use certmonger.Main.Slots.{is_event, has_event}
use certmonger.Main.Loop.{add_event, schedule, service_entry, serve}
use certmonger.Main.Counts.{one, count_if-modify_slot}
use certmonger.Main.Owners.{pending, Detached, FreshEvents, Orderly}

added_once :
    (g h : ℕ) (cs : List EventCall) (b : Bool)
    → g == h ≡ b
    → pending g cs ≡ 0
    → pending h cs ≤ 1
    → one (g == h) + pending h cs ≤ 1
added_once g h cs true same zero_before few =
    let gone = subst (λ x. pending x cs ≡ 0) ((==_iff g h).0 same) zero_before in
    rw (same, gone) (omega arith)
added_once g h cs false other zero_before few = rw other (omega arith)

module _ {S : Type 0} (it : Iteration S) (ev : Events) (fresh : FreshEvents ev) where
  -- At most one event was added, and it is the result.
  pub record Adds (c : Context S) (r : Option ℕ × Context S) : Type 0 where
    pub same_slots : r.1.slots ≡ c.slots
    pub same_idle : r.1.idle_event ≡ c.idle_event
    pub counts : (h : ℕ) → pending h r.1.calls ≡ one (is_event h r.0) + pending h c.calls
    pub single : (h : ℕ) → pending h c.calls ≤ 1 → pending h r.1.calls ≤ 1

  add_by :
      (t : Trigger) (c : Context S) (o : Option ℕ)
      → ev.new_event c.calls ≡ o
      → Adds c (elim o [
        | none ↦ (none, c)
        | some h ↦ (some h, record c { calls = added h t ∷ c.calls })
      ])
  unfolding pending
  add_by t c none new = record {
    same_slots = refl;
    same_idle = refl;
    counts = λ h. omega arith;
    single = λ h few. few;
  }
  add_by t c (some g) new = record {
    same_slots = refl;
    same_idle = refl;
    counts = λ h. refl;
    single = λ h few. added_once g h c.calls (g == h) refl (fresh c.calls g new) few;
  }

  pub add_event-Adds : (t : Trigger) (c : Context S) → Adds c (add_event it ev t c)
  unfolding add_event
  add_event-Adds t c = add_by t c (ev.new_event c.calls) refl

  schedule-Adds :
      (at : When) (delay : ℤ) (fd : Option ℕ) (c : Context S)
      → Adds c (schedule it ev at delay fd c)
  unfolding schedule
  schedule-Adds no_time delay none c = record {
    same_slots = refl;
    same_idle = refl;
    counts = λ h. omega arith;
    single = λ h few. few;
  }
  schedule-Adds no_time delay (some n) c = add_event-Adds _ c
  schedule-Adds _ delay fd c = add_event-Adds _ c

  pub service_entry-Adds : (e : ℕ) (c : Context S) → Adds c (service_entry it ev e c)
  unfolding service_entry
  service_entry-Adds e c =
      let r = it.pass c.shared e in
      let a = schedule-Adds r.0.when r.0.delay r.0.fd (record c { shared = r.1 }) in
      record {
        same_slots = a.same_slots;
        same_idle = a.same_idle;
        counts = a.counts;
        single = a.single;
      }

  -- Coming back to an entry whose event is not pending any more makes the context orderly.
  pub serve-Orderly :
      (i e : ℕ) (s : Slot) (c : Context S) → Detached i s c → Orderly (serve it ev i e c)
  unfolding serve
  serve-Orderly i e s c v =
      let a = service_entry-Adds e c in
      let r = service_entry it ev e c in
      record {
        tidy = λ h.
            let before = v.counts h in
            let added = a.counts h in
            let slots =
              count_if-modify_slot (has_event h) c.slots i s (λ s. record s { next_event = r.0 })
                v.here in
            (rw (a.same_slots, a.same_idle) (omega arith), a.single h (v.few h));
      }
