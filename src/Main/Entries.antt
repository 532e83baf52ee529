-- ===== src/Main/Entries.antt =====
-- src/cm.c with src/iterate.c: what a pass over an entry answers makes the daemon come back to it.
use certmonger.Prelude.{
  ℕ, Bool, true, false, not, ◌||◌, Option, none, some, is_some, ◌∷◌, ◌≡◌, ◌⊎◌, inl, inr, refl, ℤ,
  arith,
}
use certmonger.Iterate.Lock.{ok}
use certmonger.Iterate.Machine.{World, Machine, When, no_time}
use certmonger.Iterate.Entry.{iterate}
use certmonger.Iterate.Safety.Invariant.{Inv}
use certmonger.Iterate.Safety.Diagram.{awaits}
use certmonger.Iterate.Safety.Outcome.{is_no_time}
use certmonger.Iterate.Safety.System.{passed}
use certmonger.Main.Context.{Trigger, added, Verdict, Iteration, Events, Context}
use certmonger.Main.Loop.{add_event, schedule, service_entry}

-- What a pass that left the machine `t` answers.
abbrev pub verdict_of : Machine → Verdict
verdict_of t = record { when = t.when; delay = t.delay; fd = t.readfd }

some_or : {X : Type 0} (o : Option ℕ) → (o ≡ none → X) → (is_some o ≡ true) ⊎ X
some_or none h = inr (h refl)
some_or (some n) h = inl refl

still_awaits :
    (at : When) (fd : Option ℕ) (b : Bool)
    → is_no_time at ≡ true
    → is_some fd ≡ false
    → not (is_no_time at) || (is_some fd || b) ≡ true
    → b ≡ true
still_awaits at fd b sleeps blind wake = ground (arith, sleeps, blind, wake)

module _ {S : Type 0} (it : Iteration S) (ev : Events) where
  -- Nothing was added because the event library refused.
  refused :
      (t : Trigger) (c : Context S) (o : Option ℕ)
      → ev.new_event c.calls ≡ o
      → (let r : Option ℕ × Context S = elim o [
        | none ↦ (none, c)
        | some h ↦ (some h, record c { calls = added h t ∷ c.calls })
      ] in
          r.0)
        ≡ none
      → ev.new_event c.calls ≡ none
  refused t c none new nothing = new
  refused t c (some h) new nothing = ground arith

  add_event_refused :
      (t : Trigger) (c : Context S) → (add_event it ev t c).0 ≡ none → ev.new_event c.calls ≡ none
  unfolding add_event
  add_event_refused t c nothing = refused t c (ev.new_event c.calls) refl nothing

  unscheduled :
      (at : When) (delay : ℤ) (fd : Option ℕ) (c : Context S)
      → (schedule it ev at delay fd c).0 ≡ none
      → (ev.new_event c.calls ≡ none) ⊎ ((is_no_time at ≡ true) × (is_some fd ≡ false))
  unfolding schedule
  unscheduled no_time delay none c nothing = inr (refl, refl)
  unscheduled no_time delay (some n) c nothing = inl (add_event_refused _ c nothing)
  unscheduled _ delay fd c nothing = inl (add_event_refused _ c nothing)

  -- If the pass is one over an entry that is well formed, then behind `cm_service_entry` the entry has an
  -- event, or the event library refused to add one, or the entry waits for somebody's instructions.
  pub service_entry_comes_back :
      (w : World) (e : ℕ) (s t : Machine) (c : Context S)
      → Inv e s
      → iterate w e s ≡ ok (tt, t)
      → (it.pass c.shared e).0 ≡ verdict_of t
      → (is_some (service_entry it ev e c).0 ≡ true)
        ⊎ ((ev.new_event c.calls ≡ none) ⊎ (awaits t.state ≡ true))
  unfolding service_entry
  service_entry_comes_back w e s t c v run same =
      let wake = (passed w e s t v run).wake in
      some_or (service_entry it ev e c).0 λ nothing.
        elim (unscheduled (it.pass c.shared e).0.when (it.pass c.shared e).0.delay
          (it.pass c.shared e).0.fd _ nothing) [
            | inl new ↦ inl new
            | inr (sleeps, blind) ↦
                let sleeps = rw same at sleeps in
                let blind = rw same at blind in
                inr (still_awaits t.when t.readfd (awaits t.state) sleeps blind wake)
          ]
