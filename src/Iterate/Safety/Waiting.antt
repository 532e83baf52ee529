-- ===== src/Iterate/Safety/Waiting.antt =====
-- How long src/iterate.c waits before it asks a CA again or looks at a certificate again.
use certmonger.Prelude.{
  ℕ, if◌then◌else◌, ℤ, pos, ◌≤ℤ◌, ◌≡◌, refl, sym, subst, ◌⊎◌, inl, inr, Bool, true, false, arith,
  ltb_ℤ,
}
use certmonger.Store.{monitoring, submitting}
use certmonger.Iterate.Machine.{World, Machine, When, delayed, submit}
use certmonger.Iterate.Delay.{
  decide_monitor_delay, delay_monitor_poll_minimum, delay_monitor_poll_maximum, decide_ca_delay,
  delay_ca_poll_minimum, delay_ca_poll_maximum,
}
use certmonger.Iterate.Delay.Bounds.{decide_monitor_delay_bounds, decide_ca_delay_bounds}
use certmonger.Iterate.Steps.{poll, when, settle}
use certmonger.Iterate.Entry.{dispatch, begin, conclude, iterate, remaining_at}
use certmonger.Iterate.Entry.Monitoring.{on_monitoring, try_enroll}
use certmonger.Iterate.Entry.Submission.{on_submitting, submit_delay}
use certmonger.Iterate.Safety.Invariant.{Inv}
use certmonger.Iterate.Safety.Rules.{Sure, bind_rule, imply_rule}
use certmonger.Iterate.Safety.Outcome.{running}
use certmonger.Iterate.Safety.Passes.{begin-Inv, conclude_rule}

abbrev pub is_delayed : When → Bool
is_delayed delayed = true
is_delayed _ = false

module _ (w : World) (e : ℕ) (s : Machine) (v : Inv e s) where
  on_submitting-delay :
      (remaining : ℤ)
      → s.state ≡ submitting
      → s.when ≡ When.no_time
      → Sure
          (λ t. (is_delayed t.when ≡ false) ⊎ (t.delay ≡ submit_delay w remaining))
          (on_submitting w remaining)
          s
  unfolding on_submitting poll when settle
  on_submitting-delay remaining at at_first =
      ground (arith, running submit s.tasks (rw at at v.tasks_exact))

-- The wait that the CA asked for, or one of ours.
abbrev pub Sensible : World → ℤ → Type 0
Sensible w d =
    ((d ≡ w.specified_delay) × (pos 0 ≤ℤ d))
    ⊎ ((pos delay_ca_poll_minimum ≤ℤ d) × (d ≤ℤ pos delay_ca_poll_maximum))

submit_delay-Sensible : (w : World) (remaining : ℤ) → Sensible w (submit_delay w remaining)
unfolding submit_delay
submit_delay-Sensible w remaining = taken (ltb_ℤ w.specified_delay (pos 0)) refl
  where
    taken :
        (b : Bool)
        → ltb_ℤ w.specified_delay (pos 0) ≡ b
        → Sensible w (if b then decide_ca_delay remaining else w.specified_delay)
    taken true unspecified = inr (decide_ca_delay_bounds remaining)
    taken false specified = inl (refl, ground (arith, specified))

module _ (w : World) (e : ℕ) (s : Machine) (v : Inv e s) where
  -- A pass over a well-formed entry that is waiting for a CA's answer either does not ask for a delay, or asks
  -- for the one that the CA's helper specified, which is not negative, or for one of at least five
  -- minutes and at most a year.
  pub iterate-Sensible :
      s.state ≡ submitting
      → Sure (λ t. (is_delayed t.when ≡ false) ⊎ Sensible w t.delay) (iterate w e) s
  unfolding iterate begin conclude dispatch
  iterate-Sensible at =
      let P : Machine → Type 0 = λ t.
        (is_delayed t.when ≡ false) ⊎ (t.delay ≡ submit_delay w (remaining_at w.now s.details)) in
      let Q : Machine → Type 0 = λ t. (is_delayed t.when ≡ false) ⊎ Sensible w t.delay in
      let r : ℤ = remaining_at w.now s.details in
      bind_rule Q (conclude s.state) (dispatch w e s.state r) (begin s) (
        imply_rule P (Sure Q (conclude s.state))
          (λ t p. conclude_rule Q s.state (λ u fx q. q) t (submitted t.when t.delay p))
          (dispatch w e s.state r) (begin s)
          (subst (λ st. Sure P (dispatch w e st r) (begin s)) (sym at)
            (on_submitting-delay w e (begin s) (begin-Inv e s v) r at refl)))
    where
      submitted :
          (at : When) (d : ℤ)
          → (is_delayed at ≡ false) ⊎ (d ≡ submit_delay w (remaining_at w.now s.details))
          → (is_delayed at ≡ false) ⊎ Sensible w d
      submitted at d (inl at_once) = inl at_once
      submitted at d (inr same) = inr (subst (Sensible w) (sym same) (submit_delay-Sensible w _))

-- The waits of a monitored certificate.
abbrev pub MonitorWait : ℤ → Type 0
MonitorWait d = (pos delay_monitor_poll_minimum ≤ℤ d) × (d ≤ℤ pos delay_monitor_poll_maximum)

module _ (w : World) (e : ℕ) (s : Machine) where
  on_monitoring-delay :
      (remaining : ℤ)
      → s.state ≡ monitoring
      → Sure
          (λ t.
            (t.when ≡ When.now)
            ⊎ ((t.state ≡ monitoring)
                × (t.when ≡ delayed)
                × (t.delay ≡ decide_monitor_delay remaining w.notify_ttls w.enroll_ttls)))
          (on_monitoring w remaining)
          s
  unfolding on_monitoring try_enroll
  on_monitoring-delay remaining at = ground arith

-- A pass over a monitored certificate either asks to come back at once, or leaves the certificate
-- monitored for a wait of at least half an hour and at most a week.
pub iterate-monitoring_waits :
    (w : World) (e : ℕ) (s : Machine)
    → s.state ≡ monitoring
    → Sure
        (λ t.
          (t.when ≡ When.now) ⊎ ((t.state ≡ monitoring) × (t.when ≡ delayed) × MonitorWait t.delay))
        (iterate w e)
        s
unfolding iterate begin conclude dispatch
iterate-monitoring_waits w e s at =
    let r : ℤ = remaining_at w.now s.details in
    let d : ℤ = decide_monitor_delay r w.notify_ttls w.enroll_ttls in
    let P : Machine → Type 0 =
      λ t. (t.when ≡ When.now) ⊎ ((t.state ≡ monitoring) × (t.when ≡ delayed) × (t.delay ≡ d)) in
    let Q : Machine → Type 0 = λ t.
      (t.when ≡ When.now) ⊎ ((t.state ≡ monitoring) × (t.when ≡ delayed) × MonitorWait t.delay) in
    bind_rule Q (conclude s.state) (dispatch w e s.state r) (begin s) (
      imply_rule P (Sure Q (conclude s.state))
        (λ t p. conclude_rule Q s.state (λ u fx q. q) t (waiting t p)) (dispatch w e s.state r)
        (begin s)
        (subst (λ st. Sure P (dispatch w e st r) (begin s)) (sym at)
          (on_monitoring-delay w e (begin s) r at)))
  where
    waiting :
        (t : Machine)
        → (t.when ≡ When.now)
          ⊎ ((t.state ≡ monitoring)
              × (t.when ≡ delayed)
              × (t.delay
                  ≡ decide_monitor_delay
                      (remaining_at w.now s.details)
                      w.notify_ttls
                      w.enroll_ttls))
        → (t.when ≡ When.now) ⊎ ((t.state ≡ monitoring) × (t.when ≡ delayed) × MonitorWait t.delay)
    waiting t (inl at_once) = inl at_once
    waiting t (inr (stays, later, same)) = inr (
      stays,
      later,
      subst MonitorWait (sym same)
          (decide_monitor_delay_bounds (remaining_at w.now s.details) w.notify_ttls w.enroll_ttls),
    )
