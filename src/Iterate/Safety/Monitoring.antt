-- ===== src/Iterate/Safety/Monitoring.antt =====
-- The cases of Iterate/Entry/Monitoring.antt leave what a pass has to leave.
use certmonger.Prelude.{
  Option, List, ◌⊎◌, inl, inr, ℕ, ℤ, Bool, if◌then◌else◌, ◌≡◌, refl, true, false, none,
}
use certmonger.Store.{
  Ca, State, Details, monitoring, need_to_notify_validity, notifying_validity, need_key_pair,
  need_csr,
}
use certmonger.Iterate.Lock.{Lock}
use certmonger.Iterate.Machine.{Effect, When, World, M, Machine, Tasks, notify}
use certmonger.Iterate.Expiry.{check_enroll, check_notify, rekey_is_expected}
use certmonger.Iterate.Entry.Monitoring.{
  wait_to_monitor, try_enroll, on_monitoring, on_need_to_notify_validity, on_notifying_validity,
}
use certmonger.Iterate.Safety.Invariant.{Inv}
use certmonger.Iterate.Safety.Rules.{Sure, with_details, branch_rule}
use certmonger.Iterate.Safety.Outcome.{Post, at_start, free_at, Here, settled}
use certmonger.Iterate.Safety.Shapes.{poll-Post, launch-Post, finish-Post}

module _ (w : World) (e : ℕ) (s : Machine) (v : Inv e s) where
  pub on_need_to_notify_validity-Post :
      s.state ≡ need_to_notify_validity
      → Sure (Post e need_to_notify_validity s.lock) (on_need_to_notify_validity w) s
  unfolding on_need_to_notify_validity
  on_need_to_notify_validity-Post at =
      launch-Post w e need_to_notify_validity s.lock false notify _ notifying_validity s
        (at_start e s v need_to_notify_validity false at
          (free_at e s v need_to_notify_validity at refl))
        refl refl at refl

-- Starting over leads to a new key or to a new request.
try_enroll_rule :
    (P : Machine → Type 0) (w : World) (others : M (Unit {0})) (s : Machine)
    → ((d : Details) → Sure P others (with_details s d))
    → ((d : Details) (b : Bool)
        → P (record s {
          details = d;
          state = (if b then need_key_pair else need_csr);
          when = When.now;
        }))
    → Sure P (try_enroll w others) s
unfolding try_enroll
try_enroll_rule P w others s ho hs =
    branch_rule P s.details.autorenew _ _
      (branch_rule P (check_enroll w.now_enroll w.enroll_ttls s.details).0 _ _
        (hs _ (rekey_is_expected w.now_rekey w.key_end_of_life w.max_key_use_count s.details))
        (ho _))
      (ho s.details)

-- Either way of starting over is a way on from a wait.
renewed :
    {e : ℕ} {l l' : Lock} {t : Tasks} {d : Details} {c : Option Ca} {g : ℤ} {fd : Option ℕ}
    {fx : List Effect} {st : State} (b : Bool)
    → (st ≡ monitoring) ⊎ (st ≡ notifying_validity)
    → Here e l false none l' t
    → Post e st l (record {
      lock = l';
      state = (if b then need_key_pair else need_csr);
      details = d;
      tasks = t;
      ca = c;
      when = When.now;
      delay = g;
      readfd = fd;
      effects = fx;
    })
renewed true (inl h) here = settled {b = false} _ here (rw h refl)
renewed true (inr h) here = settled {b = false} _ here (rw h refl)
renewed false (inl h) here = settled {b = false} _ here (rw h refl)
renewed false (inr h) here = settled {b = false} _ here (rw h refl)

module _ (w : World) (e : ℕ) (s : Machine) (v : Inv e s) where
  pub on_monitoring-Post :
      (remaining : ℤ)
      → s.state ≡ monitoring
      → Sure (Post e monitoring s.lock) (on_monitoring w remaining) s
  unfolding on_monitoring
  on_monitoring-Post remaining at =
      let here = at_start e s v monitoring false at (free_at e s v monitoring at refl) in
      let others = λ (d : Details).
        try_enroll_rule (Post e monitoring s.lock) w (wait_to_monitor w remaining)
          (with_details s d) (λ c. settled {b = false} _ here (rw at refl))
          (λ c b. renewed b (inl refl) here) in
      branch_rule (Post e monitoring s.lock) s.details.monitor _ _
        (branch_rule (Post e monitoring s.lock)
          (check_notify w.now_notify w.notify_ttls s.details).0 _ _
          (settled {b = false} _ here refl) (others _))
        (others s.details)

  pub on_notifying_validity-Post :
      (remaining : ℤ)
      → s.state ≡ notifying_validity
      → Sure (Post e notifying_validity s.lock) (on_notifying_validity w remaining) s
  unfolding on_notifying_validity
  on_notifying_validity-Post remaining at =
      let here =
        at_start e s v notifying_validity false at (free_at e s v notifying_validity at refl) in
      poll-Post w e notifying_validity s.lock false notify _ _ s here at refl refl λ d.
        finish-Post w e notifying_validity s.lock false notify _ (with_details s d) here λ d idle.
          try_enroll_rule (Post e notifying_validity s.lock) w _ _
            (λ c. settled {b = false} _ idle refl) (λ c b. renewed b (inr refl) idle)
