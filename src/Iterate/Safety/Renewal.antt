-- ===== src/Iterate/Safety/Renewal.antt =====
-- The renewal of certificates by src/iterate.c: a pass over a monitored certificate that comes near
-- its end.
use certmonger.Prelude.{ℕ, ◌+◌, ◌≤◌, ◌<◌, ◌≡◌, ◌⊎◌, true, some, List, ◌∷◌, arith}
use certmonger.Store.{monitoring, need_to_notify_validity, need_key_pair, need_csr}
use certmonger.Iterate.Machine.{World, Machine}
use certmonger.Iterate.Delay.{delay_monitor_poll_minimum}
use certmonger.Iterate.Expiry.{check_noteworthy, check_notify, check_enroll}
use certmonger.Iterate.Expiry.Crossings.{Noteworthy, configured_iff}
use certmonger.Iterate.Entry.{dispatch, begin, conclude, iterate}
use certmonger.Iterate.Entry.Monitoring.{on_monitoring, try_enroll}
use certmonger.Iterate.Safety.Rules.{Sure}

-- A certificate with automatic renewal, whose end is known, which is old enough to be checked, for
-- which distances are configured and whose end has come near since the last check does not stay in
-- CM_MONITORING: the pass goes on to warn of its end, to make a new key or to make a new request.
pub near_end_leaves_monitoring :
    (w : World) (e : ℕ) (s : Machine) (t : ℕ) (ts : List ℕ)
    → s.state ≡ monitoring
    → s.details.autorenew ≡ true
    → w.enroll_ttls ≡ some (t ∷ ts)
    → 0 < s.details.cert_not_after
    → s.details.cert_not_before + delay_monitor_poll_minimum ≤ w.now_enroll
    → Noteworthy s.details.cert_not_after (t ∷ ts) s.details.last_need_enroll_check w.now_enroll
    → Sure
        (λ r.
          (r.state ≡ need_to_notify_validity) ⊎ ((r.state ≡ need_key_pair) ⊎ (r.state ≡ need_csr)))
        (iterate w e)
        s
unfolding iterate begin conclude dispatch on_monitoring try_enroll check_enroll check_notify
near_end_leaves_monitoring w e s t ts at auto ttls known old near =
    let d = s.details in
    let hit : (check_noteworthy w.now_enroll d.cert_not_before d.cert_not_after (some (t ∷ ts))
          d.last_need_enroll_check).0
        ≡ true =
      (configured_iff d.cert_not_after d.last_need_enroll_check w.now_enroll d.cert_not_before t ts
          known old).0.1
        near in
    rw at ground (arith, hit)
