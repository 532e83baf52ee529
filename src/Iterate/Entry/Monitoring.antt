-- ===== src/Iterate/Entry/Monitoring.antt =====
-- src/iterate.c, `cm_iterate_entry`: the cases that watch a certificate, warn of its end and start
-- its renewal.
use certmonger.Prelude.{if◌then◌else◌, ℤ}
use certmonger.Store.{
  need_to_notify_validity, notifying_validity, need_key_pair, need_csr, monitoring,
}
use certmonger.Iterate.Machine.{
  World, When, delayed, M, branch, ◌>>=◌, ◌>>◌, goto, revisit, get_details, set_details, set_delay,
  finish, notify, notify_start, notify_ready, validity_ending,
}
use certmonger.Iterate.Delay.{decide_monitor_delay}
use certmonger.Iterate.Expiry.{check_notify, check_enroll, rekey_is_expected}
use certmonger.Iterate.Steps.{launch, poll}

module _ (w : World) where
  -- The wait until the certificate is looked at again.
  abbrev pub wait_to_monitor : ℤ → M (Unit {0})
  wait_to_monitor remaining = do
    revisit delayed
    set_delay (decide_monitor_delay remaining w.notify_ttls w.enroll_ttls)

  -- `if (entry->cm_autorenew && (cm_check_expiration_is_noteworthy(...) == 0))`: start over with a
  -- new key or with a new request, or else `others`.
  unfoldable pub try_enroll : M (Unit {0}) → M (Unit {0})
  try_enroll others = do
    d ← get_details
    branch d.autorenew
        (do
          set_details λ d. (check_enroll w.now_enroll w.enroll_ttls d).1
          branch (check_enroll w.now_enroll w.enroll_ttls d).0
              (do
                goto (
                    if rekey_is_expected w.now_rekey w.key_end_of_life w.max_key_use_count d
                    then need_key_pair
                    else need_csr)
                revisit When.now)
              others)
        others

  -- CM_MONITORING
  unfoldable pub on_monitoring : ℤ → M (Unit {0})
  on_monitoring remaining = do
    d ← get_details
    branch d.monitor
        (do
          set_details λ d. (check_notify w.now_notify w.notify_ttls d).1
          branch (check_notify w.now_notify w.notify_ttls d).0
              (do goto need_to_notify_validity; revisit When.now)
              (try_enroll (wait_to_monitor remaining)))
        (try_enroll (wait_to_monitor remaining))

  -- CM_NEED_TO_NOTIFY_VALIDITY
  unfoldable pub on_need_to_notify_validity : M (Unit {0})
  on_need_to_notify_validity = launch w notify (notify_start validity_ending) notifying_validity

  -- CM_NOTIFYING_VALIDITY
  unfoldable pub on_notifying_validity : ℤ → M (Unit {0})
  on_notifying_validity remaining =
      poll w notify notify_ready
        do finish w notify; try_enroll do goto monitoring; wait_to_monitor remaining
