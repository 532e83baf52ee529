-- ===== src/Iterate/Entry/Notifying.antt =====
-- src/iterate.c, `cm_iterate_entry`: the cases that tell the administrator what happened, but for
-- the approaching end of a certificate.
use certmonger.Prelude.{ℕ}
use certmonger.Store.{
  notifying_rejection, ca_rejected, notifying_issued_save_failed, start_saving_cert,
  notifying_issued_ca_save_failed, need_to_save_ca_certs, notifying_issued_saved, monitoring,
  notifying_only_ca_save_failed,
}
use certmonger.Iterate.Machine.{
  World, soon, soonish, M, notify, notify_start, notify_ready, rejected, issued_not_saved,
  issued_ca_not_saved, issued_and_saved, ca_not_saved,
}
use certmonger.Iterate.Steps.{launch, poll, settle, hold_lock, release_lock}

module _ (w : World) (e : ℕ) where
  -- CM_NEED_TO_NOTIFY_ISSUED_SAVE_FAILED
  unfoldable pub on_need_to_notify_issued_save_failed : M (Unit {0})
  on_need_to_notify_issued_save_failed = hold_lock e (
      release_lock e (launch w notify (notify_start issued_not_saved) notifying_issued_save_failed))

  -- CM_NEED_TO_NOTIFY_ISSUED_SAVED
  unfoldable pub on_need_to_notify_issued_saved : M (Unit {0})
  on_need_to_notify_issued_saved =
      hold_lock e
        (release_lock e (launch w notify (notify_start issued_and_saved) notifying_issued_saved))

  -- CM_NEED_TO_NOTIFY_ISSUED_CA_SAVE_FAILED
  unfoldable pub on_need_to_notify_issued_ca_save_failed : M (Unit {0})
  on_need_to_notify_issued_ca_save_failed = hold_lock e (
      release_lock e
        (launch w notify (notify_start issued_ca_not_saved) notifying_issued_ca_save_failed))

  -- CM_NEED_TO_NOTIFY_ONLY_CA_SAVE_FAILED
  unfoldable pub on_need_to_notify_only_ca_save_failed : M (Unit {0})
  on_need_to_notify_only_ca_save_failed =
      hold_lock e
        (release_lock e (launch w notify (notify_start ca_not_saved) notifying_only_ca_save_failed))

module _ (w : World) where
  -- CM_NEED_TO_NOTIFY_REJECTION
  unfoldable pub on_need_to_notify_rejection : M (Unit {0})
  on_need_to_notify_rejection = launch w notify (notify_start rejected) notifying_rejection

  -- CM_NOTIFYING_REJECTION
  unfoldable pub on_notifying_rejection : M (Unit {0})
  on_notifying_rejection = poll w notify notify_ready (settle w notify ca_rejected soon)

  -- CM_NOTIFYING_ISSUED_SAVE_FAILED
  unfoldable pub on_notifying_issued_save_failed : M (Unit {0})
  on_notifying_issued_save_failed =
      poll w notify notify_ready (settle w notify start_saving_cert soonish)

  -- CM_NOTIFYING_ISSUED_SAVED
  unfoldable pub on_notifying_issued_saved : M (Unit {0})
  on_notifying_issued_saved = poll w notify notify_ready (settle w notify monitoring soon)

  -- CM_NOTIFYING_ISSUED_CA_SAVE_FAILED
  unfoldable pub on_notifying_issued_ca_save_failed : M (Unit {0})
  on_notifying_issued_ca_save_failed =
      poll w notify notify_ready (settle w notify need_to_save_ca_certs soonish)

  -- CM_NOTIFYING_ONLY_CA_SAVE_FAILED
  unfoldable pub on_notifying_only_ca_save_failed : M (Unit {0})
  on_notifying_only_ca_save_failed = poll w notify notify_ready (settle w notify monitoring soonish)
