-- ===== src/Iterate/Entry/CaSaving.antt =====
-- src/iterate.c, `cm_iterate_entry`: the cases that save the CA's own certificates, after an
-- issued certificate or alone.
use certmonger.Prelude.{ℕ}
use certmonger.Store.{
  start_saving_ca_certs, saving_ca_certs, need_to_read_cert, need_ca_cert_save_perms,
  need_to_notify_issued_ca_save_failed, start_saving_only_ca_certs, saving_only_ca_certs,
  monitoring, need_only_ca_cert_save_perms, need_to_notify_only_ca_save_failed,
}
use certmonger.Iterate.Machine.{
  World, When, soonish, M, ◌>>◌, goto, revisit, casave, casave_start, casave_ready, casave_saved,
  casave_permissions_error,
}
use certmonger.Iterate.Steps.{launch, poll, when, settle, hold_lock, release_lock}

module _ (w : World) (e : ℕ) where
  -- CM_NEED_TO_SAVE_CA_CERTS
  unfoldable pub on_need_to_save_ca_certs : M (Unit {0})
  on_need_to_save_ca_certs = hold_lock e do goto start_saving_ca_certs; revisit When.now

  -- CM_NEED_TO_SAVE_ONLY_CA_CERTS
  unfoldable pub on_need_to_save_only_ca_certs : M (Unit {0})
  on_need_to_save_only_ca_certs = hold_lock e do goto start_saving_only_ca_certs; revisit When.now

  -- CM_SAVING_ONLY_CA_CERTS
  unfoldable pub on_saving_only_ca_certs : M (Unit {0})
  on_saving_only_ca_certs = poll w casave casave_ready (
      when w casave casave_saved (release_lock e (settle w casave monitoring When.now)) (
        when w casave casave_permissions_error
          (release_lock e (settle w casave need_only_ca_cert_save_perms When.now))
          (settle w casave need_to_notify_only_ca_save_failed soonish)))

module _ (w : World) where
  -- CM_START_SAVING_CA_CERTS
  unfoldable pub on_start_saving_ca_certs : M (Unit {0})
  on_start_saving_ca_certs = launch w casave casave_start saving_ca_certs

  -- CM_SAVING_CA_CERTS
  unfoldable pub on_saving_ca_certs : M (Unit {0})
  on_saving_ca_certs = poll w casave casave_ready (
      when w casave casave_saved (settle w casave need_to_read_cert When.now) (
        when w casave casave_permissions_error (settle w casave need_ca_cert_save_perms When.now)
          (settle w casave need_to_notify_issued_ca_save_failed soonish)))

  -- CM_START_SAVING_ONLY_CA_CERTS
  unfoldable pub on_start_saving_only_ca_certs : M (Unit {0})
  on_start_saving_only_ca_certs = launch w casave casave_start saving_only_ca_certs
