-- ===== src/Iterate/Entry/Saving.antt =====
-- src/iterate.c, `cm_iterate_entry`: the cases that save an issued certificate and read it back.
use certmonger.Prelude.{ℕ}
use certmonger.Store.{
  pre_save_cert, start_saving_cert, saving_cert, saved_cert, need_certsave_perms,
  need_certsave_token, need_certsave_pin, need_to_notify_issued_save_failed, reading_cert,
  post_saved_cert, need_to_notify_issued_saved, need_guidance, need_to_save_ca_certs,
}
use certmonger.Iterate.Machine.{
  World, When, soonish, M, ◌>>◌, goto, revisit, emit, emitted_saved_cert, finish, hook, certsave,
  certread, hook_start_presave, hook_start_postsave, hook_ready, certsave_start, certsave_ready,
  certsave_saved, certsave_permissions_error, certsave_token_error, certsave_pin_error,
  certread_start, certread_ready, certread_finished_reading,
}
use certmonger.Iterate.Steps.{launch, launch_or_skip, poll, when, settle, take_lock, hold_lock}

module _ (w : World) (e : ℕ) where
  -- CM_NEED_TO_SAVE_CERT
  unfoldable pub on_need_to_save_cert : M (Unit {0})
  on_need_to_save_cert =
      take_lock e (launch_or_skip w hook hook_start_presave pre_save_cert start_saving_cert)

  -- CM_NEED_TO_READ_CERT
  unfoldable pub on_need_to_read_cert : M (Unit {0})
  on_need_to_read_cert = hold_lock e (launch w certread certread_start reading_cert)

module _ (w : World) where
  -- CM_PRE_SAVE_CERT
  unfoldable pub on_pre_save_cert : M (Unit {0})
  on_pre_save_cert = poll w hook hook_ready (settle w hook start_saving_cert When.now)

  -- CM_START_SAVING_CERT
  unfoldable pub on_start_saving_cert : M (Unit {0})
  on_start_saving_cert = launch w certsave certsave_start saving_cert

  -- CM_SAVING_CERT
  unfoldable pub on_saving_cert : M (Unit {0})
  on_saving_cert = poll w certsave certsave_ready (
      when w certsave certsave_saved (settle w certsave saved_cert When.now) (
        when w certsave certsave_permissions_error (settle w certsave need_certsave_perms When.now)
          (when w certsave certsave_token_error (settle w certsave need_certsave_token When.now) (
            when w certsave certsave_pin_error (settle w certsave need_certsave_pin When.now)
              (settle w certsave need_to_notify_issued_save_failed soonish)))))

  -- CM_SAVED_CERT
  unfoldable pub on_saved_cert : M (Unit {0})
  on_saved_cert = do goto need_to_save_ca_certs; revisit When.now

  -- CM_READING_CERT
  unfoldable pub on_reading_cert : M (Unit {0})
  on_reading_cert = poll w certread certread_ready (
      when w certread certread_finished_reading
        (do
          finish w certread
          emit emitted_saved_cert
          launch_or_skip w hook hook_start_postsave post_saved_cert need_to_notify_issued_saved)
        (settle w certread need_guidance When.now))

  -- CM_POST_SAVED_CERT
  unfoldable pub on_post_saved_cert : M (Unit {0})
  on_post_saved_cert = poll w hook hook_ready (settle w hook need_to_notify_issued_saved When.now)
