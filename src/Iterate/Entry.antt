-- ===== src/Iterate/Entry.antt =====
-- src/iterate.c, `cm_iterate_entry`: one pass over an entry, its set-up and its end. The cases of the
-- switch are in the modules below.
pub mod Keys
pub mod Requests
pub mod Submission
pub mod Saving
pub mod CaSaving
pub mod Notifying
pub mod Monitoring
pub mod Added
pub mod Reset
use certmonger.Prelude.{ℕ, ◌==◌, not, Bool, none, List, [], if◌then◌else◌, ℤ, pos, sub_ℕ}
use certmonger.Store.{
  State, need_key_pair, generating_key_pair, need_key_gen_perms, need_key_gen_pin,
  need_key_gen_token, have_key_pair, need_keyinfo, reading_keyinfo, need_keyinfo_read_pin,
  need_keyinfo_read_token, have_keyinfo, need_csr, generating_csr, need_csr_gen_pin,
  need_csr_gen_token, have_csr, need_scep_data, generating_scep_data, need_scep_gen_pin,
  need_scep_gen_token, need_scep_encryption_cert, need_scep_rsa_client_key, have_scep_data,
  need_to_submit, submitting, need_ca, ca_unreachable, ca_unconfigured, ca_rejected, ca_working,
  need_to_save_cert, pre_save_cert, start_saving_cert, saving_cert, need_certsave_perms,
  need_certsave_token, need_certsave_pin, need_to_save_ca_certs, start_saving_ca_certs,
  saving_ca_certs, need_ca_cert_save_perms, need_to_save_only_ca_certs, start_saving_only_ca_certs,
  saving_only_ca_certs, need_only_ca_cert_save_perms, need_to_read_cert, reading_cert, saved_cert,
  post_saved_cert, monitoring, need_to_notify_validity, notifying_validity,
  need_to_notify_rejection, notifying_rejection, need_to_notify_issued_save_failed,
  notifying_issued_save_failed, need_to_notify_issued_ca_save_failed,
  notifying_issued_ca_save_failed, need_to_notify_only_ca_save_failed,
  notifying_only_ca_save_failed, need_to_notify_issued_saved, notifying_issued_saved, need_guidance,
  newly_added, newly_added_start_reading_keyinfo, newly_added_reading_keyinfo,
  newly_added_need_keyinfo_read_pin, newly_added_need_keyinfo_read_token,
  newly_added_start_reading_cert, newly_added_reading_cert, newly_added_deciding,
}
use certmonger.Store.{Details, Phase, same_state}
use certmonger.Iterate.Lock.{
  Lock, Outcome, ok, fault, aborted, entry_holder, has_lock, unlock_by_entry,
}
use certmonger.Iterate.Machine.{
  World, Tool, Call, When, no_time, Machine, M, branch, ◌>>=◌, ◌>>◌, goto, revisit, emit, modify,
  saved_entry, emitted_changes, on_lock, is_running, no_tasks, start, check, finish, submit, csrgen,
  scepgen, keyiread, keygen, notify, casave, certread, keyiread_start, keyiread_ready,
  certread_start, certread_ready,
}
use certmonger.Iterate.Delay.{unknown_remaining}
use Added.{
  on_newly_added, on_newly_added_reading_keyinfo, on_newly_added_deciding,
  on_newly_added_start_reading_keyinfo, on_newly_added_start_reading_cert,
  on_newly_added_reading_cert,
}
use CaSaving.{
  on_need_to_save_ca_certs, on_need_to_save_only_ca_certs, on_saving_only_ca_certs,
  on_start_saving_ca_certs, on_saving_ca_certs, on_start_saving_only_ca_certs,
}
use Keys.{
  on_need_key_pair, on_generating_key_pair, on_have_key_pair, on_need_keyinfo, on_reading_keyinfo,
}
use Monitoring.{on_monitoring, on_need_to_notify_validity, on_notifying_validity}
use Notifying.{
  on_need_to_notify_issued_save_failed, on_need_to_notify_issued_saved,
  on_need_to_notify_issued_ca_save_failed, on_need_to_notify_only_ca_save_failed,
  on_need_to_notify_rejection, on_notifying_rejection, on_notifying_issued_save_failed,
  on_notifying_issued_saved, on_notifying_issued_ca_save_failed, on_notifying_only_ca_save_failed,
}
use Requests.{
  on_have_keyinfo, on_need_csr, on_generating_csr, on_have_csr, on_need_scep_data,
  on_generating_scep_data, on_have_scep_data,
}
use Saving.{
  on_need_to_save_cert, on_need_to_read_cert, on_pre_save_cert, on_start_saving_cert,
  on_saving_cert, on_saved_cert, on_reading_cert, on_post_saved_cert,
}
use Submission.{on_need_to_submit, on_submitting, on_ca_working, on_ca_unreachable}
use Reset.{reset_state}

-- The switch of `cm_iterate_entry`.
unfoldable pub dispatch : World → ℕ → State → ℤ → M (Unit {0})
dispatch w e need_key_pair remaining = on_need_key_pair w e
dispatch w e generating_key_pair remaining = on_generating_key_pair w e
dispatch w e need_key_gen_perms remaining = revisit no_time
dispatch w e need_key_gen_pin remaining = revisit no_time
dispatch w e need_key_gen_token remaining = revisit no_time
dispatch w e have_key_pair remaining = on_have_key_pair w
dispatch w e need_keyinfo remaining = on_need_keyinfo w
dispatch w e reading_keyinfo remaining = on_reading_keyinfo w
dispatch w e need_keyinfo_read_pin remaining = revisit no_time
dispatch w e need_keyinfo_read_token remaining = revisit no_time
dispatch w e have_keyinfo remaining = on_have_keyinfo w
dispatch w e need_csr remaining = on_need_csr w
dispatch w e generating_csr remaining = on_generating_csr w
dispatch w e need_csr_gen_pin remaining = revisit no_time
dispatch w e need_csr_gen_token remaining = revisit no_time
dispatch w e have_csr remaining = on_have_csr w
dispatch w e need_scep_data remaining = on_need_scep_data w
dispatch w e generating_scep_data remaining = on_generating_scep_data w
dispatch w e need_scep_gen_pin remaining = revisit no_time
dispatch w e need_scep_gen_token remaining = revisit no_time
dispatch w e need_scep_encryption_cert remaining = revisit no_time
dispatch w e need_scep_rsa_client_key remaining = revisit no_time
dispatch w e have_scep_data remaining = on_have_scep_data w
dispatch w e need_to_submit remaining = on_need_to_submit w
dispatch w e submitting remaining = on_submitting w remaining
dispatch w e need_ca remaining = revisit no_time
dispatch w e ca_unreachable remaining = on_ca_unreachable w
dispatch w e ca_unconfigured remaining = revisit no_time
dispatch w e ca_rejected remaining = revisit no_time
dispatch w e ca_working remaining = on_ca_working w
dispatch w e need_to_save_cert remaining = on_need_to_save_cert w e
dispatch w e pre_save_cert remaining = on_pre_save_cert w
dispatch w e start_saving_cert remaining = on_start_saving_cert w
dispatch w e saving_cert remaining = on_saving_cert w
dispatch w e need_certsave_perms remaining = revisit no_time
dispatch w e need_certsave_token remaining = revisit no_time
dispatch w e need_certsave_pin remaining = revisit no_time
dispatch w e need_to_save_ca_certs remaining = on_need_to_save_ca_certs w e
dispatch w e start_saving_ca_certs remaining = on_start_saving_ca_certs w
dispatch w e saving_ca_certs remaining = on_saving_ca_certs w
dispatch w e need_ca_cert_save_perms remaining = revisit no_time
dispatch w e need_to_save_only_ca_certs remaining = on_need_to_save_only_ca_certs w e
dispatch w e start_saving_only_ca_certs remaining = on_start_saving_only_ca_certs w
dispatch w e saving_only_ca_certs remaining = on_saving_only_ca_certs w e
dispatch w e need_only_ca_cert_save_perms remaining = revisit no_time
dispatch w e need_to_read_cert remaining = on_need_to_read_cert w e
dispatch w e reading_cert remaining = on_reading_cert w
dispatch w e saved_cert remaining = on_saved_cert w
dispatch w e post_saved_cert remaining = on_post_saved_cert w
dispatch w e monitoring remaining = on_monitoring w remaining
dispatch w e need_to_notify_validity remaining = on_need_to_notify_validity w
dispatch w e notifying_validity remaining = on_notifying_validity w remaining
dispatch w e need_to_notify_rejection remaining = on_need_to_notify_rejection w
dispatch w e notifying_rejection remaining = on_notifying_rejection w
dispatch w e need_to_notify_issued_save_failed remaining = on_need_to_notify_issued_save_failed w e
dispatch w e notifying_issued_save_failed remaining = on_notifying_issued_save_failed w
dispatch w e need_to_notify_issued_ca_save_failed remaining =
    on_need_to_notify_issued_ca_save_failed w e
dispatch w e notifying_issued_ca_save_failed remaining = on_notifying_issued_ca_save_failed w
dispatch w e need_to_notify_only_ca_save_failed remaining =
    on_need_to_notify_only_ca_save_failed w e
dispatch w e notifying_only_ca_save_failed remaining = on_notifying_only_ca_save_failed w
dispatch w e need_to_notify_issued_saved remaining = on_need_to_notify_issued_saved w e
dispatch w e notifying_issued_saved remaining = on_notifying_issued_saved w
dispatch w e need_guidance remaining = revisit no_time
dispatch w e newly_added remaining = on_newly_added w e
dispatch w e newly_added_start_reading_keyinfo remaining = on_newly_added_start_reading_keyinfo w
dispatch w e newly_added_reading_keyinfo remaining = on_newly_added_reading_keyinfo w e
dispatch w e newly_added_need_keyinfo_read_pin remaining = revisit no_time
dispatch w e newly_added_need_keyinfo_read_token remaining = revisit no_time
dispatch w e newly_added_start_reading_cert remaining = on_newly_added_start_reading_cert w
dispatch w e newly_added_reading_cert remaining = on_newly_added_reading_cert w
dispatch w e newly_added_deciding remaining = on_newly_added_deciding w e
dispatch w e State.invalid remaining = λ s. fault aborted

-- What is left of the certificate's life; -1 if its end is not known.
unfoldable pub remaining_at : ℕ → Details → ℤ
remaining_at at d = if d.cert_not_after == 0 then unknown_remaining else sub_ℕ d.cert_not_after at

-- The outputs as they are set when a pass begins.
unfoldable pub begin : Machine → Machine
begin s = record s { readfd = none; when = no_time; delay = pos 0; effects = [] }

-- The end of a pass: an entry that moved to another state is saved, and changes are announced.
unfoldable pub conclude : State → M (Unit {0})
conclude old = do
  λ s. branch (same_state old s.state) (modify (λ t. t)) (emit saved_entry) s
  emit emitted_changes

-- `cm_iterate_entry`
unfoldable pub iterate : World → ℕ → M (Unit {0})
unfolding begin conclude
iterate w e s = (do dispatch w e s.state (remaining_at w.now s.details); conclude s.state) (begin s)

-- cm_entry_reset_state(entry)
abbrev pub reset : M (Unit {0})
reset s = elim (reset_state s.state) [
  | ok st ↦ ok (tt, record s { state = st })
  | fault f ↦ fault f
]

-- `if (cm_writing_has_lock(entry, ...)) cm_writing_unlock_by_entry(entry);`
unfoldable pub drop_lock : ℕ → M (Unit {0})
drop_lock e s =
    branch (has_lock (entry_holder e) Phase.invalid s.lock)
      (do on_lock (unlock_by_entry e); modify (λ t. t)) (modify (λ t. t)) s

module _ (w : World) where
  -- Read something and wait for the end of it. The loop around the wait is left after its last
  -- poll, which is the one modelled.
  abbrev pub read_now : Tool → Call → Call → M (Unit {0})
  read_now tool begins ready = do
    started ← start w tool begins
    branch started (do check w tool ready; finish w tool) (modify (λ t. t))

  -- `cm_iterate_entry_init`: `*cm_iterate_state` is set to a new, empty state.
  unfoldable pub init : ℕ → M (Unit {0})
  unfolding drop_lock
  init e = do
    modify λ s. record s { tasks = no_tasks }
    reset
    drop_lock e
    read_now keyiread keyiread_start keyiread_ready
    read_now certread certread_start certread_ready
    emit saved_entry

  -- `if (state->X != NULL) { X_done(state->X); state->X = NULL; }`
  abbrev pub cancel : Tool → M (Unit {0})
  cancel tool s = branch (is_running tool s.tasks) (finish w tool) (modify (λ t. t)) s

  -- `cm_iterate_entry_done`, for an entry that has its working state
  unfoldable pub done : ℕ → M (Unit {0})
  unfolding drop_lock
  done e = do
    cancel submit
    cancel csrgen
    cancel scepgen
    cancel keyiread
    cancel keygen
    cancel notify
    cancel casave
    reset
    drop_lock e
