-- ===== src/Iterate/Safety/Diagram.antt =====
-- The diagram of an entry's states: which state a pass of src/iterate.c can move an entry to, and in
-- which states an entry waits to be told what to do.
use certmonger.Prelude.{Bool, true, false, List, [], ◌∷◌, any}
use certmonger.Store.{
  State, same_state, need_key_pair, generating_key_pair, need_key_gen_perms, need_key_gen_pin,
  need_key_gen_token, have_key_pair, need_keyinfo, reading_keyinfo, need_keyinfo_read_pin,
  need_keyinfo_read_token, have_keyinfo, need_csr, generating_csr, need_csr_gen_pin,
  need_csr_gen_token, have_csr, need_scep_data, generating_scep_data, need_scep_gen_pin,
  need_scep_gen_token, need_scep_encryption_cert, need_scep_rsa_client_key, have_scep_data,
  need_to_submit, submitting, need_ca, ca_unreachable, ca_unconfigured, ca_rejected, ca_working,
  need_to_save_cert, pre_save_cert, start_saving_cert, saving_cert, need_certsave_perms,
  need_certsave_token, need_certsave_pin, need_to_save_ca_certs, start_saving_ca_certs,
  saving_ca_certs, need_ca_cert_save_perms, need_to_save_only_ca_certs, start_saving_only_ca_certs,
  saving_only_ca_certs, need_only_ca_cert_save_perms, need_to_read_cert, reading_cert, saved_cert,
  post_saved_cert, monitoring, need_to_notify_validity, notifying_validity,
  need_to_notify_rejection, notifying_rejection, need_to_notify_issued_save_failed,
  notifying_issued_save_failed, need_to_notify_issued_ca_save_failed,
  notifying_issued_ca_save_failed, need_to_notify_only_ca_save_failed,
  notifying_only_ca_save_failed, need_to_notify_issued_saved, notifying_issued_saved, need_guidance,
  newly_added, newly_added_start_reading_keyinfo, newly_added_reading_keyinfo,
  newly_added_need_keyinfo_read_pin, newly_added_need_keyinfo_read_token,
  newly_added_start_reading_cert, newly_added_reading_cert, newly_added_deciding,
}

-- Where a state can lead, other than to itself.
abbrev pub next_states : State → List State
next_states need_key_pair = generating_key_pair ∷ []
next_states generating_key_pair =
    have_key_pair ∷ need_key_gen_perms ∷ need_key_gen_token ∷ need_key_gen_pin ∷ need_key_pair ∷ []
next_states have_key_pair = need_keyinfo ∷ []
next_states need_keyinfo = reading_keyinfo ∷ []
next_states reading_keyinfo =
    have_keyinfo ∷ need_keyinfo_read_token ∷ need_keyinfo_read_pin ∷ need_key_pair ∷ []
next_states have_keyinfo = need_csr ∷ []
next_states need_csr = generating_csr ∷ []
next_states generating_csr = have_csr ∷ need_csr_gen_token ∷ need_csr_gen_pin ∷ need_csr ∷ []
next_states have_csr = need_to_submit ∷ []
next_states need_scep_data = generating_scep_data ∷ []
next_states generating_scep_data =
    have_scep_data ∷ need_scep_gen_token ∷ need_scep_gen_pin ∷ need_scep_encryption_cert
    ∷ need_scep_rsa_client_key ∷ need_scep_data ∷ []
next_states have_scep_data = need_to_submit ∷ []
next_states need_to_submit = submitting ∷ need_ca ∷ []
next_states submitting =
    need_to_save_cert ∷ monitoring ∷ need_to_notify_rejection ∷ ca_unreachable ∷ ca_working
    ∷ ca_unconfigured ∷ need_scep_data ∷ need_key_pair ∷ need_guidance ∷ []
next_states ca_unreachable = need_to_submit ∷ []
next_states ca_working = need_to_submit ∷ []
next_states need_to_save_cert = pre_save_cert ∷ start_saving_cert ∷ []
next_states pre_save_cert = start_saving_cert ∷ []
next_states start_saving_cert = saving_cert ∷ []
next_states saving_cert =
    saved_cert ∷ need_certsave_perms ∷ need_certsave_token ∷ need_certsave_pin
    ∷ need_to_notify_issued_save_failed ∷ []
next_states need_to_save_ca_certs = start_saving_ca_certs ∷ []
next_states start_saving_ca_certs = saving_ca_certs ∷ []
next_states saving_ca_certs =
    need_to_read_cert ∷ need_ca_cert_save_perms ∷ need_to_notify_issued_ca_save_failed ∷ []
next_states need_to_save_only_ca_certs = start_saving_only_ca_certs ∷ []
next_states start_saving_only_ca_certs = saving_only_ca_certs ∷ []
next_states saving_only_ca_certs =
    monitoring ∷ need_only_ca_cert_save_perms ∷ need_to_notify_only_ca_save_failed ∷ []
next_states need_to_read_cert = reading_cert ∷ []
next_states reading_cert = post_saved_cert ∷ need_to_notify_issued_saved ∷ need_guidance ∷ []
next_states saved_cert = need_to_save_ca_certs ∷ []
next_states post_saved_cert = need_to_notify_issued_saved ∷ []
next_states monitoring = need_to_notify_validity ∷ need_key_pair ∷ need_csr ∷ []
next_states need_to_notify_validity = notifying_validity ∷ []
next_states notifying_validity = monitoring ∷ need_key_pair ∷ need_csr ∷ []
next_states need_to_notify_rejection = notifying_rejection ∷ []
next_states notifying_rejection = ca_rejected ∷ []
next_states need_to_notify_issued_save_failed = notifying_issued_save_failed ∷ []
next_states notifying_issued_save_failed = start_saving_cert ∷ []
next_states need_to_notify_issued_ca_save_failed = notifying_issued_ca_save_failed ∷ []
next_states notifying_issued_ca_save_failed = need_to_save_ca_certs ∷ []
next_states need_to_notify_only_ca_save_failed = notifying_only_ca_save_failed ∷ []
next_states notifying_only_ca_save_failed = monitoring ∷ []
next_states need_to_notify_issued_saved = notifying_issued_saved ∷ []
next_states notifying_issued_saved = monitoring ∷ []
next_states newly_added = newly_added_start_reading_keyinfo ∷ newly_added_start_reading_cert ∷ []
next_states newly_added_start_reading_keyinfo = newly_added_reading_keyinfo ∷ []
next_states newly_added_reading_keyinfo =
    newly_added_start_reading_cert ∷ newly_added_need_keyinfo_read_token
    ∷ newly_added_need_keyinfo_read_pin ∷ []
next_states newly_added_start_reading_cert = newly_added_reading_cert ∷ []
next_states newly_added_reading_cert = newly_added_deciding ∷ []
next_states newly_added_deciding =
    need_to_save_only_ca_certs ∷ monitoring ∷ need_csr ∷ need_key_pair ∷ need_guidance ∷ []
next_states _ = []

abbrev pub leads : State → State → Bool
leads a b = any (same_state b) (a ∷ next_states a)

-- No pass does anything more until somebody intervenes.
abbrev pub awaits : State → Bool
awaits need_key_gen_perms = true
awaits need_key_gen_pin = true
awaits need_key_gen_token = true
awaits need_keyinfo_read_pin = true
awaits need_keyinfo_read_token = true
awaits need_csr_gen_pin = true
awaits need_csr_gen_token = true
awaits need_scep_gen_pin = true
awaits need_scep_gen_token = true
awaits need_scep_encryption_cert = true
awaits need_scep_rsa_client_key = true
awaits need_ca = true
awaits ca_unconfigured = true
awaits ca_rejected = true
awaits need_certsave_perms = true
awaits need_certsave_token = true
awaits need_certsave_pin = true
awaits need_ca_cert_save_perms = true
awaits need_only_ca_cert_save_perms = true
awaits need_guidance = true
awaits newly_added_need_keyinfo_read_pin = true
awaits newly_added_need_keyinfo_read_token = true
awaits _ = false
