-- ===== src/Iterate/Entry/Reset.antt =====
-- src/iterate.c, `cm_entry_reset_state`: states in which something is going on fall back to the
-- last stable one.
use certmonger.Store.{
  State, need_key_pair, generating_key_pair, need_key_gen_perms, need_key_gen_pin,
  need_key_gen_token, have_key_pair, need_keyinfo, reading_keyinfo, need_keyinfo_read_pin,
  need_keyinfo_read_token, have_keyinfo, need_csr, generating_csr, need_csr_gen_pin,
  need_csr_gen_token, have_csr, need_scep_data, generating_scep_data, need_scep_gen_pin,
  need_scep_gen_token, need_scep_encryption_cert, need_scep_rsa_client_key, have_scep_data,
  need_to_submit, submitting, need_ca, ca_unreachable, ca_unconfigured, ca_rejected, ca_working,
  need_to_save_cert, pre_save_cert, start_saving_cert, saving_cert, need_certsave_perms,
  need_certsave_token, need_certsave_pin, need_to_save_ca_certs, start_saving_ca_certs,
  saving_ca_certs, need_ca_cert_save_perms, need_to_save_only_ca_certs, start_saving_only_ca_certs,
  saving_only_ca_certs, need_only_ca_cert_save_perms, need_to_read_cert, reading_cert, saved_cert,
  post_saved_cert, monitoring, need_to_notify_validity, notifying_validity,
  need_to_notify_rejection, notifying_rejection, need_to_notify_issued_save_failed,
  notifying_issued_save_failed, need_to_notify_issued_ca_save_failed,
  notifying_issued_ca_save_failed, need_to_notify_only_ca_save_failed,
  notifying_only_ca_save_failed, need_to_notify_issued_saved, notifying_issued_saved, need_guidance,
  newly_added, newly_added_start_reading_keyinfo, newly_added_reading_keyinfo,
  newly_added_need_keyinfo_read_pin, newly_added_need_keyinfo_read_token,
  newly_added_start_reading_cert, newly_added_reading_cert, newly_added_deciding,
}
use certmonger.Iterate.Lock.{Outcome, ok, fault, aborted}

unfoldable pub reset_state : State → Outcome State
reset_state need_key_pair = ok need_key_pair
reset_state generating_key_pair = ok need_key_pair
reset_state need_key_gen_perms = ok need_key_pair
reset_state need_key_gen_pin = ok need_key_pair
reset_state need_key_gen_token = ok need_key_pair
reset_state have_key_pair = ok have_key_pair
reset_state need_keyinfo = ok need_keyinfo
reset_state reading_keyinfo = ok need_keyinfo
reset_state need_keyinfo_read_pin = ok need_keyinfo
reset_state need_keyinfo_read_token = ok need_keyinfo
reset_state have_keyinfo = ok have_keyinfo
reset_state need_csr = ok have_keyinfo
reset_state generating_csr = ok have_keyinfo
reset_state need_csr_gen_pin = ok have_keyinfo
reset_state need_csr_gen_token = ok have_keyinfo
reset_state have_csr = ok have_csr
reset_state need_scep_data = ok need_scep_data
reset_state generating_scep_data = ok need_scep_data
reset_state need_scep_gen_pin = ok need_scep_data
reset_state need_scep_gen_token = ok need_scep_data
reset_state need_scep_encryption_cert = ok need_scep_data
reset_state need_scep_rsa_client_key = ok need_scep_data
reset_state have_scep_data = ok have_scep_data
reset_state need_to_submit = ok have_csr
reset_state submitting = ok have_csr
reset_state need_ca = ok have_csr
reset_state ca_unreachable = ok have_csr
reset_state ca_unconfigured = ok have_csr
reset_state ca_rejected = ok ca_rejected
reset_state ca_working = ok have_csr
reset_state need_to_save_cert = ok need_to_save_cert
reset_state pre_save_cert = ok need_to_save_cert
reset_state start_saving_cert = ok need_to_save_cert
reset_state saving_cert = ok need_to_save_cert
reset_state need_certsave_perms = ok need_to_save_cert
reset_state need_certsave_token = ok need_to_save_cert
reset_state need_certsave_pin = ok need_to_save_cert
reset_state need_to_save_ca_certs = ok need_to_save_ca_certs
reset_state start_saving_ca_certs = ok need_to_save_ca_certs
reset_state saving_ca_certs = ok need_to_save_ca_certs
reset_state need_ca_cert_save_perms = ok need_to_save_ca_certs
reset_state need_to_save_only_ca_certs = ok need_to_save_only_ca_certs
reset_state start_saving_only_ca_certs = ok need_to_save_only_ca_certs
reset_state saving_only_ca_certs = ok need_to_save_only_ca_certs
reset_state need_only_ca_cert_save_perms = ok need_to_save_only_ca_certs
reset_state need_to_read_cert = ok need_to_read_cert
reset_state reading_cert = ok need_to_read_cert
reset_state saved_cert = ok saved_cert
reset_state post_saved_cert = ok need_to_notify_issued_saved
reset_state monitoring = ok monitoring
reset_state need_to_notify_validity = ok monitoring
reset_state notifying_validity = ok need_to_notify_validity
reset_state need_to_notify_rejection = ok need_to_notify_rejection
reset_state notifying_rejection = ok need_to_notify_rejection
reset_state need_to_notify_issued_save_failed = ok need_to_notify_issued_save_failed
reset_state notifying_issued_save_failed = ok need_to_notify_issued_save_failed
reset_state need_to_notify_issued_ca_save_failed = ok need_to_notify_issued_ca_save_failed
reset_state notifying_issued_ca_save_failed = ok need_to_notify_issued_ca_save_failed
reset_state need_to_notify_only_ca_save_failed = ok need_to_notify_only_ca_save_failed
reset_state notifying_only_ca_save_failed = ok need_to_notify_only_ca_save_failed
reset_state need_to_notify_issued_saved = ok need_to_notify_issued_saved
reset_state notifying_issued_saved = ok need_to_notify_issued_saved
reset_state need_guidance = ok need_guidance
reset_state newly_added = ok newly_added
reset_state newly_added_start_reading_keyinfo = ok newly_added
reset_state newly_added_reading_keyinfo = ok newly_added
reset_state newly_added_need_keyinfo_read_pin = ok newly_added
reset_state newly_added_need_keyinfo_read_token = ok newly_added
reset_state newly_added_start_reading_cert = ok newly_added
reset_state newly_added_reading_cert = ok newly_added
reset_state newly_added_deciding = ok newly_added
reset_state State.invalid = fault aborted
