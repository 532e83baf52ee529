-- ===== src/Store/States.antt =====
-- src/store-int.h: the states of a tracked certificate (`enum cm_state`) and of one phase of a CA's
-- data (`enum cm_ca_phase`, `enum cm_ca_phase_state`).
use certmonger.Prelude.{ℕ, Bool, ◌==◌}

pub data State : Type 0 where
  need_key_pair generating_key_pair need_key_gen_perms need_key_gen_pin need_key_gen_token : State
  have_key_pair need_keyinfo reading_keyinfo need_keyinfo_read_pin need_keyinfo_read_token : State
  have_keyinfo need_csr generating_csr need_csr_gen_pin need_csr_gen_token have_csr : State
  need_scep_data generating_scep_data need_scep_gen_pin need_scep_gen_token : State
  need_scep_encryption_cert need_scep_rsa_client_key have_scep_data need_to_submit submitting :
      State
  need_ca ca_unreachable ca_unconfigured ca_rejected ca_working need_to_save_cert pre_save_cert :
      State
  start_saving_cert saving_cert need_certsave_perms need_certsave_token need_certsave_pin : State
  need_to_save_ca_certs start_saving_ca_certs saving_ca_certs need_ca_cert_save_perms : State
  need_to_save_only_ca_certs start_saving_only_ca_certs saving_only_ca_certs : State
  need_only_ca_cert_save_perms need_to_read_cert reading_cert saved_cert post_saved_cert : State
  monitoring need_to_notify_validity notifying_validity need_to_notify_rejection : State
  notifying_rejection need_to_notify_issued_save_failed notifying_issued_save_failed : State
  need_to_notify_issued_ca_save_failed notifying_issued_ca_save_failed : State
  need_to_notify_only_ca_save_failed notifying_only_ca_save_failed need_to_notify_issued_saved :
      State
  notifying_issued_saved need_guidance newly_added newly_added_start_reading_keyinfo : State
  newly_added_reading_keyinfo newly_added_need_keyinfo_read_pin : State
  newly_added_need_keyinfo_read_token newly_added_start_reading_cert newly_added_reading_cert :
      State
  newly_added_deciding invalid : State

pub data Phase : Type 0 where
  identify certs profiles default_profile enroll_reqs renew_reqs capabilities encryption_certs :
      Phase
  invalid : Phase

pub data CaState : Type 0 where
  idle need_to_refresh refreshing data_unreachable need_to_save_data pre_save_data : CaState
  start_saving_data saving_data need_post_save_data post_save_data saved_data need_to_analyze :
      CaState
  analyzing disabled : CaState

-- The value of a state's enumerator.
abbrev pub state_value : State → ℕ
state_value need_key_pair = 0
state_value generating_key_pair = 1
state_value need_key_gen_perms = 2
state_value need_key_gen_pin = 3
state_value need_key_gen_token = 4
state_value have_key_pair = 5
state_value need_keyinfo = 6
state_value reading_keyinfo = 7
state_value need_keyinfo_read_pin = 8
state_value need_keyinfo_read_token = 9
state_value have_keyinfo = 10
state_value need_csr = 11
state_value generating_csr = 12
state_value need_csr_gen_pin = 13
state_value need_csr_gen_token = 14
state_value have_csr = 15
state_value need_scep_data = 16
state_value generating_scep_data = 17
state_value need_scep_gen_pin = 18
state_value need_scep_gen_token = 19
state_value need_scep_encryption_cert = 20
state_value need_scep_rsa_client_key = 21
state_value have_scep_data = 22
state_value need_to_submit = 23
state_value submitting = 24
state_value need_ca = 25
state_value ca_unreachable = 26
state_value ca_unconfigured = 27
state_value ca_rejected = 28
state_value ca_working = 29
state_value need_to_save_cert = 30
state_value pre_save_cert = 31
state_value start_saving_cert = 32
state_value saving_cert = 33
state_value need_certsave_perms = 34
state_value need_certsave_token = 35
state_value need_certsave_pin = 36
state_value need_to_save_ca_certs = 37
state_value start_saving_ca_certs = 38
state_value saving_ca_certs = 39
state_value need_ca_cert_save_perms = 40
state_value need_to_save_only_ca_certs = 41
state_value start_saving_only_ca_certs = 42
state_value saving_only_ca_certs = 43
state_value need_only_ca_cert_save_perms = 44
state_value need_to_read_cert = 45
state_value reading_cert = 46
state_value saved_cert = 47
state_value post_saved_cert = 48
state_value monitoring = 49
state_value need_to_notify_validity = 50
state_value notifying_validity = 51
state_value need_to_notify_rejection = 52
state_value notifying_rejection = 53
state_value need_to_notify_issued_save_failed = 54
state_value notifying_issued_save_failed = 55
state_value need_to_notify_issued_ca_save_failed = 56
state_value notifying_issued_ca_save_failed = 57
state_value need_to_notify_only_ca_save_failed = 58
state_value notifying_only_ca_save_failed = 59
state_value need_to_notify_issued_saved = 60
state_value notifying_issued_saved = 61
state_value need_guidance = 62
state_value newly_added = 63
state_value newly_added_start_reading_keyinfo = 64
state_value newly_added_reading_keyinfo = 65
state_value newly_added_need_keyinfo_read_pin = 66
state_value newly_added_need_keyinfo_read_token = 67
state_value newly_added_start_reading_cert = 68
state_value newly_added_reading_cert = 69
state_value newly_added_deciding = 70
state_value State.invalid = 71

-- a == b
abbrev pub same_state : State → State → Bool
same_state a b = state_value a == state_value b

abbrev pub ca_state_value : CaState → ℕ
ca_state_value idle = 0
ca_state_value need_to_refresh = 1
ca_state_value refreshing = 2
ca_state_value data_unreachable = 3
ca_state_value need_to_save_data = 4
ca_state_value pre_save_data = 5
ca_state_value start_saving_data = 6
ca_state_value saving_data = 7
ca_state_value need_post_save_data = 8
ca_state_value post_save_data = 9
ca_state_value saved_data = 10
ca_state_value need_to_analyze = 11
ca_state_value analyzing = 12
ca_state_value disabled = 13

abbrev pub phase_value : Phase → ℕ
phase_value Phase.identify = 0
phase_value Phase.certs = 1
phase_value Phase.profiles = 2
phase_value Phase.default_profile = 3
phase_value Phase.enroll_reqs = 4
phase_value Phase.renew_reqs = 5
phase_value Phase.capabilities = 6
phase_value Phase.encryption_certs = 7
phase_value Phase.invalid = 8
