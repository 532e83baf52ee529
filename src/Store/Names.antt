-- ===== src/Store/Names.antt =====
-- src/store-gen.c: the names under which states and phases are written to files and read back.
pub mod RoundTrip
use certmonger.Prelude.{
  ℕ, ◌+◌, ◌==◌, ◌≡◌, refl, ap, Bool, ◌&&◌, Option, none, some, List, [], ◌∷◌, map, if◌then◌else◌,
  leb, String, Text, codes, text_eq,
}
use certmonger.Store.States.{
  State, CaState, Phase, state_value, ca_state_value, phase_value, need_key_pair,
  generating_key_pair, need_key_gen_perms, need_key_gen_pin, need_key_gen_token, have_key_pair,
  need_keyinfo, reading_keyinfo, need_keyinfo_read_pin, need_keyinfo_read_token, have_keyinfo,
  need_csr, generating_csr, need_csr_gen_pin, need_csr_gen_token, have_csr, need_scep_data,
  generating_scep_data, need_scep_gen_pin, need_scep_gen_token, need_scep_encryption_cert,
  need_scep_rsa_client_key, have_scep_data, need_to_submit, submitting, need_ca, ca_unreachable,
  ca_unconfigured, ca_rejected, ca_working, need_to_save_cert, pre_save_cert, start_saving_cert,
  saving_cert, need_certsave_perms, need_certsave_token, need_certsave_pin, need_to_read_cert,
  reading_cert, saved_cert, post_saved_cert, monitoring, need_to_notify_validity,
  notifying_validity, need_to_notify_rejection, notifying_rejection,
  need_to_notify_issued_save_failed, notifying_issued_save_failed,
  need_to_notify_issued_ca_save_failed, notifying_issued_ca_save_failed,
  need_to_notify_only_ca_save_failed, notifying_only_ca_save_failed, need_to_save_ca_certs,
  need_to_save_only_ca_certs, need_to_notify_issued_saved, notifying_issued_saved, need_guidance,
  newly_added, newly_added_start_reading_keyinfo, newly_added_reading_keyinfo,
  newly_added_need_keyinfo_read_pin, newly_added_need_keyinfo_read_token,
  newly_added_start_reading_cert, newly_added_reading_cert, newly_added_deciding,
  start_saving_ca_certs, saving_ca_certs, start_saving_only_ca_certs, saving_only_ca_certs,
  need_ca_cert_save_perms, need_only_ca_cert_save_perms, idle, need_to_refresh, refreshing,
  data_unreachable, need_to_save_data, pre_save_data, start_saving_data, saving_data,
  need_post_save_data, post_save_data, saved_data, need_to_analyze, analyzing, disabled,
}

-- The ASCII letters in lower case, as strcasecmp() compares them.
abbrev pub lower : Text → Text
lower t = map (λ c. if leb b'A' c && leb c b'Z' then c + 32 else c) t

-- A table of names and enumerators.
abbrev pub Table : Type 0
Table = List (String × ℕ)

-- cm_state_names
unfoldable pub state_names : Table
state_names =
    ("NEED_KEY_PAIR", state_value need_key_pair)
    ∷ ("GENERATING_KEY_PAIR", state_value generating_key_pair)
    ∷ ("NEED_KEY_GEN_PERMS", state_value need_key_gen_perms)
    ∷ ("NEED_KEY_GEN_PIN", state_value need_key_gen_pin)
    ∷ ("NEED_KEY_GEN_TOKEN", state_value need_key_gen_token)
    ∷ ("HAVE_KEY_PAIR", state_value have_key_pair)
    ∷ ("NEED_KEYINFO", state_value need_keyinfo)
    ∷ ("READING_KEYINFO", state_value reading_keyinfo)
    ∷ ("NEED_KEYINFO_READ_PIN", state_value need_keyinfo_read_pin)
    ∷ ("NEED_KEYINFO_READ_TOKEN", state_value need_keyinfo_read_token)
    ∷ ("HAVE_KEYINFO", state_value have_keyinfo)
    ∷ ("NEED_CSR", state_value need_csr)
    ∷ ("GENERATING_CSR", state_value generating_csr)
    ∷ ("NEED_CSR_GEN_PIN", state_value need_csr_gen_pin)
    ∷ ("NEED_CSR_GEN_TOKEN", state_value need_csr_gen_token)
    ∷ ("HAVE_CSR", state_value have_csr)
    ∷ ("NEED_SCEP_DATA", state_value need_scep_data)
    ∷ ("GENERATING_SCEP_DATA", state_value generating_scep_data)
    ∷ ("NEED_SCEP_GEN_PIN", state_value need_scep_gen_pin)
    ∷ ("NEED_SCEP_GEN_TOKEN", state_value need_scep_gen_token)
    ∷ ("NEED_SCEP_ENCRYPTION_CERT", state_value need_scep_encryption_cert)
    ∷ ("NEED_SCEP_RSA_CLIENT_KEY", state_value need_scep_rsa_client_key)
    ∷ ("HAVE_SCEP_DATA", state_value have_scep_data)
    ∷ ("NEED_TO_SUBMIT", state_value need_to_submit)
    ∷ ("SUBMITTING", state_value submitting)
    ∷ ("NEED_CA", state_value need_ca)
    ∷ ("CA_UNREACHABLE", state_value ca_unreachable)
    ∷ ("CA_UNCONFIGURED", state_value ca_unconfigured)
    ∷ ("CA_REJECTED", state_value ca_rejected)
    ∷ ("CA_WORKING", state_value ca_working)
    ∷ ("NEED_TO_SAVE_CERT", state_value need_to_save_cert)
    ∷ ("PRE_SAVE_CERT", state_value pre_save_cert)
    ∷ ("START_SAVING_CERT", state_value start_saving_cert)
    ∷ ("SAVING_CERT", state_value saving_cert)
    ∷ ("NEED_CERTSAVE_PERMS", state_value need_certsave_perms)
    ∷ ("NEED_CERTSAVE_TOKEN", state_value need_certsave_token)
    ∷ ("NEED_CERTSAVE_PIN", state_value need_certsave_pin)
    ∷ ("NEED_TO_READ_CERT", state_value need_to_read_cert)
    ∷ ("READING_CERT", state_value reading_cert)
    ∷ ("SAVED_CERT", state_value saved_cert)
    ∷ ("POST_SAVED_CERT", state_value post_saved_cert)
    ∷ ("MONITORING", state_value monitoring)
    ∷ ("NEED_TO_NOTIFY_VALIDITY", state_value need_to_notify_validity)
    ∷ ("NOTIFYING_VALIDITY", state_value notifying_validity)
    ∷ ("NEED_TO_NOTIFY_REJECTION", state_value need_to_notify_rejection)
    ∷ ("NOTIFYING_REJECTION", state_value notifying_rejection)
    ∷ ("NEED_TO_NOTIFY_ISSUED_SAVE_FAILED", state_value need_to_notify_issued_save_failed)
    ∷ ("NOTIFYING_ISSUED_SAVE_FAILED", state_value notifying_issued_save_failed)
    ∷ ("NEED_TO_NOTIFY_ISSUED_CA_SAVE_FAILED", state_value need_to_notify_issued_ca_save_failed)
    ∷ ("NOTIFYING_ISSUED_CA_SAVE_FAILED", state_value notifying_issued_ca_save_failed)
    ∷ ("NEED_TO_NOTIFY_ONLY_CA_SAVE_FAILED", state_value need_to_notify_only_ca_save_failed)
    ∷ ("NOTIFYING_ONLY_CA_SAVE_FAILED", state_value notifying_only_ca_save_failed)
    ∷ ("NEED_TO_SAVE_CA_CERTS", state_value need_to_save_ca_certs)
    ∷ ("NEED_TO_SAVE_ONLY_CA_CERTS", state_value need_to_save_only_ca_certs)
    ∷ ("NEED_TO_NOTIFY_ISSUED_SAVED", state_value need_to_notify_issued_saved)
    ∷ ("NOTIFYING_ISSUED_SAVED", state_value notifying_issued_saved)
    ∷ ("NEED_GUIDANCE", state_value need_guidance)
    ∷ ("NEWLY_ADDED", state_value newly_added)
    ∷ ("NEWLY_ADDED_START_READING_KEYINFO", state_value newly_added_start_reading_keyinfo)
    ∷ ("NEWLY_ADDED_READING_KEYINFO", state_value newly_added_reading_keyinfo)
    ∷ ("NEWLY_ADDED_NEED_KEYINFO_READ_PIN", state_value newly_added_need_keyinfo_read_pin)
    ∷ ("NEWLY_ADDED_NEED_KEYINFO_READ_TOKEN", state_value newly_added_need_keyinfo_read_token)
    ∷ ("NEWLY_ADDED_START_READING_CERT", state_value newly_added_start_reading_cert)
    ∷ ("NEWLY_ADDED_READING_CERT", state_value newly_added_reading_cert)
    ∷ ("NEWLY_ADDED_DECIDING", state_value newly_added_deciding)
    ∷ ("START_SAVING_CA_CERTS", state_value start_saving_ca_certs)
    ∷ ("SAVING_CA_CERTS", state_value saving_ca_certs)
    ∷ ("START_SAVING_ONLY_CA_CERTS", state_value start_saving_only_ca_certs)
    ∷ ("SAVING_ONLY_CA_CERTS", state_value saving_only_ca_certs)
    ∷ ("NEED_CA_CERT_SAVE_PERMS", state_value need_ca_cert_save_perms)
    ∷ ("NEED_ONLY_CA_CERT_SAVE_PERMS", state_value need_only_ca_cert_save_perms)
    ∷ ("INVALID", state_value State.invalid)
    ∷ ("NEED_TO_NOTIFY", state_value need_to_notify_validity)
    ∷ ("NOTIFYING", state_value notifying_validity)
    ∷ ("NEWLY_ADDED_START_READING_KEYI", state_value newly_added_start_reading_keyinfo)
    ∷ ("NEWLY_ADDED_READING_KEYI", state_value newly_added_reading_keyinfo)
    ∷ ("NEWLY_ADDED_NEED_KEYI_READ_PIN", state_value newly_added_need_keyinfo_read_pin)
    ∷ ("NEED_TO_NOTIFY_ISSUED_FAILED", state_value need_to_notify_issued_save_failed)
    ∷ ("NOTIFYING_ISSUED_FAILED", state_value notifying_issued_save_failed)
    ∷ []

-- cm_ca_state_names
unfoldable pub ca_state_names : Table
ca_state_names =
    ("IDLE", ca_state_value idle)
    ∷ ("NEED_TO_REFRESH", ca_state_value need_to_refresh)
    ∷ ("REFRESHING", ca_state_value refreshing)
    ∷ ("UNREACHABLE", ca_state_value data_unreachable)
    ∷ ("NEED_TO_SAVE_DATA", ca_state_value need_to_save_data)
    ∷ ("PRE_SAVE_DATA", ca_state_value pre_save_data)
    ∷ ("START_SAVING_DATA", ca_state_value start_saving_data)
    ∷ ("SAVING_DATA", ca_state_value saving_data)
    ∷ ("NEED_POST_SAVE_DATA", ca_state_value need_post_save_data)
    ∷ ("POST_SAVE_DATA", ca_state_value post_save_data)
    ∷ ("SAVED_DATA", ca_state_value saved_data)
    ∷ ("NEED_TO_ANALYZE", ca_state_value need_to_analyze)
    ∷ ("ANALYZING", ca_state_value analyzing)
    ∷ ("DISABLED", ca_state_value disabled)
    ∷ []

-- cm_ca_phase_names
unfoldable pub ca_phase_names : Table
ca_phase_names =
    ("identify", phase_value Phase.identify)
    ∷ ("certs", phase_value Phase.certs)
    ∷ ("profiles", phase_value Phase.profiles)
    ∷ ("default_profile", phase_value Phase.default_profile)
    ∷ ("enrollment_reqs", phase_value Phase.enroll_reqs)
    ∷ ("renewal_reqs", phase_value Phase.renew_reqs)
    ∷ ("capabilities", phase_value Phase.capabilities)
    ∷ ("encryption_certs", phase_value Phase.encryption_certs)
    ∷ ("invalid", phase_value Phase.invalid)
    ∷ []

-- The loops over a table: the first name of a value, and the first value of a name.
unfoldable pub name_of : Text → ℕ → Table → Text
name_of unknown v [] = unknown
name_of unknown v ((n, x) ∷ names) = if x == v then codes n else name_of unknown v names

unfoldable pub value_of : Text → Table → Option ℕ
value_of name [] = none
value_of name ((n, x) ∷ names) =
    if text_eq (lower (codes n)) (lower name) then some x else value_of name names

-- `cm_store_state_as_string`, `cm_store_ca_state_as_string` and `cm_store_ca_phase_as_string`
unfoldable pub state_as_string : ℕ → Text
unfolding name_of state_names
state_as_string v = name_of (codes "UNKNOWN") v state_names

unfoldable pub ca_state_as_string : ℕ → Text
unfolding name_of ca_state_names
ca_state_as_string v = name_of (codes "UNKNOWN") v ca_state_names

unfoldable pub ca_phase_as_string : ℕ → Text
unfolding name_of ca_phase_names
ca_phase_as_string v = name_of (codes "invalid") v ca_phase_names

-- What is not a name may be a number, by strtoul() if it reads the whole of a text that is not empty.
module _ (number : Text → Option ℕ) where
  unfoldable pub or_number : ℕ → Text → Option ℕ → ℕ
  or_number default name (some v) = v
  or_number default name none = elim (number name) [ some v ↦ v | none ↦ default ]

  -- `cm_store_state_from_string`, `cm_store_ca_state_from_string` and
  -- `cm_store_ca_phase_from_string`
  unfoldable pub state_from_string : Text → ℕ
  state_from_string name = or_number (state_value State.invalid) name (value_of name state_names)

  unfoldable pub ca_state_from_string : Text → ℕ
  ca_state_from_string name =
      or_number (ca_state_value disabled) name (value_of name ca_state_names)

  unfoldable pub ca_phase_from_string : Text → ℕ
  ca_phase_from_string name =
      or_number (phase_value Phase.invalid) name (value_of name ca_phase_names)
