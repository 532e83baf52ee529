-- ===== src/Store.antt =====
-- The data model of src/store-int.h, as far as the state machines of src/iterate.c read and write
-- it, and the generic routines of src/store-gen.c.
pub mod Encoding
pub mod States
pub mod Serial
pub mod Names
use certmonger.Prelude.{ℕ, Bool, Option, List, Text}
pub use States.*

-- `enum cm_key_storage_type`
pub data KeyStorage : Type 0 where
  none file nssdb : KeyStorage

-- The naming fields that a certificate (`cm_cert_*`) and the template of a request (`cm_template_*`)
-- have in common.
pub record Subject : Type 0 where
  pub subject_der : Option Text
  pub subject : Option Text
  pub hostname : Option (List Text)
  pub email : Option (List Text)
  pub principal : Option (List Text)
  pub ipaddress : Option (List Text)
  pub ku : Option Text
  pub eku : Option Text
  pub ns_comment : Option Text
  pub profile : Option Text
  pub ns_certtype : Option Text

-- `struct cm_store_entry` but for `cm_state`. A pointer is an option, and a `time_t` a number.
pub record Details : Type 0 where
  pub key_storage : KeyStorage
  pub key_size : ℕ
  pub key_generated_date : ℕ
  pub key_issued_count : ℕ
  pub cert_issuer : Option Text
  pub cert_not_before : ℕ
  pub cert_not_after : ℕ
  pub cert_subject : Subject
  pub last_need_notify_check : ℕ
  pub last_need_enroll_check : ℕ
  pub template : Subject
  pub scep_nonce : Option Text
  pub scep_last_nonce : Option Text
  pub autorenew : Bool
  pub monitor : Bool
  pub ca_nickname : Option Text
  pub submitted : ℕ
  pub ca_cookie : Option Text
  pub cert : Option Text
  pub root_cert_store_files : Option (List Text)
  pub other_root_cert_store_files : Option (List Text)
  pub other_cert_store_files : Option (List Text)
  pub root_cert_store_nssdbs : Option (List Text)
  pub other_root_cert_store_nssdbs : Option (List Text)
  pub other_cert_store_nssdbs : Option (List Text)

-- `enum cm_ca_type`
pub data CaType : Type 0 where
  internal_self external : CaType

-- `struct cm_store_ca` but for `cm_ca_state`; the lists of certificates by their PEM texts.
pub record Ca : Type 0 where
  pub nickname : Option Text
  pub known_issuer_names : Option (List Text)
  pub is_default : Bool
  pub type : CaType
  pub internal_serial : Option Text
  pub root_certs : Option (List Text)
  pub other_root_certs : Option (List Text)
  pub other_certs : Option (List Text)
  pub capabilities : Option (List Text)
  pub encryption_cert : Option Text
  pub encryption_issuer_cert : Option Text
  pub encryption_cert_pool : Option Text
