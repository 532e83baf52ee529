-- ===== src/Iterate/Entry/Added.antt =====
-- src/iterate.c, `cm_iterate_entry`: the cases that look around for a newly added entry and decide
-- what it needs.
use certmonger.Prelude.{
  ℕ, Bool, true, false, ◌&&◌, ◌||◌, Option, none, some, List, [], ◌∷◌, if◌then◌else◌, ltb, any,
  is_some, Text, text_eq,
}
use certmonger.Store.{
  Details, Subject, Ca, KeyStorage, State, newly_added_start_reading_keyinfo,
  newly_added_start_reading_cert, newly_added_reading_keyinfo, newly_added_reading_cert,
  newly_added_need_keyinfo_read_token, newly_added_need_keyinfo_read_pin, newly_added_deciding,
  need_to_save_only_ca_certs, monitoring, need_csr, need_key_pair, need_guidance,
}
use certmonger.Iterate.Machine.{
  World, When, M, ◌>>=◌, ◌>>◌, goto, revisit, get_details, set_details, keyiread, certread,
  keyiread_start, keyiread_ready, keyiread_finished_reading, keyiread_need_token, keyiread_need_pin,
  certread_start, certread_ready,
}
use certmonger.Iterate.Steps.{launch, poll, when, settle, take_lock, release_lock}

-- entry->cm_key_storage_type != cm_key_storage_none
unfoldable pub has_key_storage : KeyStorage → Bool
has_key_storage KeyStorage.none = false
has_key_storage KeyStorage.file = true
has_key_storage KeyStorage.nssdb = true

-- Whether one of the CA's known names is the issuer's.
unfoldable pub is_issuer : Text → Ca → Bool
is_issuer issuer ca = elim ca.known_issuer_names [
  | none ↦ false
  | some names ↦ any (λ n. text_eq n issuer) names
]

-- The loops over the CAs that assign a nickname: the last CA that fits wins.
unfoldable pub last_fit : (Ca → Bool) → Option Text → List Ca → Option Text
last_fit fits nickname [] = nickname
last_fit fits nickname (ca ∷ cas) = last_fit fits (if fits ca then ca.nickname else nickname) cas

abbrev pub known_ca : Details → List Ca → Option Text
known_ca d cas =
    if is_some d.ca_nickname
    then d.ca_nickname
    else elim d.cert_issuer [ none ↦ none | some issuer ↦ last_fit (is_issuer issuer) none cas ]

-- Assigning a CA to an entry that has none: by the issuer of its certificate, by the default among
-- the CAs, by the configuration.
unfoldable pub choose_ca : Option Text → List Ca → Details → Option Text
unfolding last_fit is_issuer
choose_ca default cas d =
    let known = known_ca d cas in
    let marked = last_fit (λ ca. ca.is_default) none cas in
    if is_some known then known else (if is_some marked then marked else default)

-- `cm_store_set_if_not_set_s`
unfoldable pub set_if_not_set_s : Option Text → Option Text → Option Text
set_if_not_set_s (some dest) src = some dest
set_if_not_set_s none none = none
set_if_not_set_s none (some []) = none
set_if_not_set_s none (some (c ∷ cs)) = some (c ∷ cs)

-- `cm_store_set_if_not_set_as`
unfoldable pub set_if_not_set_as : Option (List Text) → Option (List Text) → Option (List Text)
set_if_not_set_as (some dest) src = some dest
set_if_not_set_as none none = none
set_if_not_set_as none (some []) = none
set_if_not_set_as none (some (t ∷ ts)) = some (t ∷ ts)

-- What was not asked for is taken from the certificate.
unfoldable pub import_names : Subject → Subject → Subject
unfolding set_if_not_set_s set_if_not_set_as
import_names t c = record {
  subject_der = set_if_not_set_s t.subject_der c.subject_der;
  subject = set_if_not_set_s t.subject c.subject;
  hostname = set_if_not_set_as t.hostname c.hostname;
  email = set_if_not_set_as t.email c.email;
  principal = set_if_not_set_as t.principal c.principal;
  ipaddress = set_if_not_set_as t.ipaddress c.ipaddress;
  ku = set_if_not_set_s t.ku c.ku;
  eku = set_if_not_set_s t.eku c.eku;
  ns_comment = set_if_not_set_s t.ns_comment c.ns_comment;
  profile = set_if_not_set_s t.profile c.profile;
  ns_certtype = set_if_not_set_s t.ns_certtype c.ns_certtype;
}

abbrev same_nickname : Option Text → Option Text → Bool
same_nickname none b = false
same_nickname (some a) none = false
same_nickname (some a) (some b) = text_eq b a

-- The first CA of the entry's nickname.
unfoldable pub find_ca : Option Text → List Ca → Option Ca
find_ca nickname [] = none
find_ca nickname (ca ∷ cas) =
    if same_nickname ca.nickname nickname then some ca else find_ca nickname cas

-- Whether certificates of the CA are known and wanted somewhere.
unfoldable pub wants_ca_certs : Option Ca → Details → Bool
wants_ca_certs none d = false
wants_ca_certs (some ca) d =
    (is_some ca.root_certs && (is_some d.root_cert_store_files || is_some d.root_cert_store_nssdbs))
    || ((is_some ca.other_root_certs
          && (is_some d.other_root_cert_store_files || is_some d.other_root_cert_store_nssdbs))
        || (is_some ca.other_certs
            && (is_some d.other_cert_store_files || is_some d.other_cert_store_nssdbs)))

-- The state that a newly added entry goes on to.
unfoldable pub decide_state : List Ca → Details → State
decide_state cas d =
    if is_some d.cert
    then (if wants_ca_certs (find_ca d.ca_nickname cas) d
        then need_to_save_only_ca_certs
        else monitoring)
    else (if has_key_storage d.key_storage
        then (if ltb 0 d.key_size then need_csr else need_key_pair)
        else need_guidance)

abbrev pub adopt : Option Text → List Ca → Details → Details
adopt default cas d =
    let d' = record d { ca_nickname = choose_ca default cas d } in
    if is_some d.cert then record d' { template = import_names d.template d.cert_subject } else d'

module _ (w : World) (e : ℕ) where
  -- CM_NEWLY_ADDED
  unfoldable pub on_newly_added : M (Unit {0})
  on_newly_added = take_lock e do
    d ← get_details
    goto (
        if has_key_storage d.key_storage
        then newly_added_start_reading_keyinfo
        else newly_added_start_reading_cert)
    revisit When.now

  -- CM_NEWLY_ADDED_READING_KEYINFO
  unfoldable pub on_newly_added_reading_keyinfo : M (Unit {0})
  on_newly_added_reading_keyinfo = poll w keyiread keyiread_ready (
      when w keyiread keyiread_finished_reading
        (settle w keyiread newly_added_start_reading_cert When.now)
        (when w keyiread keyiread_need_token
          (release_lock e (settle w keyiread newly_added_need_keyinfo_read_token When.now))
          (when w keyiread keyiread_need_pin
            (release_lock e (settle w keyiread newly_added_need_keyinfo_read_pin When.now))
            (settle w keyiread newly_added_start_reading_cert When.now))))

  -- CM_NEWLY_ADDED_DECIDING
  unfoldable pub on_newly_added_deciding : M (Unit {0})
  on_newly_added_deciding = release_lock e do
    set_details (adopt w.default_ca w.cas)
    d ← get_details
    goto (decide_state w.cas d)
    revisit When.now

module _ (w : World) where
  -- CM_NEWLY_ADDED_START_READING_KEYINFO
  unfoldable pub on_newly_added_start_reading_keyinfo : M (Unit {0})
  on_newly_added_start_reading_keyinfo =
      launch w keyiread keyiread_start newly_added_reading_keyinfo

  -- CM_NEWLY_ADDED_START_READING_CERT
  unfoldable pub on_newly_added_start_reading_cert : M (Unit {0})
  on_newly_added_start_reading_cert = launch w certread certread_start newly_added_reading_cert

  -- CM_NEWLY_ADDED_READING_CERT
  unfoldable pub on_newly_added_reading_cert : M (Unit {0})
  on_newly_added_reading_cert =
      poll w certread certread_ready (settle w certread newly_added_deciding When.now)
