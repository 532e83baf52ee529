-- ===== src/Iterate/Lock.antt =====
-- src/iterate.c: the lock that serialises access to key and certificate storage, `writing_lock` and
-- `writing_lock_ca_phase`. A `void *` to an entry or a CA is its constructor with an address.
use certmonger.Prelude.{ℕ, ◌==◌, Bool, true, false, ◌&&◌, ◌||◌, Option, none, some, if◌then◌else◌}
use certmonger.Store.{Phase}

-- abort(), a read through a pointer that is NULL, or one through a pointer whose object was freed.
pub data Fault : Type 0 where
  aborted null_pointer freed_pointer : Fault

-- What a call comes to.
pub data Outcome {ℓ} (A : Type ℓ) : Type ℓ where
  ok : A → Outcome A
  fault : Fault → Outcome A

pub data Holder : Type 0 where
  entry_holder ca_holder : ℕ → Holder

pub record Lock : Type 0 where
  pub holder : Option Holder
  pub phase : Phase

-- The static initialisers.
unfoldable pub free_lock : Lock
free_lock = record { holder = none; phase = Phase.invalid }

unfoldable pub same_holder : Holder → Holder → Bool
same_holder (entry_holder a) (entry_holder b) = a == b
same_holder (entry_holder a) (ca_holder b) = false
same_holder (ca_holder a) (entry_holder b) = false
same_holder (ca_holder a) (ca_holder b) = a == b

unfoldable pub same_phase : Phase → Phase → Bool
same_phase Phase.identify Phase.identify = true
same_phase Phase.certs Phase.certs = true
same_phase Phase.profiles Phase.profiles = true
same_phase Phase.default_profile Phase.default_profile = true
same_phase Phase.enroll_reqs Phase.enroll_reqs = true
same_phase Phase.renew_reqs Phase.renew_reqs = true
same_phase Phase.capabilities Phase.capabilities = true
same_phase Phase.encryption_certs Phase.encryption_certs = true
same_phase Phase.invalid Phase.invalid = true
same_phase _ _ = false

-- writing_lock == h
unfoldable pub is_held_by : Option Holder → Holder → Bool
unfolding same_holder
is_held_by none h = false
is_held_by (some g) h = same_holder g h

-- writing_lock == NULL
unfoldable pub is_free : Option Holder → Bool
is_free none = true
is_free (some h) = false

-- `cm_writing_has_lock`
unfoldable pub has_lock : Holder → Phase → Lock → Bool
unfolding is_held_by same_phase
has_lock h p l = is_held_by l.holder h && (same_phase l.phase Phase.invalid || same_phase l.phase p)

-- `cm_writing_lock_by_entry`: taking a lock that one holds already is an abort.
unfoldable pub lock_by_entry : ℕ → Lock → Outcome (Bool × Lock)
unfolding is_held_by is_free
lock_by_entry e l =
    if is_held_by l.holder (entry_holder e) || is_free l.holder
    then (if is_free l.holder
        then ok (true, record l { holder = some (entry_holder e) })
        else fault aborted)
    else ok (false, l)

-- `cm_writing_unlock_by_entry`: releasing a free lock is an abort.
unfoldable pub unlock_by_entry : ℕ → Lock → Outcome (Bool × Lock)
unfolding is_held_by is_free
unlock_by_entry e l =
    if is_held_by l.holder (entry_holder e) || is_free l.holder
    then (if is_held_by l.holder (entry_holder e)
        then ok (true, record l { holder = none })
        else fault aborted)
    else ok (false, l)

-- `cm_writing_lock_by_ca`
unfoldable pub lock_by_ca : ℕ → Phase → Lock → Outcome (Bool × Lock)
unfolding is_held_by is_free same_phase
lock_by_ca c p l =
    if is_held_by l.holder (ca_holder c) && same_phase l.phase p || is_free l.holder
    then (if is_free l.holder
        then (if same_phase p Phase.invalid
            then fault aborted
            else ok (true, record { holder = some (ca_holder c); phase = p }))
        else fault aborted)
    else ok (false, l)

-- `cm_writing_unlock_by_ca`
unfoldable pub unlock_by_ca : ℕ → Phase → Lock → Outcome (Bool × Lock)
unfolding is_held_by is_free same_phase
unlock_by_ca c p l =
    if is_held_by l.holder (ca_holder c) && same_phase l.phase p || is_free l.holder
    then (if is_held_by l.holder (ca_holder c)
        then ok (true, record { holder = none; phase = Phase.invalid })
        else fault aborted)
    else ok (false, l)
