-- ===== src/Iterate/Safety/Invariant.antt =====
-- The well-formedness of an entry between two passes of src/iterate.c: whose the writing lock is, and
-- which helper is at work, by the entry's state.
use certmonger.Prelude.{ℕ, Bool, true, false, not, Option, none, some, ◌≡◌}
use certmonger.Store.{
  State, Phase, generating_key_pair, reading_keyinfo, generating_csr, generating_scep_data,
  submitting, pre_save_cert, start_saving_cert, saving_cert, need_certsave_perms,
  need_certsave_token, need_certsave_pin, need_to_save_ca_certs, start_saving_ca_certs,
  saving_ca_certs, need_ca_cert_save_perms, need_to_save_only_ca_certs, start_saving_only_ca_certs,
  saving_only_ca_certs, need_to_read_cert, reading_cert, saved_cert, post_saved_cert,
  notifying_validity, notifying_rejection, need_to_notify_issued_save_failed,
  notifying_issued_save_failed, need_to_notify_issued_ca_save_failed,
  notifying_issued_ca_save_failed, need_to_notify_only_ca_save_failed,
  notifying_only_ca_save_failed, need_to_notify_issued_saved, notifying_issued_saved, need_guidance,
  newly_added_start_reading_keyinfo, newly_added_reading_keyinfo, newly_added_start_reading_cert,
  newly_added_reading_cert, newly_added_deciding,
}
use certmonger.Iterate.Lock.{
  Lock, Holder, entry_holder, ca_holder, Outcome, ok, fault, same_phase, is_held_by,
}
use certmonger.Iterate.Machine.{
  Tool, keygen, keyiread, csrgen, scepgen, submit, certsave, hook, certread, notify, casave, Tasks,
  no_tasks, set_running, Machine,
}

-- A phase goes with the lock exactly while a CA holds it.
unfoldable pub phase_fits : Option Holder → Phase → Bool
unfolding same_phase
phase_fits none p = same_phase p Phase.invalid
phase_fits (some (entry_holder e)) p = same_phase p Phase.invalid
phase_fits (some (ca_holder c)) p = not (same_phase p Phase.invalid)

pub data Need : Type 0 where
  held not_held either : Need

-- What a state says of the lock.
abbrev pub lock_need : State → Need
lock_need generating_key_pair = held
lock_need pre_save_cert = held
lock_need start_saving_ca_certs = held
lock_need saving_ca_certs = held
lock_need need_ca_cert_save_perms = held
lock_need reading_cert = held
lock_need post_saved_cert = held
lock_need start_saving_only_ca_certs = held
lock_need saving_only_ca_certs = held
lock_need newly_added_start_reading_keyinfo = held
lock_need newly_added_reading_keyinfo = held
lock_need newly_added_start_reading_cert = held
lock_need newly_added_reading_cert = held
lock_need newly_added_deciding = held
lock_need start_saving_cert = either
lock_need saving_cert = either
lock_need saved_cert = either
lock_need need_certsave_perms = either
lock_need need_certsave_token = either
lock_need need_certsave_pin = either
lock_need need_to_save_ca_certs = either
lock_need need_to_read_cert = either
lock_need need_to_notify_issued_saved = either
lock_need need_to_notify_issued_save_failed = either
lock_need need_to_notify_issued_ca_save_failed = either
lock_need need_to_notify_only_ca_save_failed = either
lock_need need_to_save_only_ca_certs = either
lock_need need_guidance = either
lock_need _ = not_held

abbrev pub need_met : Need → Bool → Bool
need_met held b = b
need_met not_held b = not b
need_met either b = true

-- The helper that is at work in a state.
abbrev pub tool_of : State → Option Tool
tool_of generating_key_pair = some keygen
tool_of reading_keyinfo = some keyiread
tool_of generating_csr = some csrgen
tool_of generating_scep_data = some scepgen
tool_of submitting = some submit
tool_of pre_save_cert = some hook
tool_of saving_cert = some certsave
tool_of saving_ca_certs = some casave
tool_of saving_only_ca_certs = some casave
tool_of reading_cert = some certread
tool_of post_saved_cert = some hook
tool_of notifying_validity = some notify
tool_of notifying_rejection = some notify
tool_of notifying_issued_save_failed = some notify
tool_of notifying_issued_ca_save_failed = some notify
tool_of notifying_only_ca_save_failed = some notify
tool_of notifying_issued_saved = some notify
tool_of newly_added_reading_keyinfo = some keyiread
tool_of newly_added_reading_cert = some certread
tool_of _ = none

unfoldable pub tasks_for : Option Tool → Tasks
unfolding no_tasks
tasks_for none = no_tasks
tasks_for (some tool) = set_running tool true no_tasks

-- Whether an entry is the lock's holder.
abbrev pub holds : ℕ → Lock → Bool
holds e l = is_held_by l.holder (entry_holder e)

abbrev pub is_valid : State → Bool
is_valid State.invalid = false
is_valid _ = true

-- Between two passes over the entry at `e`.
pub record Inv (e : ℕ) (s : Machine) : Type 0 where
  pub valid : is_valid s.state ≡ true
  pub lock_sound : phase_fits s.lock.holder s.lock.phase ≡ true
  pub lock_fits : need_met (lock_need s.state) (holds e s.lock) ≡ true
  pub tasks_exact : s.tasks ≡ tasks_for (tool_of s.state)

-- A call returns, and what it leaves satisfies `P`.
abbrev pub Ensures : {A : Type 0} → (A → Type 0) → Outcome A → Type 0
Ensures P (ok a) = P a
Ensures P (fault f) = ⊥
