-- ===== src/Scenarios.antt =====
-- Entries, helpers and systems of entries in concrete situations of src/iterate.c.
mod Witnesses
mod JsonWitnesses
mod EncodingWitnesses
mod CaWitnesses
mod MainWitnesses
use mathlib.Core.List.{Memᴰ}
use Prim.Native.Nat.{max}
use certmonger.Prelude.{
  ℕ, ◌+◌, ◌-◌, ◌≤ℤ◌, ◌↔◌, ◌≡◌, refl, ◌⊎◌, inl, inr, Bool, true, false, none, some, List, [], ◌∷◌,
  pos, negsuc, Text, codes, arith,
}
use certmonger.Store.{
  submitting, same_state, state_value, ca_state_value, phase_value, data_unreachable, Phase,
  need_to_notify_validity, need_csr, saving_cert, State, KeyStorage, Subject, Details, Ca,
  need_key_pair, monitoring, reading_cert, need_guidance, notifying_issued_save_failed,
  generating_key_pair, external,
}
use certmonger.Iterate.Lock.{
  Lock, free_lock, lock_by_entry, is_free, entry_holder, is_held_by, same_holder, same_phase,
}
use certmonger.Iterate.Machine.{
  submit, Effect, emitted_changes, saved_entry, World, Machine, Tasks, When, soon, no_tasks, Call,
  certread_finished_reading, set_running, keygen, certread, notify,
}
use certmonger.Iterate.Safety.Invariant.{Ensures, Inv, tasks_for, holds, phase_fits}
use certmonger.Iterate.Safety.Rules.{Sure}
use certmonger.Iterate.Safety.Outcome.{Post}
use certmonger.Iterate.Safety.Passes.{iterate-Post}
use certmonger.Iterate.Safety.Storage.{
  passes, iterate-writes_out, unread_keeps_lock, saves_unlocked,
}
use certmonger.Iterate.Safety.Renewal.{near_end_leaves_monitoring}
use certmonger.Iterate.Safety.Lifecycle.{
  is_resting, Rested, leftovers, reset_state-rests, init-Rested, done-Rested,
}
use certmonger.Iterate.Safety.System.{System, Sound, Step, Steps, put, Step-Sound, mutual_exclusion}
use certmonger.Iterate.Entry.{iterate, init, done, begin, conclude, dispatch}
use certmonger.Iterate.Entry.Keys.{on_need_key_pair}
use certmonger.Iterate.Entry.Reset.{reset_state}
use certmonger.Iterate.Steps.{take_lock}
use certmonger.Iterate.Delay.{
  decide_ca_delay, decide_monitor_delay, delay_soon, delay_ca_poll_minimum, delay_ca_poll_maximum,
  delay_monitor_poll_minimum, delay_monitor_poll_maximum,
}
use certmonger.Iterate.Delay.Bounds.{
  decide_ca_delay_bounds, decide_monitor_delay_bounds, monitor_delay_wakes,
}
use certmonger.Iterate.Expiry.{check_noteworthy}
use certmonger.Iterate.Expiry.Crossings.{Noteworthy}
use certmonger.Store.Serial.{increment_serial}
use certmonger.Store.Serial.Value.{value, is_low, increment_serial-value}
use certmonger.Store.Names.{
  state_from_string, ca_state_from_string, ca_phase_from_string, state_as_string,
  ca_state_as_string, ca_phase_as_string, name_of, state_names, ca_state_names, ca_phase_names,
}
use certmonger.Store.Names.RoundTrip.{
  state_from_string-state_as_string, ca_state_from_string-ca_state_as_string,
  ca_phase_from_string-ca_phase_as_string,
}

abbrev pub no_subject : Subject
no_subject = record {
  subject_der = none;
  subject = none;
  hostname = none;
  email = none;
  principal = none;
  ipaddress = none;
  ku = none;
  eku = none;
  ns_comment = none;
  profile = none;
  ns_certtype = none;
}

-- An entry whose certificate ends at the time 9000, as of the time 5000.
abbrev pub details_1 : Details
details_1 = record {
  key_storage = KeyStorage.file;
  key_size = 2048;
  key_generated_date = 10;
  key_issued_count = 1;
  cert_issuer = some (codes "CN=A");
  cert_not_before = 100;
  cert_not_after = 9000;
  cert_subject = no_subject;
  last_need_notify_check = 5000;
  last_need_enroll_check = 5000;
  template = no_subject;
  scep_nonce = none;
  scep_last_nonce = none;
  autorenew = true;
  monitor = true;
  ca_nickname = none;
  submitted = 0;
  ca_cookie = none;
  cert = some (codes "PEM");
  root_cert_store_files = none;
  other_root_cert_store_files = none;
  other_cert_store_files = none;
  root_cert_store_nssdbs = none;
  other_root_cert_store_nssdbs = none;
  other_cert_store_nssdbs = none;
}

-- Every helper can be started, is ready and has succeeded, but a certificate cannot be read.
abbrev pub answers : Call → Bool
answers certread_finished_reading = false
answers _ = true

abbrev pub world_1 : World
world_1 = record {
  answer = λ c d. (answers c, d);
  done = λ tool d. d;
  fd = λ tool. none;
  specified_delay = negsuc 0;
  now = 7000;
  now_submitted = 7000;
  now_notify = 7000;
  now_enroll = 7000;
  now_rekey = 7000;
  notify_ttls = none;
  enroll_ttls = some (3000 ∷ []);
  key_end_of_life = λ at. none;
  max_key_use_count = negsuc 0;
  default_ca = none;
  cas = [];
}

abbrev pub lock_1 : Lock
lock_1 = record { holder = some (entry_holder 1); phase = Phase.invalid }

-- An entry in a state, with the helper that goes with it.
abbrev pub machine_1 : Lock → State → Tasks → Machine
machine_1 l st t = record {
  lock = l;
  state = st;
  details = details_1;
  tasks = t;
  ca = none;
  when = When.now;
  delay = pos 0;
  readfd = none;
  effects = [];
}

abbrev pub idle_entry : State → Machine
idle_entry st = machine_1 (record { holder = none; phase = Phase.invalid }) st no_tasks

pub reading-Inv : Inv 1 (machine_1 lock_1 reading_cert (set_running certread true no_tasks))
unfolding phase_fits tasks_for is_held_by same_holder same_phase no_tasks
reading-Inv = record { valid = refl; lock_sound = refl; lock_fits = refl; tasks_exact = refl }

pub generating-Inv : Inv 1 (machine_1 lock_1 generating_key_pair (set_running keygen true no_tasks))
unfolding phase_fits tasks_for is_held_by same_holder same_phase no_tasks
generating-Inv = record { valid = refl; lock_sound = refl; lock_fits = refl; tasks_exact = refl }

pub notifying-Inv :
    Inv 1 (machine_1 free_lock notifying_issued_save_failed (set_running notify true no_tasks))
unfolding phase_fits tasks_for is_held_by same_holder same_phase no_tasks free_lock
notifying-Inv = record { valid = refl; lock_sound = refl; lock_fits = refl; tasks_exact = refl }

abbrev pub ca_1 : Ca
ca_1 = record {
  nickname = some (codes "local");
  known_issuer_names = some (codes "CN=A" ∷ []);
  is_default = false;
  type = external;
  internal_serial = none;
  root_certs = none;
  other_root_certs = none;
  other_certs = none;
  capabilities = none;
  encryption_cert = none;
  encryption_issuer_cert = none;
  encryption_cert_pool = none;
}

-- All entries need a key; the first one gets to make it.
abbrev pub system_1 : System
system_1 = record {
  lock = record { holder = none; phase = Phase.invalid };
  entries = λ e. idle_entry need_key_pair;
}

pub system_1-Sound : Sound system_1
unfolding phase_fits tasks_for is_held_by same_phase no_tasks
system_1-Sound e = record { valid = refl; lock_sound = refl; lock_fits = refl; tasks_exact = refl }

abbrev pub making : Machine
making = record (machine_1 lock_1 generating_key_pair (set_running keygen true no_tasks)) {
  when = soon;
  effects = emitted_changes ∷ saved_entry ∷ [];
}

pub system_1-Step : Step system_1 (put system_1 1 making)
unfolding iterate begin conclude dispatch on_need_key_pair take_lock lock_by_entry is_held_by
    is_free no_tasks
system_1-Step = Step.pass system_1 world_1 1 making refl

pub submitting-Inv : Inv 1 (machine_1 free_lock submitting (set_running submit true no_tasks))
unfolding phase_fits tasks_for is_held_by same_holder same_phase no_tasks free_lock
submitting-Inv = record { valid = refl; lock_sound = refl; lock_fits = refl; tasks_exact = refl }
