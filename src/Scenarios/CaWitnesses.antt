-- ===== src/Scenarios/CaWitnesses.antt =====
-- Concrete runs of `cm_iterate_ca` of src/iterate.c, which also show that the theorems' conditions can
-- be met.
use certmonger.Prelude.{◌≡◌, refl, true, false, none, some, inl, inr, [], ◌∷◌, pos, Bool}
use certmonger.Store.{
  CaState, need_guidance, need_key_pair, certs, need_to_save_data, pre_save_data, saving_data,
  need_to_refresh, disabled,
}
use certmonger.Iterate.Lock.{
  Lock, fault, null_pointer, free_lock, ca_holder, same_phase, is_held_by, same_holder, is_free,
  lock_by_ca,
}
use certmonger.Iterate.Machine.{no_time, soon, emitted_changes, Machine, no_tasks}
use certmonger.Iterate.Ca.{iterate_ca, ca_begin, ca_dispatch, ca_conclude, ca_done}
use certmonger.Iterate.Ca.Machine.{
  CaWorld, CaMachine, CaTasks, CaCall, cadata_start, no_ca_tasks, cert_analyze, ca_hook, ca_save,
  set_pointer, live, freed, stored_ca, emitted_ca_changes, ca_launch_or_skip,
}
use certmonger.Iterate.Ca.Phases.{on_need_to_save_data}
use certmonger.Iterate.Safety.Invariant.{phase_fits}
use certmonger.Iterate.Ca.Safety.{CaInv, ca_tasks_for, dangling}
use certmonger.Iterate.Ca.Safety.Passes.{CaEnds, iterate_ca-CaEnds, iterate_ca-null_pointer}
use certmonger.Iterate.Ca.Safety.Lifecycle.{CaEnded, ca_done-CaEnded}
use certmonger.Iterate.Safety.Daemon.{
  Daemon, DaemonStep, DaemonSteps, AllSound, User, has_storage, put_phase,
}
use certmonger.Iterate.Safety.Daemon.Exclusion.{phase-AllSound, one_user_at_a_time}
use certmonger.Iterate.Safety.System.{put}
use certmonger.Scenarios.{ca_1, system_1, system_1-Sound, machine_1, lock_1}

-- Helpers that can be started when `works`, and are never ready.
abbrev ca_answers : Bool → CaCall → Bool
ca_answers works (cadata_start p) = works
ca_answers works CaCall.ca_hook_start_presave = works
ca_answers works _ = false

abbrev ca_world : Bool → CaWorld
ca_world works = record {
  ca_answer = λ call ca. (ca_answers works call, ca);
  ca_fd = λ tool. some 12;
  ca_specified_delay = pos 60;
  analyze_delay = pos 0;
  listens = true;
}

abbrev ca_machine : Lock → CaState → CaTasks → CaMachine
ca_machine l st t = record {
  lock = l;
  state = st;
  ca = ca_1;
  tasks = t;
  when = none;
  delay = none;
  readfd = none;
  effects = [];
}

abbrev lock_7 : Lock
lock_7 = record { holder = some (ca_holder 7); phase = certs }

abbrev saving : CaMachine
saving = ca_machine lock_7 saving_data (set_pointer ca_save live no_ca_tasks)

saving-CaInv : CaInv 7 certs saving
unfolding ca_tasks_for phase_fits same_phase is_held_by same_holder no_ca_tasks
saving-CaInv = record {
  proper = refl;
  lock_sound = refl;
  lock_exact = refl;
  tasks_fit = inl refl;
  state_fits = refl;
}

-- An analysis had no descriptor, and left its pointer.
abbrev left_off : CaMachine
left_off = ca_machine free_lock disabled (set_pointer cert_analyze freed no_ca_tasks)

left_off-CaInv : CaInv 7 certs left_off
unfolding dangling phase_fits same_phase is_held_by same_holder no_ca_tasks free_lock
left_off-CaInv = record {
  proper = refl;
  lock_sound = refl;
  lock_exact = refl;
  tasks_fit = inr (refl, refl);
  state_fits = refl;
}

iterate_ca-CaEnds_example :
    CaEnds (ca_world true) 7 certs saving (iterate_ca (ca_world true) 7 certs saving)
iterate_ca-CaEnds_example = iterate_ca-CaEnds (ca_world true) 7 certs saving saving-CaInv

iterate_ca-null_pointer_example :
    iterate_ca (ca_world false) 7 certs (ca_machine free_lock need_to_refresh no_ca_tasks)
    ≡ fault null_pointer
unfolding same_phase no_ca_tasks
iterate_ca-null_pointer_example =
    iterate_ca-null_pointer (ca_world false) 7 certs
      (ca_machine free_lock need_to_refresh no_ca_tasks) refl refl refl refl refl

ca_done-CaEnded_example : CaEnded 7 certs left_off (ca_done 7 certs left_off)
ca_done-CaEnded_example = ca_done-CaEnded 7 certs left_off left_off-CaInv

-- A CA's data wait for being saved, and then have the lock.
abbrev waiting : CaMachine
waiting = ca_machine free_lock need_to_save_data no_ca_tasks

abbrev prepared : CaMachine
prepared = record (ca_machine lock_7 pre_save_data (set_pointer ca_hook live no_ca_tasks)) {
  when = some no_time;
  readfd = some 12;
  effects = emitted_ca_changes ∷ stored_ca ∷ [];
}

abbrev daemon_1 : Daemon
daemon_1 =
    put_phase (record { system = system_1; phases = λ c p. none }) 7 certs free_lock (some waiting)

waiting-CaInv : CaInv 7 certs waiting
unfolding ca_tasks_for phase_fits same_phase is_held_by no_ca_tasks free_lock
waiting-CaInv = record {
  proper = refl;
  lock_sound = refl;
  lock_exact = refl;
  tasks_fit = inl refl;
  state_fits = refl;
}

daemon_1-AllSound : AllSound daemon_1
unfolding phase_fits same_phase free_lock
daemon_1-AllSound =
    phase-AllSound (record { system = system_1; phases = λ c p. none }) 7 certs free_lock
      (some waiting) (record { entries = system_1-Sound; phases = λ c p. tt }) refl (inl refl)
      waiting-CaInv

prepares : DaemonStep daemon_1 (put_phase daemon_1 7 certs lock_7 (some prepared))
unfolding iterate_ca ca_begin ca_dispatch ca_conclude on_need_to_save_data lock_by_ca is_held_by
    is_free same_holder same_phase ca_launch_or_skip free_lock
prepares = DaemonStep.ca_pass daemon_1 (ca_world true) 7 certs waiting ca_1 prepared refl refl

one_user_at_a_time_example :
    (User.ca_user 7 certs ≡ User.ca_user 7 certs)
    × (has_storage lock_7 (User.ca_user 7 certs) ≡ true)
unfolding same_phase
one_user_at_a_time_example =
    one_user_at_a_time {y = daemon_1} {z = put_phase daemon_1 7 certs lock_7 (some prepared)}
      (User.ca_user 7 certs) (User.ca_user 7 certs) daemon_1-AllSound
      (DaemonSteps.more (DaemonSteps.stay daemon_1) prepares) (prepared, refl, refl)
      (prepared, refl, refl)

-- The first entry waits for guidance with the lock, and the second one cannot take it.
abbrev waits_for_guidance : Machine
waits_for_guidance = machine_1 lock_1 need_guidance no_tasks

abbrev starved : Machine
starved = record (machine_1 lock_1 need_key_pair no_tasks) {
  when = soon;
  effects = emitted_changes ∷ [];
}

abbrev daemon_2 : Daemon
daemon_2 = record { system = put system_1 1 waits_for_guidance; phases = λ c p. none }
