-- ===== src/Scenarios/Witnesses.antt =====
-- Concrete runs of the code of src/iterate.c and src/store-gen.c, which also show that the theorems'
-- conditions can be met.
use mathlib.Core.List.{Memᴰ}
use Prim.Native.Nat.{max}
use certmonger.Prelude.{
  ℕ, ◌<◌, Option, ◌+◌, ◌-◌, ◌≤ℤ◌, ◌↔◌, ◌≡◌, refl, ◌⊎◌, inl, inr, true, false, none, some, List, [],
  ◌∷◌, pos, negsuc, codes, arith,
}
use certmonger.Store.{
  Details, submitting, same_state, state_value, ca_state_value, phase_value, data_unreachable,
  Phase, need_to_notify_validity, need_csr, saving_cert, need_key_pair, monitoring, reading_cert,
  need_guidance, notifying_issued_save_failed, generating_key_pair,
}
use certmonger.Iterate.Lock.{free_lock, same_phase}
use certmonger.Iterate.Machine.{
  delayed, When, submit, Effect, emitted_changes, saved_entry, no_tasks, set_running, keygen,
  certread, notify,
}
use certmonger.Iterate.Safety.Invariant.{Ensures, Inv, holds, phase_fits}
use certmonger.Iterate.Safety.Rules.{Sure}
use certmonger.Iterate.Safety.Outcome.{Post}
use certmonger.Iterate.Safety.Passes.{iterate-Post}
use certmonger.Iterate.Safety.Storage.{
  passes, iterate-writes_out, unread_keeps_lock, saves_unlocked,
}
use certmonger.Iterate.Safety.Renewal.{near_end_leaves_monitoring}
use certmonger.Iterate.Safety.Adoption.{Chosen, choose_ca-Chosen}
use certmonger.Iterate.Safety.Lifecycle.{
  is_resting, Rested, leftovers, reset_state-rests, init-Rested, done-Rested,
}
use certmonger.Iterate.Safety.System.{Sound, put, Step-Sound}
use certmonger.Iterate.Entry.{iterate, init, done}
use certmonger.Iterate.Entry.Reset.{reset_state}
use certmonger.Iterate.Entry.Added.{choose_ca}
use certmonger.Iterate.Delay.{
  decide_ca_delay, decide_monitor_delay, delay_soon, delay_ca_poll_minimum, delay_ca_poll_maximum,
  delay_monitor_poll_minimum, delay_monitor_poll_maximum,
}
use certmonger.Iterate.Delay.Bounds.{
  decide_ca_delay_bounds, decide_monitor_delay_bounds, monitor_delay_wakes,
}
use certmonger.Iterate.Expiry.{check_noteworthy}
use certmonger.Iterate.Expiry.Crossings.{IsChecked, Noteworthy, check_noteworthy_iff}
use certmonger.Store.Serial.{increment_serial}
use certmonger.Store.Serial.Value.{value, is_low, increment_serial-value}
use certmonger.Store.Names.{
  state_from_string, ca_state_from_string, ca_phase_from_string, state_as_string,
  ca_state_as_string, ca_phase_as_string, name_of, state_names, ca_state_names, ca_phase_names,
}
use certmonger.Store.Names.RoundTrip.{
  state_from_string-state_as_string, ca_state_from_string-ca_state_as_string,
  ca_phase_from_string-ca_phase_as_string,
}
use certmonger.Iterate.Safety.Waiting.{
  MonitorWait, iterate-monitoring_waits, Sensible, is_delayed, iterate-Sensible,
}
use certmonger.Scenarios.{
  details_1, world_1, lock_1, machine_1, idle_entry, reading-Inv, generating-Inv, notifying-Inv,
  ca_1, system_1, system_1-Sound, making, system_1-Step, submitting-Inv,
}

-- The whole pass of an entry whose key is being made, and of one whose certificate is watched.
iterate-Post_example :
    Sure
      (Post 1 generating_key_pair lock_1)
      (iterate world_1 1)
      (machine_1 lock_1 generating_key_pair (set_running keygen true no_tasks))
iterate-Post_example = iterate-Post world_1 1 _ generating-Inv

iterate-writes_out_example :
    Sure
      (λ t.
        (same_state generating_key_pair t.state ≡ true)
        ⊎ ((fx : List Effect) × (t.effects ≡ emitted_changes ∷ saved_entry ∷ fx)))
      (iterate world_1 1)
      (machine_1 lock_1 generating_key_pair (set_running keygen true no_tasks))
iterate-writes_out_example = iterate-writes_out world_1 1 _ generating-Inv

near_end_leaves_monitoring_example :
    Sure
      (λ r.
        (r.state ≡ need_to_notify_validity) ⊎ ((r.state ≡ need_key_pair) ⊎ (r.state ≡ need_csr)))
      (iterate world_1 1)
      (idle_entry monitoring)
near_end_leaves_monitoring_example =
    near_end_leaves_monitoring world_1 1 (idle_entry monitoring) 3000 [] refl refl refl
      (omega arith) (omega arith)
      (inl (3000, Memᴰ.head refl, omega arith, inl (omega arith, omega arith)))

check_noteworthy_iff_example :
    ((check_noteworthy 7000 100 9000 (some (3000 ∷ [])) 5000).0 ≡ true ↔ (
      IsChecked 9000 5000 7000 100
      × ((t : ℕ) × (ts : List ℕ) × (◌≡◌ {A = Option (List ℕ)} (some (3000 ∷ [])) (some (t ∷ ts)))
          × Noteworthy 9000 (t ∷ ts) 5000 7000)))
    × ((IsChecked 9000 5000 7000 100
          × ((check_noteworthy 7000 100 9000 (some (3000 ∷ [])) 5000).1 ≡ 7000))
        ⊎ (((◌≡◌ {A = ℕ} 9000 0) ⊎ (7000 < 100 + delay_monitor_poll_minimum))
            × ((check_noteworthy 7000 100 9000 (some (3000 ∷ [])) 5000).1 ≡ 5000)))
check_noteworthy_iff_example = check_noteworthy_iff 9000 5000 7000 100 (some (3000 ∷ []))

monitor_delay_wakes_example :
    decide_monitor_delay (pos 9000) none (some (3000 ∷ []))
    ≤ℤ pos (max delay_monitor_poll_minimum (9000 - 3000 + delay_soon))
monitor_delay_wakes_example =
    monitor_delay_wakes 9000 3000 none (some (3000 ∷ [])) (inr (Memᴰ.head refl)) (omega arith)
      (omega arith)

decide_monitor_delay_bounds_example :
    (pos delay_monitor_poll_minimum ≤ℤ decide_monitor_delay (negsuc 0) none (some (3000 ∷ [])))
    × (decide_monitor_delay (negsuc 0) none (some (3000 ∷ [])) ≤ℤ pos delay_monitor_poll_maximum)
decide_monitor_delay_bounds_example = decide_monitor_delay_bounds (negsuc 0) none (some (3000 ∷ []))

decide_ca_delay_bounds_example :
    (pos delay_ca_poll_minimum ≤ℤ decide_ca_delay (pos 1000))
    × (decide_ca_delay (pos 1000) ≤ℤ pos delay_ca_poll_maximum)
decide_ca_delay_bounds_example = decide_ca_delay_bounds (pos 1000)

increment_serial-value_example :
    (value (increment_serial (some (codes "7FFF"))) ≡ value (codes "7FFF") + 1)
    × (is_low (increment_serial (some (codes "7FFF"))) ≡ true)
increment_serial-value_example = increment_serial-value (codes "7FFF") refl (omega arith)

state_from_string-state_as_string_example :
    state_from_string (λ t. none) (codes "Need_Key_Pair") ≡ state_value need_key_pair
unfolding state_as_string name_of state_names
state_from_string-state_as_string_example =
    state_from_string-state_as_string (λ t. none) (codes "Need_Key_Pair") need_key_pair refl

ca_state_from_string-ca_state_as_string_example :
    ca_state_from_string (λ t. none) (codes "unreachable") ≡ ca_state_value data_unreachable
unfolding ca_state_as_string name_of ca_state_names
ca_state_from_string-ca_state_as_string_example =
    ca_state_from_string-ca_state_as_string (λ t. none) (codes "unreachable") data_unreachable refl

ca_phase_from_string-ca_phase_as_string_example :
    ca_phase_from_string (λ t. none) (codes "renewal_reqs") ≡ phase_value Phase.renew_reqs
unfolding ca_phase_as_string name_of ca_phase_names
ca_phase_from_string-ca_phase_as_string_example =
    ca_phase_from_string-ca_phase_as_string (λ t. none) (codes "renewal_reqs") Phase.renew_reqs refl

unread_keeps_lock_example :
    Sure
      (λ t. (t.state ≡ need_guidance) × (holds 1 t.lock ≡ true))
      (iterate world_1 1)
      (machine_1 lock_1 reading_cert (set_running certread true no_tasks))
unread_keeps_lock_example = unread_keeps_lock world_1 1 _ reading-Inv refl refl refl

saves_unlocked_example :
    Sure
      (λ t. (t.state ≡ saving_cert) × (holds 1 t.lock ≡ false))
      (passes (world_1 ∷ world_1 ∷ []) 1)
      (machine_1 free_lock notifying_issued_save_failed (set_running notify true no_tasks))
saves_unlocked_example = saves_unlocked world_1 1 _ notifying-Inv world_1 refl refl λ d. refl

reset_state-rests_example : Ensures (λ r. is_resting r ≡ true) (reset_state reading_cert)
reset_state-rests_example = reset_state-rests reading_cert refl

init-Rested_example :
    Sure
      (λ t. Rested 1 (machine_1 lock_1 reading_cert no_tasks) t × Inv 1 t)
      (init world_1 1)
      (machine_1 lock_1 reading_cert no_tasks)
unfolding phase_fits same_phase
init-Rested_example = init-Rested world_1 1 (machine_1 lock_1 reading_cert no_tasks) refl refl

done-Rested_example :
    Sure
      (λ t.
        Rested 1 (machine_1 lock_1 generating_key_pair (set_running keygen true no_tasks)) t
        × (t.tasks ≡ leftovers (set_running keygen true no_tasks)))
      (done world_1 1)
      (machine_1 lock_1 generating_key_pair (set_running keygen true no_tasks))
unfolding phase_fits same_phase
done-Rested_example =
    done-Rested world_1 1 (machine_1 lock_1 generating_key_pair (set_running keygen true no_tasks))
      refl refl

-- An entry without a CA, which is given the one that is known under its certificate's issuer.
abbrev adopted : Details
adopted = record details_1 { ca_nickname = none; cert_issuer = some (codes "CN=A") }

choose_ca-Chosen_example :
    Chosen
      (some (codes "x"))
      (ca_1 ∷ [])
      none
      (some (codes "CN=A"))
      (choose_ca (some (codes "x")) (ca_1 ∷ []) adopted)
choose_ca-Chosen_example = choose_ca-Chosen (some (codes "x")) (ca_1 ∷ []) adopted

Step-Sound_example : Sound (put system_1 1 making)
Step-Sound_example =
    Step-Sound {y = system_1} {z = put system_1 1 making} system_1-Sound system_1-Step

iterate-Sensible_example :
    Sure
      (λ t. (is_delayed t.when ≡ false) ⊎ Sensible world_1 t.delay)
      (iterate world_1 1)
      (machine_1 free_lock submitting (set_running submit true no_tasks))
iterate-Sensible_example = iterate-Sensible world_1 1 _ submitting-Inv refl

iterate-monitoring_waits_example :
    Sure
      (λ t.
        (t.when ≡ When.now) ⊎ ((t.state ≡ monitoring) × (t.when ≡ delayed) × MonitorWait t.delay))
      (iterate world_1 1)
      (idle_entry monitoring)
iterate-monitoring_waits_example = iterate-monitoring_waits world_1 1 (idle_entry monitoring) refl
