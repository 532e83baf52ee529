-- ===== src/Iterate/Safety/Passes.antt =====
-- A whole pass of `cm_iterate_entry` (src/iterate.c) over a well-formed entry.
use certmonger.Prelude.{ℕ, ℤ, ◌≡◌, refl, sym, subst, inl, arith, true, List, ◌∷◌}
use certmonger.Store.{
  State, need_key_pair, generating_key_pair, need_key_gen_perms, need_key_gen_pin,
  need_key_gen_token, have_key_pair, need_keyinfo, reading_keyinfo, need_keyinfo_read_pin,
  need_keyinfo_read_token, have_keyinfo, need_csr, generating_csr, need_csr_gen_pin,
  need_csr_gen_token, have_csr, need_scep_data, generating_scep_data, need_scep_gen_pin,
  need_scep_gen_token, need_scep_encryption_cert, need_scep_rsa_client_key, have_scep_data,
  need_to_submit, submitting, need_ca, ca_unreachable, ca_unconfigured, ca_rejected, ca_working,
  need_to_save_cert, pre_save_cert, start_saving_cert, saving_cert, need_certsave_perms,
  need_certsave_token, need_certsave_pin, need_to_save_ca_certs, start_saving_ca_certs,
  saving_ca_certs, need_ca_cert_save_perms, need_to_save_only_ca_certs, start_saving_only_ca_certs,
  saving_only_ca_certs, need_only_ca_cert_save_perms, need_to_read_cert, reading_cert, saved_cert,
  post_saved_cert, monitoring, need_to_notify_validity, notifying_validity,
  need_to_notify_rejection, notifying_rejection, need_to_notify_issued_save_failed,
  notifying_issued_save_failed, need_to_notify_issued_ca_save_failed,
  notifying_issued_ca_save_failed, need_to_notify_only_ca_save_failed,
  notifying_only_ca_save_failed, need_to_notify_issued_saved, notifying_issued_saved, need_guidance,
  newly_added, newly_added_start_reading_keyinfo, newly_added_reading_keyinfo,
  newly_added_need_keyinfo_read_pin, newly_added_need_keyinfo_read_token,
  newly_added_start_reading_cert, newly_added_reading_cert, newly_added_deciding,
}
use certmonger.Iterate.Lock.{Outcome, ok, fault}
use certmonger.Iterate.Machine.{
  World, Machine, revisit, no_time, Effect, emitted_changes, saved_entry,
}
use certmonger.Iterate.Entry.{dispatch, begin, conclude, iterate, remaining_at}
use certmonger.Iterate.Safety.Invariant.{Ensures, Inv}
use certmonger.Iterate.Safety.Diagram.{leads, awaits}
use certmonger.Iterate.Safety.Rules.{Sure}
use certmonger.Iterate.Safety.Outcome.{Post}
use certmonger.Iterate.Safety.Requests.{
  on_have_keyinfo-Post, on_need_csr-Post, on_generating_csr-Post, on_have_csr-Post,
  on_need_scep_data-Post, on_generating_scep_data-Post, on_have_scep_data-Post,
}
use certmonger.Iterate.Safety.Keys.{
  on_need_key_pair-Post, on_generating_key_pair-Post, on_have_key_pair-Post, on_need_keyinfo-Post,
  on_reading_keyinfo-Post,
}
use certmonger.Iterate.Safety.Saving.{
  on_need_to_save_cert-Post, on_pre_save_cert-Post, on_start_saving_cert-Post, on_saving_cert-Post,
  on_saved_cert-Post, on_need_to_read_cert-Post, on_reading_cert-Post, on_post_saved_cert-Post,
}
use certmonger.Iterate.Safety.CaSaving.{
  on_need_to_save_ca_certs-Post, on_need_to_save_only_ca_certs-Post, on_start_saving_ca_certs-Post,
  on_start_saving_only_ca_certs-Post, on_saving_ca_certs-Post, on_saving_only_ca_certs-Post,
}
use certmonger.Iterate.Safety.Notifying.{
  on_need_to_notify_issued_save_failed-Post, on_need_to_notify_issued_saved-Post,
  on_need_to_notify_issued_ca_save_failed-Post, on_need_to_notify_only_ca_save_failed-Post,
  on_need_to_notify_rejection-Post, on_notifying_rejection-Post,
  on_notifying_issued_save_failed-Post, on_notifying_issued_saved-Post,
  on_notifying_issued_ca_save_failed-Post, on_notifying_only_ca_save_failed-Post,
}
use certmonger.Iterate.Safety.Added.{
  on_newly_added_start_reading_keyinfo-Post, on_newly_added_start_reading_cert-Post,
  on_newly_added_reading_cert-Post, on_newly_added-Post, on_newly_added_reading_keyinfo-Post,
  on_newly_added_deciding-Post,
}
use certmonger.Iterate.Safety.Monitoring.{
  on_need_to_notify_validity-Post, on_monitoring-Post, on_notifying_validity-Post,
}
use certmonger.Iterate.Safety.Submission.{
  on_ca_working-Post, on_ca_unreachable-Post, on_submitting-Post, on_need_to_submit-Post,
}

module _ (w : World) (e : ℕ) (s : Machine) (v : Inv e s) where
  -- An entry that waits for somebody stays as it is.
  waits-Post :
      (st : State)
      → s.state ≡ st
      → awaits st ≡ true
      → leads st st ≡ true
      → Sure (Post e st s.lock) (revisit no_time) s
  waits-Post st at waiting stays = record {
    inv = record {
      valid = v.valid;
      lock_sound = v.lock_sound;
      lock_fits = v.lock_fits;
      tasks_exact = v.tasks_exact;
    };
    lock_move = (refl, inl refl);
    edge = subst (λ x. leads st x ≡ true) (sym at) stays;
    wake = ground arith;
  }

  pub dispatch-Post :
      (st : State) (remaining : ℤ)
      → s.state ≡ st
      → Sure (Post e st s.lock) (dispatch w e st remaining) s
  unfolding dispatch
  dispatch-Post need_key_pair remaining at = on_need_key_pair-Post w e s v at
  dispatch-Post generating_key_pair remaining at = on_generating_key_pair-Post w e s v at
  dispatch-Post need_key_gen_perms remaining at = waits-Post need_key_gen_perms at refl refl
  dispatch-Post need_key_gen_pin remaining at = waits-Post need_key_gen_pin at refl refl
  dispatch-Post need_key_gen_token remaining at = waits-Post need_key_gen_token at refl refl
  dispatch-Post have_key_pair remaining at = on_have_key_pair-Post w e s v at
  dispatch-Post need_keyinfo remaining at = on_need_keyinfo-Post w e s v at
  dispatch-Post reading_keyinfo remaining at = on_reading_keyinfo-Post w e s v at
  dispatch-Post need_keyinfo_read_pin remaining at = waits-Post need_keyinfo_read_pin at refl refl
  dispatch-Post need_keyinfo_read_token remaining at =
      waits-Post need_keyinfo_read_token at refl refl
  dispatch-Post have_keyinfo remaining at = on_have_keyinfo-Post w e s v at
  dispatch-Post need_csr remaining at = on_need_csr-Post w e s v at
  dispatch-Post generating_csr remaining at = on_generating_csr-Post w e s v at
  dispatch-Post need_csr_gen_pin remaining at = waits-Post need_csr_gen_pin at refl refl
  dispatch-Post need_csr_gen_token remaining at = waits-Post need_csr_gen_token at refl refl
  dispatch-Post have_csr remaining at = on_have_csr-Post w e s v at
  dispatch-Post need_scep_data remaining at = on_need_scep_data-Post w e s v at
  dispatch-Post generating_scep_data remaining at = on_generating_scep_data-Post w e s v at
  dispatch-Post need_scep_gen_pin remaining at = waits-Post need_scep_gen_pin at refl refl
  dispatch-Post need_scep_gen_token remaining at = waits-Post need_scep_gen_token at refl refl
  dispatch-Post need_scep_encryption_cert remaining at =
      waits-Post need_scep_encryption_cert at refl refl
  dispatch-Post need_scep_rsa_client_key remaining at =
      waits-Post need_scep_rsa_client_key at refl refl
  dispatch-Post have_scep_data remaining at = on_have_scep_data-Post w e s v at
  dispatch-Post need_to_submit remaining at = on_need_to_submit-Post w e s v at
  dispatch-Post submitting remaining at = on_submitting-Post w e s v remaining at
  dispatch-Post need_ca remaining at = waits-Post need_ca at refl refl
  dispatch-Post ca_unreachable remaining at = on_ca_unreachable-Post w e s v at
  dispatch-Post ca_unconfigured remaining at = waits-Post ca_unconfigured at refl refl
  dispatch-Post ca_rejected remaining at = waits-Post ca_rejected at refl refl
  dispatch-Post ca_working remaining at = on_ca_working-Post w e s v at
  dispatch-Post need_to_save_cert remaining at = on_need_to_save_cert-Post w e s v at
  dispatch-Post pre_save_cert remaining at = on_pre_save_cert-Post w e s v at
  dispatch-Post start_saving_cert remaining at = on_start_saving_cert-Post w e s v at
  dispatch-Post saving_cert remaining at = on_saving_cert-Post w e s v at
  dispatch-Post need_certsave_perms remaining at = waits-Post need_certsave_perms at refl refl
  dispatch-Post need_certsave_token remaining at = waits-Post need_certsave_token at refl refl
  dispatch-Post need_certsave_pin remaining at = waits-Post need_certsave_pin at refl refl
  dispatch-Post need_to_save_ca_certs remaining at = on_need_to_save_ca_certs-Post w e s v at
  dispatch-Post start_saving_ca_certs remaining at = on_start_saving_ca_certs-Post w e s v at
  dispatch-Post saving_ca_certs remaining at = on_saving_ca_certs-Post w e s v at
  dispatch-Post need_ca_cert_save_perms remaining at =
      waits-Post need_ca_cert_save_perms at refl refl
  dispatch-Post need_to_save_only_ca_certs remaining at =
      on_need_to_save_only_ca_certs-Post w e s v at
  dispatch-Post start_saving_only_ca_certs remaining at =
      on_start_saving_only_ca_certs-Post w e s v at
  dispatch-Post saving_only_ca_certs remaining at = on_saving_only_ca_certs-Post w e s v at
  dispatch-Post need_only_ca_cert_save_perms remaining at =
      waits-Post need_only_ca_cert_save_perms at refl refl
  dispatch-Post need_to_read_cert remaining at = on_need_to_read_cert-Post w e s v at
  dispatch-Post reading_cert remaining at = on_reading_cert-Post w e s v at
  dispatch-Post saved_cert remaining at = on_saved_cert-Post w e s v at
  dispatch-Post post_saved_cert remaining at = on_post_saved_cert-Post w e s v at
  dispatch-Post monitoring remaining at = on_monitoring-Post w e s v remaining at
  dispatch-Post need_to_notify_validity remaining at = on_need_to_notify_validity-Post w e s v at
  dispatch-Post notifying_validity remaining at = on_notifying_validity-Post w e s v remaining at
  dispatch-Post need_to_notify_rejection remaining at = on_need_to_notify_rejection-Post w e s v at
  dispatch-Post notifying_rejection remaining at = on_notifying_rejection-Post w e s v at
  dispatch-Post need_to_notify_issued_save_failed remaining at =
      on_need_to_notify_issued_save_failed-Post w e s v at
  dispatch-Post notifying_issued_save_failed remaining at =
      on_notifying_issued_save_failed-Post w e s v at
  dispatch-Post need_to_notify_issued_ca_save_failed remaining at =
      on_need_to_notify_issued_ca_save_failed-Post w e s v at
  dispatch-Post notifying_issued_ca_save_failed remaining at =
      on_notifying_issued_ca_save_failed-Post w e s v at
  dispatch-Post need_to_notify_only_ca_save_failed remaining at =
      on_need_to_notify_only_ca_save_failed-Post w e s v at
  dispatch-Post notifying_only_ca_save_failed remaining at =
      on_notifying_only_ca_save_failed-Post w e s v at
  dispatch-Post need_to_notify_issued_saved remaining at =
      on_need_to_notify_issued_saved-Post w e s v at
  dispatch-Post notifying_issued_saved remaining at = on_notifying_issued_saved-Post w e s v at
  dispatch-Post need_guidance remaining at = waits-Post need_guidance at refl refl
  dispatch-Post newly_added remaining at = on_newly_added-Post w e s v at
  dispatch-Post newly_added_start_reading_keyinfo remaining at =
      on_newly_added_start_reading_keyinfo-Post w e s v at
  dispatch-Post newly_added_reading_keyinfo remaining at =
      on_newly_added_reading_keyinfo-Post w e s v at
  dispatch-Post newly_added_need_keyinfo_read_pin remaining at =
      waits-Post newly_added_need_keyinfo_read_pin at refl refl
  dispatch-Post newly_added_need_keyinfo_read_token remaining at =
      waits-Post newly_added_need_keyinfo_read_token at refl refl
  dispatch-Post newly_added_start_reading_cert remaining at =
      on_newly_added_start_reading_cert-Post w e s v at
  dispatch-Post newly_added_reading_cert remaining at = on_newly_added_reading_cert-Post w e s v at
  dispatch-Post newly_added_deciding remaining at = on_newly_added_deciding-Post w e s v at
  dispatch-Post State.invalid remaining at = ground (arith, v.valid)

pub begin-Inv : (e : ℕ) (s : Machine) → Inv e s → Inv e (begin s)
unfolding begin
begin-Inv e s v = record {
  valid = v.valid;
  lock_sound = v.lock_sound;
  lock_fits = v.lock_fits;
  tasks_exact = v.tasks_exact;
}

-- The end of a pass adds effects only.
module _ (P : Machine → Type 0) (old : State)
    (keep : (t : Machine) (fx : List Effect) → P t → P (record t { effects = fx })) where
  pub conclude_rule : (t : Machine) → P t → Sure P (conclude old) t
  unfolding conclude
  conclude_rule t h = ground (
    arith,
    keep t (emitted_changes ∷ saved_entry ∷ t.effects) h,
    keep t (emitted_changes ∷ t.effects) h,
  )

  pass_rule :
      (o : Outcome (Unit {0} × Machine))
      → Ensures (λ r. P r.1) o
      → Ensures (λ r. P r.1) (elim o [ ok (u, t) ↦ conclude old t | fault f ↦ fault f ])
  pass_rule (ok (u, t)) h = conclude_rule t h
  pass_rule (fault f) h = absurd h

-- A pass over a well-formed entry returns: no call aborts, and no pointer that is NULL is used. The
-- entry is well formed again, the lock is as it was but for taking a free one or giving up one's
-- own, the state has moved along the diagram, and something brings the daemon back to the entry
-- unless it waits for instructions.
pub iterate-Post :
    (w : World) (e : ℕ) (s : Machine) → Inv e s → Sure (Post e s.state s.lock) (iterate w e) s
unfolding iterate begin
iterate-Post w e s v =
    pass_rule (Post e s.state s.lock) s.state
      (λ t fx p. record {
        inv = record {
          valid = p.inv.valid;
          lock_sound = p.inv.lock_sound;
          lock_fits = p.inv.lock_fits;
          tasks_exact = p.inv.tasks_exact;
        };
        lock_move = p.lock_move;
        edge = p.edge;
        wake = p.wake;
      })
      (dispatch w e s.state (remaining_at w.now s.details) (begin s))
      (dispatch-Post w e (begin s) (begin-Inv e s v) s.state (remaining_at w.now s.details) refl)
