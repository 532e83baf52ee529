-- ===== src/Iterate/Safety/Storage.antt =====
-- What becomes of the writing lock of src/iterate.c on the ways on from a certificate that cannot be
-- read or saved, and what a pass writes out.
use certmonger.Prelude.{ℕ, ◌≡◌, refl, ◌⊎◌, inl, inr, Bool, true, false, List, [], ◌∷◌, arith}
use certmonger.Store.{
  State, Details, same_state, reading_cert, need_guidance, notifying_issued_save_failed,
  saving_cert,
}
use certmonger.Iterate.Machine.{
  World, Machine, M, modify, branch, emit, ◌>>◌, certread_ready, certread_finished_reading,
  notify_ready, certsave_start, saved_entry, emitted_changes, Effect, certread, notify,
}
use certmonger.Iterate.Steps.{poll, when, settle, launch}
use certmonger.Iterate.Entry.{dispatch, begin, conclude, iterate, remaining_at}
use certmonger.Iterate.Entry.Saving.{on_reading_cert, on_start_saving_cert}
use certmonger.Iterate.Entry.Notifying.{on_notifying_issued_save_failed}
use certmonger.Iterate.Safety.Invariant.{Inv, holds}
use certmonger.Iterate.Safety.Rules.{Sure, bind_rule, imply_rule}
use certmonger.Iterate.Safety.Outcome.{Post, running}
use certmonger.Iterate.Safety.Passes.{dispatch-Post, begin-Inv}

-- One pass after the other.
abbrev pub passes : List World → ℕ → M (Unit {0})
passes [] e = modify λ s. s
passes (w ∷ ws) e = iterate w e >> passes ws e

conclude-writes_out :
    (old : State) (t : Machine)
    → Sure
        (λ u.
          (same_state old u.state ≡ true)
          ⊎ ((fx : List Effect) × (u.effects ≡ emitted_changes ∷ saved_entry ∷ fx)))
        (conclude old)
        t
unfolding conclude
conclude-writes_out old t = written (same_state old t.state) refl
  where
    written :
        (b : Bool)
        → same_state old t.state ≡ b
        → Sure
            (λ u.
              (same_state old u.state ≡ true)
              ⊎ ((fx : List Effect) × (u.effects ≡ emitted_changes ∷ saved_entry ∷ fx)))
            (branch b (modify λ u. u) (emit saved_entry) >> emit emitted_changes)
            t
    written true e = inl e
    written false e = inr (t.effects, refl)

module _ (w : World) (e : ℕ) (s : Machine) (v : Inv e s) where
  -- When the helper of a well-formed entry has ended without reading the saved certificate, the pass
  -- leaves the entry waiting for guidance, with the writing lock.
  pub unread_keeps_lock :
      s.state ≡ reading_cert
      → (w.answer certread_ready s.details).0 ≡ true
      → (w.answer certread_finished_reading (w.answer certread_ready s.details).1).0 ≡ false
      → Sure (λ t. (t.state ≡ need_guidance) × (holds e t.lock ≡ true)) (iterate w e) s
  unfolding iterate begin conclude dispatch on_reading_cert poll when settle
  unread_keeps_lock at ready unread =
      rw at ground (arith, running certread s.tasks (rw at at v.tasks_exact), v.lock_fits)

  -- In a well-formed entry, after a notification that an issued certificate could not be saved, the entry goes on to save
  -- the certificate again, but without the writing lock: it is in CM_SAVING_CERT two passes later,
  -- if the notification has ended and the helper can be started.
  pub saves_unlocked :
      (w2 : World)
      → s.state ≡ notifying_issued_save_failed
      → (w.answer notify_ready s.details).0 ≡ true
      → ((d : Details) → (w2.answer certsave_start d).0 ≡ true)
      → Sure (λ t. (t.state ≡ saving_cert) × (holds e t.lock ≡ false)) (passes (w ∷ w2 ∷ []) e) s
  unfolding iterate begin conclude dispatch on_notifying_issued_save_failed on_start_saving_cert
      poll settle launch
  saves_unlocked w2 at ready can = ground (
    arith,
    running notify s.tasks (rw at at v.tasks_exact),
    v.lock_fits,
    can (w.done notify (w.answer notify_ready s.details).1),
  )

  -- A pass over a well-formed entry either leaves it in its state, or writes it out and then
  -- announces changes, as the last things that it does.
  pub iterate-writes_out :
      Sure
        (λ t.
          (same_state s.state t.state ≡ true)
          ⊎ ((fx : List Effect) × (t.effects ≡ emitted_changes ∷ saved_entry ∷ fx)))
        (iterate w e)
        s
  unfolding iterate begin conclude
  iterate-writes_out =
      let Q : Machine → Type 0 = λ t.
        (same_state s.state t.state ≡ true)
        ⊎ ((fx : List Effect) × (t.effects ≡ emitted_changes ∷ saved_entry ∷ fx)) in
      bind_rule Q (conclude s.state) (dispatch w e s.state (remaining_at w.now s.details)) (begin s)
        (imply_rule (Post e s.state s.lock) (Sure Q (conclude s.state))
          (λ t p. conclude-writes_out s.state t)
          (dispatch w e s.state (remaining_at w.now s.details)) (begin s)
          (dispatch-Post w e (begin s) (begin-Inv e s v) s.state (remaining_at w.now s.details)
            refl))
