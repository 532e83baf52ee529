-- ===== src/Iterate/Safety/Lifecycle.antt =====
-- The set-up of an entry (`cm_iterate_entry_init` of src/iterate.c) and its end
-- (`cm_iterate_entry_done`), with the state that each falls back to.
use certmonger.Prelude.{
  ◌∷◌, ap, ℕ, ◌≡◌, refl, sym, subst, Bool, true, false, not, arith, is_some, ◌&&◌, inl, inr,
}
use certmonger.Store.{State, Details}
use certmonger.Iterate.Lock.{Outcome, ok, fault, is_held_by, has_lock, unlock_by_entry}
use certmonger.Iterate.Machine.{
  submit, csrgen, scepgen, notify, casave, saved_entry, keygen, World, Tool, Machine, M, Tasks,
  no_tasks, is_running, set_running, keyiread, certread, keyiread_start, keyiread_ready,
  certread_start, certread_ready, ◌>>◌, Call,
}
use certmonger.Iterate.Entry.{init, done, drop_lock, cancel, reset, read_now}
use certmonger.Iterate.Entry.Reset.{reset_state}
use certmonger.Iterate.Safety.Invariant.{
  Ensures, Inv, is_valid, lock_need, need_met, tool_of, tasks_for, phase_fits, holds,
}
use certmonger.Iterate.Safety.Outcome.{LockMove, both, none_of}
use certmonger.Iterate.Safety.Rules.{Sure, without_lock, bind_rule}

-- A state to begin in: valid, with no helper at work and no need of the lock.
abbrev pub is_resting : State → Bool
is_resting st = is_valid st && (need_met (lock_need st) false && not (is_some (tool_of st)))

-- Every valid state falls back to a state to begin in.
pub reset_state-rests :
    (st : State) → is_valid st ≡ true → Ensures (λ r. is_resting r ≡ true) (reset_state st)
unfolding reset_state
reset_state-rests State.invalid h = ground arith
reset_state-rests _ h = ground arith

drop_lock_rule :
    (P : Machine → Type 0) (e : ℕ) (s : Machine)
    → phase_fits s.lock.holder s.lock.phase ≡ true
    → (holds e s.lock ≡ true → P (without_lock s))
    → (holds e s.lock ≡ false → P s)
    → Sure P (drop_lock e) s
unfolding drop_lock phase_fits has_lock unlock_by_entry
drop_lock_rule P e s sound mine others = ground arith

running-set : (tool : Tool) (t : Tasks) → is_running tool (set_running tool true t) ≡ true
running-set keygen t = refl
running-set _ t = refl

set-set :
    (tool : Tool) (t : Tasks)
    → set_running tool false (set_running tool true t) ≡ set_running tool false t
set-set keygen t = refl
set-set _ t = refl

set-idle : (tool : Tool) (t : Tasks) → is_running tool t ≡ false → set_running tool false t ≡ t
set-idle keygen t h = ground arith
set-idle _ t h = ground arith

module _ (P : Machine → Type 0) (w : World) (s : Machine) where
  read_now_rule :
      (tool : Tool) (begins ready : Call)
      → ((d : Details) → P (record s { details = d; tasks = set_running tool false s.tasks }))
      → Sure P (read_now w tool begins ready) s
  read_now_rule tool begins ready h =
      let d : Details = (w.answer begins s.details).1 in
      let r : Details = (w.answer ready d).1 in
      ground (arith, h d, h (w.done tool r), running-set tool s.tasks, set-set tool s.tasks)

  cancel_rule :
      (tool : Tool)
      → ((d : Details) → P (record s { details = d; tasks = set_running tool false s.tasks }))
      → Sure P (cancel w tool) s
  cancel_rule tool h = ground (arith, h s.details, h (w.done tool s.details), set-idle tool s.tasks)

module _ (P : Machine → Type 0) (s : Machine) where
  reset_rule :
      is_valid s.state ≡ true
      → ((r : State)
          → reset_state s.state ≡ ok r
          → is_resting r ≡ true
          → P (record s { state = r }))
      → Sure P reset s
  reset_rule valid h = fallen (reset_state s.state) refl (reset_state-rests s.state valid)
    where
      fallen :
          (o : Outcome State)
          → reset_state s.state ≡ o
          → Ensures (λ r. is_resting r ≡ true) o
          → Ensures {A = Unit {0} × Machine}
              (λ r. P r.1)
              (elim o [ ok r ↦ ok (tt, record s { state = r }) | fault f ↦ fault f ])
      fallen (ok r) e rests = h r e rests
      fallen (fault f) e rests = absurd rests

-- An entry that has been set up or put to rest: it is where `cm_entry_reset_state` puts it, its
-- own lock is given back, and anybody else's lock is untouched.
pub record Rested (e : ℕ) (s t : Machine) : Type 0 where
  pub fallen_back : reset_state s.state ≡ ok t.state
  pub rests : is_resting t.state ≡ true
  pub sound : phase_fits t.lock.holder t.lock.phase ≡ true
  pub released : holds e t.lock ≡ false
  pub lock_move : LockMove e s.lock t.lock

-- What putting an entry to rest leaves of its helpers.
abbrev pub leftovers : Tasks → Tasks
leftovers t = record no_tasks {
  certsave_state = t.certsave_state;
  hook_state = t.hook_state;
  certread_state = t.certread_state;
}

kept :
    {e : ℕ} {s : Machine} (t u : Machine)
    → u.lock ≡ t.lock
    → u.state ≡ t.state
    → Rested e s t
    → Rested e s u
kept t u same_lock same h = record {
  fallen_back = rw same h.fallen_back;
  rests = rw same h.rests;
  sound = rw same_lock h.sound;
  released = rw same_lock h.released;
  lock_move = subst (LockMove _ _) (sym same_lock) h.lock_move;
}

module _ (P : Machine → Type 0) (e : ℕ) (s : Machine) (r : State) (d : Details) (t : Tasks) where
  rested :
      reset_state s.state ≡ ok r
      → is_resting r ≡ true
      → phase_fits s.lock.holder s.lock.phase ≡ true
      → ((u : Machine) → Rested e s u → u.tasks ≡ t → P u)
      → Sure P (drop_lock e) (record s { details = d; tasks = t; state = r })
  unfolding phase_fits is_held_by
  rested back rests sound h =
      drop_lock_rule P e (record s { details = d; tasks = t; state = r }) sound
        (λ mine.
          h _
            (record {
              fallen_back = back;
              rests = rests;
              sound = ground arith;
              released = ground arith;
              lock_move = (refl, inr (inr (mine, refl)));
            })
            refl)
        (λ others.
          h _
            (record {
              fallen_back = back;
              rests = rests;
              sound = sound;
              released = others;
              lock_move = (refl, inl refl);
            })
            refl)

-- An entry at rest with no helper at work is well formed.
Rested-Inv : (e : ℕ) (s t : Machine) → Rested e s t → t.tasks ≡ no_tasks → Inv e t
unfolding tasks_for no_tasks
Rested-Inv e s t h idle =
    let (fits, free) = both {a = is_valid t.state} h.rests in
    let (met, alone) = both {a = need_met (lock_need t.state) false} free in
    record {
      valid = fits;
      lock_sound = h.sound;
      lock_fits = rw h.released met;
      tasks_exact = ground (arith, none_of (tool_of t.state) alone);
    }

-- Stopping a helper that may not be there, and then something else.
cancelled :
    (P : Machine → Type 0) (w : World) (s : Machine) (tool : Tool) (k : M (Unit {0})) (t : Tasks)
    (d : Details)
    → ((d' : Details) → Sure P k (record s { details = d'; tasks = set_running tool false t }))
    → Sure P (cancel w tool >> k) (record s { details = d; tasks = t })
cancelled P w s tool k t d h =
    bind_rule P k (cancel w tool) (record s { details = d; tasks = t })
      (cancel_rule (Sure P k) w (record s { details = d; tasks = t }) tool h)

module _ (w : World) (e : ℕ) (s : Machine) (valid : is_valid s.state ≡ true)
    (sound : phase_fits s.lock.holder s.lock.phase ≡ true) where
  -- With a lock whose phase fits its holder, the set-up of an entry in any valid state returns, and leaves the entry at rest and well formed,
  -- with no helper at work.
  pub init-Rested : Sure (λ t. Rested e s t × Inv e t) (init w e) s
  unfolding init no_tasks
  init-Rested =
      let P : Machine → Type 0 = λ t. Rested e s t × Inv e t in
      bind_rule P _ reset (record s { tasks = no_tasks })
        (reset_rule _ (record s { tasks = no_tasks }) valid
          λ r back rests. bind_rule P _ (drop_lock e) _ (
            rested _ e s r s.details no_tasks back rests sound λ u here idle.
              bind_rule P _ (read_now w keyiread keyiread_start keyiread_ready) u (
                read_now_rule _ w u keyiread _ _ λ d1.
                  bind_rule P _ (read_now w certread certread_start certread_ready)
                    (record u { details = d1; tasks = set_running keyiread false u.tasks })
                    (read_now_rule _ w
                      (record u { details = d1; tasks = set_running keyiread false u.tasks })
                      certread _ _
                      λ d2.
                        let t : Machine = record u {
                          details = d2;
                          tasks = set_running certread false (set_running keyiread false u.tasks);
                          effects = saved_entry ∷ u.effects;
                        } in
                        let kept_rest = kept u t refl refl here in
                        (
                          kept_rest,
                          Rested-Inv e s t kept_rest (
                              ap (λ x. set_running certread false (set_running keyiread false x))
                                idle),
                        )))))

  -- With a lock whose phase fits its holder, putting an entry in any valid state to rest returns; only the helpers that save a
  -- certificate, run a hook or read a certificate are not told to stop.
  pub done-Rested : Sure (λ t. Rested e s t × (t.tasks ≡ leftovers s.tasks)) (done w e) s
  unfolding done no_tasks
  done-Rested =
      let P : Machine → Type 0 = λ t. Rested e s t × (t.tasks ≡ leftovers s.tasks) in
      let t0 : Tasks = set_running submit false s.tasks in
      let t1 : Tasks = set_running csrgen false t0 in
      let t2 : Tasks = set_running scepgen false t1 in
      let t3 : Tasks = set_running keyiread false t2 in
      let t4 : Tasks = set_running keygen false t3 in
      let t5 : Tasks = set_running notify false t4 in
      let t6 : Tasks = set_running casave false t5 in
      cancelled P w s submit _ s.tasks s.details λ d0. cancelled P w s csrgen _ t0 d0 λ d1.
        cancelled P w s scepgen _ t1 d1 λ d2. cancelled P w s keyiread _ t2 d2 λ d3.
          cancelled P w s keygen _ t3 d3 λ d4. cancelled P w s notify _ t4 d4 λ d5.
            cancelled P w s casave _ t5 d5 λ d6.
              bind_rule P (drop_lock e) reset (record s { details = d6; tasks = t6 })
                (reset_rule _ (record s { details = d6; tasks = t6 }) valid
                  λ r back rests. rested P e s r d6 t6 back rests sound λ u here idle. (here, idle))
