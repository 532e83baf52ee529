-- ===== src/Iterate/Ca/Safety/Lifecycle.antt =====
-- The set-up and the end of a phase of a CA's data: `cm_iterate_ca_init` and `cm_iterate_ca_done` of
-- src/iterate.c.
use certmonger.Prelude.{
  ℕ, Bool, true, false, Option, none, some, ◌≡◌, inl, inr, refl, sym, subst, arith, ◌∙◌, is_some,
}
use certmonger.Store.{Phase, need_to_refresh, disabled}
use certmonger.Iterate.Lock.{
  Lock, Outcome, ok, fault, freed_pointer, ca_holder, same_phase, same_holder, is_held_by, has_lock,
  unlock_by_ca,
}
use certmonger.Iterate.Ca.{ca_init, ca_done, ca_drop_lock}
use certmonger.Iterate.Ca.Machine.{
  CaTool, cert_analyze, no_ca_tasks, CaMachine, ◌>>◌, ca_branch, ca_on_lock, ca_modify, ca_emit,
  stored_ca,
}
use certmonger.Iterate.Safety.Invariant.{Ensures, phase_fits}
use certmonger.Iterate.Ca.Safety.{
  ca_holds, ca_tool_of, ca_tasks_for, dangling, analyzer_of, CaInv, CaLockMove,
}
use certmonger.Iterate.Ca.Safety.Rules.{CaSure, ca_on_lock_rule}
use certmonger.Iterate.Ca.Safety.Saving.{unlock_by_ca_holding}

-- The writing lock after it was dropped.
pub record Dropped (c : ℕ) (p : Phase) (s t : CaMachine) : Type 0 where
  pub lock_sound : phase_fits t.lock.holder t.lock.phase ≡ true
  pub lock_gone : ca_holds c p t.lock ≡ false
  pub lock_move : CaLockMove c p s.lock t.lock
  pub same_tasks : t.tasks ≡ s.tasks
  pub same_state : t.state ≡ s.state

-- With a lock that is sound the looser test of `cm_writing_has_lock` is exact.
has_lock-ca :
    (c : ℕ) (p : Phase) (l : Lock)
    → phase_fits l.holder l.phase ≡ true
    → has_lock (ca_holder c) p l ≡ ca_holds c p l
unfolding has_lock phase_fits is_held_by same_holder
has_lock-ca c p l sound = ground arith

drop_by :
    (c : ℕ) (p : Phase) (s : CaMachine) (b : Bool)
    → phase_fits s.lock.holder s.lock.phase ≡ true
    → ca_holds c p s.lock ≡ b
    → CaSure
        (Dropped c p s)
        (ca_branch b (do ca_on_lock (unlock_by_ca c p); ca_modify (λ t. t)) (ca_modify (λ t. t)))
        s
unfolding phase_fits same_phase is_held_by
drop_by c p s true sound mine =
    ca_on_lock_rule (Dropped c p s) (unlock_by_ca c p) true _ s _
      (unlock_by_ca_holding c p s.lock mine)
      (record {
        lock_sound = refl;
        lock_gone = refl;
        lock_move = inr (inr (mine, refl));
        same_tasks = refl;
        same_state = refl;
      })
drop_by c p s false sound free = record {
  lock_sound = sound;
  lock_gone = free;
  lock_move = inl refl;
  same_tasks = refl;
  same_state = refl;
}

ca_drop_lock-Dropped :
    (c : ℕ) (p : Phase) (s : CaMachine)
    → phase_fits s.lock.holder s.lock.phase ≡ true
    → CaSure (Dropped c p s) (ca_drop_lock c p) s
unfolding ca_drop_lock
ca_drop_lock-Dropped c p s sound =
    drop_by c p s (has_lock (ca_holder c) p s.lock) sound (sym (has_lock-ca c p s.lock sound))

-- What `cm_iterate_ca_init` leaves.
pub record Begun (c : ℕ) (p : Phase) (s t : CaMachine) : Type 0 where
  pub inv : CaInv c p t
  pub at_start : t.state ≡ need_to_refresh
  pub lock_move : CaLockMove c p s.lock t.lock

begun :
    (c : ℕ) (p : Phase) (s r : CaMachine) (o : Outcome (Unit {0} × CaMachine))
    → same_phase p Phase.invalid ≡ false
    → r.tasks ≡ no_ca_tasks
    → r.state ≡ need_to_refresh
    → r.lock ≡ s.lock
    → Ensures {A = Unit {0} × CaMachine} (λ t. Dropped c p r t.1) o
    → Ensures {A = Unit {0} × CaMachine}
        (λ t. Begun c p s t.1)
        (elim o [ ok (u, t) ↦ ca_emit stored_ca t | fault e ↦ fault e ])
unfolding ca_tasks_for
begun c p s r (fault f) proper bare at same h = absurd h
begun c p s r (ok (u, t)) proper bare at same h = record {
  inv = record {
    proper = proper;
    lock_sound = h.lock_sound;
    lock_exact = rw (h.same_state, at) h.lock_gone;
    tasks_fit = inl (rw (h.same_state, at, h.same_tasks, bare) refl);
    state_fits = rw (h.same_state, at) refl;
  };
  at_start = h.same_state ∙ at;
  lock_move = subst (λ l. CaLockMove c p l t.lock) same h.lock_move;
}

-- A phase that is set up is well formed, whatever it was before.
pub ca_init-Begun :
    (c : ℕ) (p : Phase) (s : CaMachine)
    → same_phase p Phase.invalid ≡ false
    → phase_fits s.lock.holder s.lock.phase ≡ true
    → CaSure (Begun c p s) (ca_init c p) s
unfolding ca_init
ca_init-Begun c p s proper sound =
    let r = record s { tasks = no_ca_tasks; state = need_to_refresh } in
    begun c p s r (ca_drop_lock c p r) proper refl refl refl (ca_drop_lock-Dropped c p r sound)

-- What `cm_iterate_ca_done` comes to: the work is cancelled and the lock is not kept, or an object
-- is freed for the second time.
abbrev pub CaEnded : ℕ → Phase → CaMachine → Outcome (Unit {0} × CaMachine) → Type 0
CaEnded c p s (ok r) =
    (s.tasks ≡ ca_tasks_for (ca_tool_of p s.state))
    × (r.1.tasks ≡ no_ca_tasks)
    × (r.1.state ≡ s.state)
    × (ca_holds c p r.1.lock ≡ false)
    × CaLockMove c p s.lock r.1.lock
CaEnded c p s (fault f) =
    (f ≡ freed_pointer)
    × (s.state ≡ disabled)
    × (is_some (analyzer_of p) ≡ true)
    × (s.tasks ≡ dangling (analyzer_of p))

ended :
    (c : ℕ) (p : Phase) (s r : CaMachine) (o : Outcome (Unit {0} × CaMachine))
    → r.tasks ≡ no_ca_tasks
    → r.state ≡ s.state
    → r.lock ≡ s.lock
    → s.tasks ≡ ca_tasks_for (ca_tool_of p s.state)
    → Ensures {A = Unit {0} × CaMachine} (λ t. Dropped c p r t.1) o
    → CaEnded c p s o
ended c p s r (fault f) bare at same fit h = absurd h
ended c p s r (ok (u, t)) bare at same fit h = (
  fit,
  h.same_tasks ∙ bare,
  h.same_state ∙ at,
  h.lock_gone,
  subst (λ l. CaLockMove c p l t.lock) same h.lock_move,
)

module _ (c : ℕ) (p : Phase) where
  -- With one helper at work at most, it alone is cancelled.
  cancelled :
      (x : Option CaTool) (s : CaMachine)
      → s.tasks ≡ ca_tasks_for (ca_tool_of p s.state)
      → phase_fits s.lock.holder s.lock.phase ≡ true
      → CaEnded c p s (ca_done c p (record s { tasks = ca_tasks_for x }))
  unfolding ca_done ca_tasks_for no_ca_tasks
  cancelled none s fit sound =
      let r = record s { tasks = no_ca_tasks } in
      ended c p s r (ca_drop_lock c p r) refl refl refl fit (ca_drop_lock-Dropped c p r sound)
  cancelled (some cert_analyze) s fit sound =
      let r = record s { tasks = no_ca_tasks } in
      ended c p s r (ca_drop_lock c p r) refl refl refl fit (ca_drop_lock-Dropped c p r sound)
  cancelled (some tool) s fit sound =
      let r = record s { tasks = no_ca_tasks } in
      ended c p s r (ca_drop_lock c p r) refl refl refl fit (ca_drop_lock-Dropped c p r sound)

  -- A pointer that dangles is freed again, which only a phase that is analysed can have.
  freed_again :
      (s : CaMachine) (x : Option CaTool)
      → analyzer_of p ≡ x
      → s.state ≡ disabled
      → s.tasks ≡ dangling x
      → phase_fits s.lock.holder s.lock.phase ≡ true
      → CaEnded c p s (ca_done c p (record s { tasks = dangling x }))
  unfolding ca_done ca_tasks_for dangling no_ca_tasks
  freed_again s none mine off left sound =
      let r = record s { tasks = no_ca_tasks } in
      ended c p s r (ca_drop_lock c p r) refl refl refl (rw (left, off) refl)
        (ca_drop_lock-Dropped c p r sound)
  freed_again s (some cert_analyze) mine off left sound = (refl, off, rw mine refl, rw mine left)
  freed_again s (some tool) mine off left sound = (refl, off, rw mine refl, rw mine left)

-- Ending the work on a phase that is well formed returns only if its pointers are those of its state:
-- then no helper is left at work, the state stays, and the phase does not have the writing lock.
-- Otherwise the daemon uses a pointer to an object that was freed: the phase is disabled, is one that is
-- analysed, and has the pointer left to the object of an analysis that was freed.
pub ca_done-CaEnded :
    (c : ℕ) (p : Phase) (s : CaMachine) → CaInv c p s → CaEnded c p s (ca_done c p s)
ca_done-CaEnded c p s v = elim v.tasks_fit [
  | inl fit ↦
      subst (λ t. CaEnded c p s (ca_done c p (record s { tasks = t }))) (sym fit)
        (cancelled c p (ca_tool_of p s.state) s fit v.lock_sound)
  | inr (off, left) ↦
      subst (λ t. CaEnded c p s (ca_done c p (record s { tasks = t }))) (sym left)
        (freed_again c p s (analyzer_of p) refl off left v.lock_sound)
]
