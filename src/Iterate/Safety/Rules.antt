-- ===== src/Iterate/Safety/Rules.antt =====
-- Rules for the shapes of Iterate/Steps.antt: what they leave satisfies a predicate, if what they
-- lead on to does. A predicate is of the machine that is left.
use certmonger.Prelude.{Bool, ℕ, ◌≡◌, refl, true, false, none, some, arith}
use certmonger.Store.{State, Details}
use certmonger.Iterate.Lock.{
  ok, fault, Outcome, entry_holder, lock_by_entry, unlock_by_entry, has_lock,
}
use certmonger.Iterate.Machine.{
  World, Tool, Tasks, keygen, Call, When, soon, no_time, Machine, M, is_running, finish, deref,
  branch, start, ◌>>=◌, ◌>>◌, set_running, soonish,
}
use certmonger.Iterate.Steps.{
  launch, launch_or_skip, poll, when, settle, take_lock, release_lock, hold_lock,
}
use certmonger.Iterate.Safety.Invariant.{Ensures, holds, phase_fits}

-- `m` returns from `s`, and leaves a machine that satisfies `P`.
abbrev pub Sure : (Machine → Type 0) → M (Unit {0}) → Machine → Type 0
Sure P m s = Ensures (λ r. P r.1) (m s)

abbrev pub with_details : Machine → Details → Machine
with_details s d = record s { details = d }

-- Waiting for a helper.
abbrev pub watching : World → Tool → Machine → Machine
watching w tool s = record s {
  readfd = w.fd tool;
  when = elim (w.fd tool) [ none ↦ soon | some n ↦ no_time ];
}

module _ (P : Machine → Type 0) (w : World) (tool : Tool) (s : Machine)
    (running : is_running tool s.tasks ≡ true) where
  pub when_rule :
      (question : Call) (body others : M (Unit {0}))
      → ((d : Details) → Sure P body (with_details s d))
      → ((d : Details) → Sure P others (with_details s d))
      → Sure P (when w tool question body others) s
  unfolding when
  when_rule question body others hb ho =
      let d : Details = (w.answer question s.details).1 in ground (arith, hb d, ho d)

  pub poll_rule :
      (ready : Call) (body : M (Unit {0}))
      → ((d : Details) → Sure P body (with_details s d))
      → ((d : Details) → P (watching w tool (with_details s d)))
      → Sure P (poll w tool ready body) s
  unfolding poll
  poll_rule ready body hb hw =
      let d : Details = (w.answer ready s.details).1 in ground (arith, hb d, hw d)

  pub deref_rule : (k : M (Unit {0})) → Sure P k s → Sure P (deref tool >> k) s
  deref_rule k h = ground arith

  pub finish_rule :
      (k : M (Unit {0}))
      → ((d : Details)
          → Sure P k (record s { details = d; tasks = set_running tool false s.tasks }))
      → Sure P (finish w tool >> k) s
  finish_rule k h = ground (arith, h (w.done tool s.details))

  pub settle_rule :
      (next : State) (at : When)
      → ((d : Details)
          → P (record s {
            details = d;
            tasks = set_running tool false s.tasks;
            state = next;
            when = at;
          }))
      → Sure P (settle w tool next at) s
  unfolding settle
  settle_rule next at h = ground (arith, h (w.done tool s.details))

is_running-set : (tool : Tool) (t : Tasks) → is_running tool (set_running tool true t) ≡ true
is_running-set keygen t = refl
is_running-set _ t = refl

-- The same for two ways to go on, whichever is taken.
pub branch_rule :
    (P : Machine → Type 0) (b : Bool) (x y : Outcome (Unit {0} × Machine))
    → Ensures (λ r. P r.1) x
    → Ensures (λ r. P r.1) y
    → Ensures (λ r. P r.1) (elim b [ true ↦ x | false ↦ y ])
branch_rule P true x y hx hy = hx
branch_rule P false x y hx hy = hy

-- The two ways on from an attempt to start a helper.
pub start_rule :
    (P : Machine → Type 0) (w : World) (tool : Tool) (call : Call) (m k : M (Unit {0}))
    (s : Machine)
    → (let d = (w.answer call s.details).1 in
        Sure P m (record s { details = d; tasks = set_running tool true s.tasks }))
    → (let d = (w.answer call s.details).1 in
        Sure P k (record s { details = d; tasks = set_running tool false s.tasks }))
    → Sure P (start w tool call >>= λ b. branch b m k) s
start_rule P w tool call m k s hm hk = ground (arith, hm, hk)

module _ (P : Machine → Type 0) (w : World) (s : Machine) where
  pub launch_rule :
      (tool : Tool) (call : Call) (next : State)
      → ((d : Details)
          → P (
              watching w tool
                (record s { details = d; tasks = set_running tool true s.tasks; state = next })))
      → ((d : Details)
          → P (record s { details = d; tasks = set_running tool false s.tasks; when = soonish }))
      → Sure P (launch w tool call next) s
  unfolding launch
  launch_rule tool call next hs hf =
      let d : Details = (w.answer call s.details).1 in
      ground (arith, hs d, hf d, is_running-set tool s.tasks)

  pub launch_or_skip_rule :
      (tool : Tool) (call : Call) (next skipped : State)
      → ((d : Details)
          → P (
              watching w tool
                (record s { details = d; tasks = set_running tool true s.tasks; state = next })))
      → ((d : Details)
          → P (record s {
            details = d;
            tasks = set_running tool false s.tasks;
            state = skipped;
            when = When.now;
          }))
      → Sure P (launch_or_skip w tool call next skipped) s
  unfolding launch_or_skip
  launch_or_skip_rule tool call next skipped hs hf =
      let d : Details = (w.answer call s.details).1 in
      ground (arith, hs d, hf d, is_running-set tool s.tasks)

-- The machine after the lock was taken, and after it was given back.
abbrev pub with_lock : ℕ → Machine → Machine
with_lock e s = record s { lock = record s.lock { holder = some (entry_holder e) } }

abbrev pub without_lock : Machine → Machine
without_lock s = record s { lock = record s.lock { holder = none } }

module _ (P : Machine → Type 0) (e : ℕ) (s : Machine) (body : M (Unit {0})) where
  pub take_lock_rule :
      holds e s.lock ≡ false
      → (s.lock.holder ≡ none → Sure P body (with_lock e s))
      → P (record s { when = soon })
      → Sure P (take_lock e body) s
  unfolding take_lock lock_by_entry
  take_lock_rule free ht hw = ground arith

  pub release_lock_rule :
      holds e s.lock ≡ true → Sure P body (without_lock s) → Sure P (release_lock e body) s
  unfolding release_lock unlock_by_entry
  release_lock_rule mine h = ground arith

  pub hold_lock_rule :
      phase_fits s.lock.holder s.lock.phase ≡ true
      → (holds e s.lock ≡ true → Sure P body s)
      → (s.lock.holder ≡ none → Sure P body (with_lock e s))
      → P (record s { when = soon })
      → Sure P (hold_lock e body) s
  unfolding hold_lock take_lock lock_by_entry has_lock phase_fits
  hold_lock_rule sound hm ht hw = ground arith

module _ (P : Machine → Type 0) (k : M (Unit {0})) where
  after_rule :
      (o : Outcome (Unit {0} × Machine))
      → Ensures (λ r. Sure P k r.1) o
      → Ensures (λ r. P r.1) (elim o [ ok (u, t) ↦ k t | fault f ↦ fault f ])
  after_rule (ok (u, t)) h = h
  after_rule (fault f) h = absurd h

  -- One thing after another.
  pub bind_rule : (m : M (Unit {0})) (s : Machine) → Sure (Sure P k) m s → Sure P (m >> k) s
  bind_rule m s h = after_rule (m s) h

module _ (P Q : Machine → Type 0) (weaker : (t : Machine) → P t → Q t) where
  weaker_rule :
      (o : Outcome (Unit {0} × Machine))
      → Ensures {A = Unit {0} × Machine} (λ r. P r.1) o
      → Ensures {A = Unit {0} × Machine} (λ r. Q r.1) o
  weaker_rule (ok (u, t)) h = weaker t h
  weaker_rule (fault f) h = h

  -- What satisfies more satisfies less.
  pub imply_rule : (m : M (Unit {0})) (s : Machine) → Sure P m s → Sure Q m s
  imply_rule m s h = weaker_rule (m s) h
