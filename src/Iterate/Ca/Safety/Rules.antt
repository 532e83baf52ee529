-- ===== src/Iterate/Ca/Safety/Rules.antt =====
-- Rules for the outcomes of the cases of `cm_iterate_ca` in src/iterate.c.
use certmonger.Prelude.{ℕ, Bool, true, false, Option, none, some, ◌≡◌, inl, inr, refl, [], arith}
use certmonger.Store.{Ca, CaState, Phase}
use certmonger.Iterate.Lock.{Lock, Outcome, ok, ca_holder, same_phase, is_held_by, same_holder}
use certmonger.Iterate.Machine.{When, soon, no_time}
use certmonger.Iterate.Ca.Machine.{
  CaTool, CaCall, CaTasks, CaMachine, CaWorld, CaM, ◌>>◌, ◌>>=◌, Pointer, cert_analyze,
  ecert_analyze, cadata, ca_hook, ca_save, ca_branch, ca_on_lock, ca_start, ca_when, ca_poll,
  ca_launch_or_skip, pointer_of, set_pointer, live, unset,
}
use certmonger.Iterate.Safety.Invariant.{Ensures, phase_fits}
use certmonger.Iterate.Ca.Safety.{
  ca_holds, needs_lock, may_be, ca_leads, ca_wakes, CaPost, FitTasks,
}

-- `m` returns from `s`, and leaves a machine that satisfies `P`.
abbrev pub CaSure : (CaMachine → Type 0) → CaM (Unit {0}) → CaMachine → Type 0
CaSure P m s = Ensures {A = Unit {0} × CaMachine} (λ r. P r.1) (m s)

pub ca_watched :
    (fd : Option ℕ) (st : CaState)
    → ca_wakes (elim fd [ none ↦ some soon | some n ↦ some no_time ]) fd st ≡ true
ca_watched none st = refl
ca_watched (some n) st = refl

pub ca_after :
    (P : CaMachine → Type 0) (m k : CaM (Unit {0})) (s : CaMachine)
    → CaSure (λ t. CaSure P k t) m s
    → CaSure P (do m; k) s
ca_after P m k s h = ground (arith, h)

pub by_answer :
    (P : CaMachine → Type 0) (b : Bool) (x y : Outcome (Unit {0} × CaMachine))
    → Ensures {A = Unit {0} × CaMachine} (λ r. P r.1) x
    → Ensures {A = Unit {0} × CaMachine} (λ r. P r.1) y
    → Ensures {A = Unit {0} × CaMachine} (λ r. P r.1) (elim b [ true ↦ x | false ↦ y ])
by_answer P true x y hx hy = hx
by_answer P false x y hx hy = hy

pub ca_branch_rule :
    (P : CaMachine → Type 0) (b : Bool) (m k : CaM (Unit {0})) (s : CaMachine)
    → CaSure P m s
    → CaSure P k s
    → CaSure P (ca_branch b m k) s
ca_branch_rule P true m k s hm hk = hm
ca_branch_rule P false m k s hm hk = hk

abbrev pub with_ca : CaMachine → Ca → CaMachine
with_ca s d = record s { ca = d }

-- Waiting for a helper.
abbrev pub ca_watching : CaWorld → CaTool → CaMachine → CaMachine
ca_watching w tool s = record s {
  readfd = w.ca_fd tool;
  when = elim (w.ca_fd tool) [ none ↦ some soon | some n ↦ some no_time ];
}

abbrev pub with_tool : CaTool → Pointer → CaMachine → CaMachine
with_tool tool x s = record s { tasks = set_pointer tool x s.tasks }

module _ (P : CaMachine → Type 0) (w : CaWorld) (tool : CaTool) (s : CaMachine)
    (at : pointer_of tool s.tasks ≡ live) where
  pub ca_when_rule :
      (question : CaCall) (body others : CaM (Unit {0}))
      → ((d : Ca) → CaSure P body (with_ca s d))
      → ((d : Ca) → CaSure P others (with_ca s d))
      → CaSure P (ca_when w tool question body others) s
  unfolding ca_when
  ca_when_rule question body others hb ho =
      let d : Ca = (w.ca_answer question s.ca).1 in ground (arith, hb d, ho d)

  pub ca_poll_rule :
      (ready : CaCall) (body : CaM (Unit {0}))
      → ((d : Ca) → CaSure P body (with_ca s d))
      → ((d : Ca) → P (ca_watching w tool (with_ca s d)))
      → CaSure P (ca_poll w tool ready body) s
  unfolding ca_poll
  ca_poll_rule ready body hb hw =
      let d : Ca = (w.ca_answer ready s.ca).1 in ground (arith, hb d, hw d)

pointer_of-set_pointer :
    (tool : CaTool) (x : Pointer) (t : CaTasks) → pointer_of tool (set_pointer tool x t) ≡ x
pointer_of-set_pointer cert_analyze x t = refl
pointer_of-set_pointer ecert_analyze x t = refl
pointer_of-set_pointer cadata x t = refl
pointer_of-set_pointer ca_hook x t = refl
pointer_of-set_pointer ca_save x t = refl

pub ca_on_lock_rule :
    (P : CaMachine → Type 0) (f : Lock → Outcome (Bool × Lock)) (b : Bool) (l : Lock)
    (s : CaMachine) (k : Bool → CaM (Unit {0}))
    → f s.lock ≡ ok (b, l)
    → CaSure P (k b) (record s { lock = l })
    → CaSure P (do r ← ca_on_lock f; k r) s
ca_on_lock_rule P f b l s k run h = ground (arith, run, h)

-- The two ways on from an attempt to start a helper.
module _ (P : CaMachine → Type 0) (w : CaWorld) (tool : CaTool) (call : CaCall)
    (s : CaMachine) where
  pub ca_start_rule :
      (m k : CaM (Unit {0}))
      → ((d : Ca) → CaSure P m (with_tool tool live (with_ca s d)))
      → ((d : Ca) → CaSure P k (with_tool tool unset (with_ca s d)))
      → CaSure P (do started ← ca_start w tool call; ca_branch started m k) s
  ca_start_rule m k hm hk = let d : Ca = (w.ca_answer call s.ca).1 in ground (arith, hm d, hk d)

  pub ca_launch_or_skip_rule :
      (next skipped : CaState)
      → ((d : Ca)
          → P (ca_watching w tool (record (with_tool tool live (with_ca s d)) { state = next })))
      → ((d : Ca)
          → P (record (with_tool tool unset (with_ca s d)) {
            state = skipped;
            when = some When.now;
          }))
      → CaSure P (ca_launch_or_skip w tool call next skipped) s
  unfolding ca_launch_or_skip
  ca_launch_or_skip_rule next skipped hs hf =
      let d : Ca = (w.ca_answer call s.ca).1 in
      ground (arith, hs d, hf d, pointer_of-set_pointer tool live s.tasks)

-- A machine at the beginning of a pass.
abbrev pub ca_at : CaState → CaTasks → Lock → Ca → CaMachine
ca_at st t l ca = record {
  lock = l;
  state = st;
  ca = ca;
  tasks = t;
  when = none;
  delay = none;
  readfd = none;
  effects = [];
}

same_phase-same : (p : Phase) → same_phase p p ≡ true
unfolding same_phase
same_phase-same Phase.identify = refl
same_phase-same _ = refl

holding :
    (c : ℕ) (p : Phase) → ca_holds c p record { holder = some (ca_holder c); phase = p } ≡ true
unfolding is_held_by same_holder
holding c p = ground (arith, same_phase-same p)

module _ (c : ℕ) (p : Phase) (st : CaState) (l : Lock) (proper : same_phase p Phase.invalid ≡ false)
    (sound : phase_fits l.holder l.phase ≡ true) (exact : ca_holds c p l ≡ needs_lock st) where
  -- A pass that left the lock alone.
  pub kept :
      (t : CaMachine)
      → t.lock ≡ l
      → needs_lock t.state ≡ needs_lock st
      → FitTasks p t.state t.tasks
      → may_be p t.state ≡ true
      → ca_leads st t.state ≡ true
      → ca_wakes t.when t.readfd t.state ≡ true
      → CaPost c p st l t
  kept t same need fit allowed edge wake = record {
    inv = record {
      proper = proper;
      lock_sound = rw same sound;
      lock_exact = rw (same, need) exact;
      tasks_fit = fit;
      state_fits = allowed;
    };
    lock_move = inl same;
    edge = edge;
    wake = wake;
  }

  -- A pass that took the lock while it was free.
  pub took :
      (t : CaMachine)
      → l.holder ≡ none
      → t.lock ≡ record { holder = some (ca_holder c); phase = p }
      → needs_lock t.state ≡ true
      → FitTasks p t.state t.tasks
      → may_be p t.state ≡ true
      → ca_leads st t.state ≡ true
      → ca_wakes t.when t.readfd t.state ≡ true
      → CaPost c p st l t
  unfolding phase_fits is_held_by same_holder
  took t free now need fit allowed edge wake = record {
    inv = record {
      proper = proper;
      lock_sound = rw (now, proper) refl;
      lock_exact = rw (now, need) (holding c p);
      tasks_fit = fit;
      state_fits = allowed;
    };
    lock_move = inr (inl (free, now));
    edge = edge;
    wake = wake;
  }

  -- A pass that gave the lock back.
  pub gave :
      (t : CaMachine)
      → ca_holds c p l ≡ true
      → t.lock ≡ record { holder = none; phase = Phase.invalid }
      → needs_lock t.state ≡ false
      → FitTasks p t.state t.tasks
      → may_be p t.state ≡ true
      → ca_leads st t.state ≡ true
      → ca_wakes t.when t.readfd t.state ≡ true
      → CaPost c p st l t
  unfolding phase_fits is_held_by same_phase
  gave t mine now need fit allowed edge wake = record {
    inv = record {
      proper = proper;
      lock_sound = rw now refl;
      lock_exact = rw (now, need) refl;
      tasks_fit = fit;
      state_fits = allowed;
    };
    lock_move = inr (inr (mine, now));
    edge = edge;
    wake = wake;
  }
