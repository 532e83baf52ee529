-- ===== src/Iterate/Ca/Machine.antt =====
-- What one pass of src/iterate.c over one phase of a CA's data reads and writes, and the steps that
-- its cases are made of. The helpers (fetching of data, hooks, saving and analysis) are seen through a
-- `CaWorld`.
use certmonger.Prelude.{ℕ, Bool, true, false, Option, none, some, List, ◌∷◌, ℤ}
use certmonger.Store.{Ca, CaState, Phase}
use certmonger.Iterate.Lock.{Lock, Outcome, ok, fault, null_pointer, freed_pointer}
use certmonger.Iterate.Machine.{When, soon, no_time}

-- A pointer to a helper's state: NULL, to an object, or to one that was freed.
pub data Pointer : Type 0 where
  unset live freed : Pointer

-- The pointers of `struct cm_ca_state`, by the helper that each belongs to.
pub data CaTool : Type 0 where
  cert_analyze ecert_analyze cadata ca_hook ca_save : CaTool

pub record CaTasks : Type 0 where
  pub cert_analyze_state : Pointer
  pub ecert_analyze_state : Pointer
  pub task_state : Pointer
  pub ca_hook_state : Pointer
  pub ca_save_state : Pointer

-- memset(state, 0, sizeof(*state))
unfoldable pub no_ca_tasks : CaTasks
no_ca_tasks = record {
  cert_analyze_state = unset;
  ecert_analyze_state = unset;
  task_state = unset;
  ca_hook_state = unset;
  ca_save_state = unset;
}

abbrev pub pointer_of : CaTool → CaTasks → Pointer
pointer_of cert_analyze t = t.cert_analyze_state
pointer_of ecert_analyze t = t.ecert_analyze_state
pointer_of cadata t = t.task_state
pointer_of ca_hook t = t.ca_hook_state
pointer_of ca_save t = t.ca_save_state

abbrev pub set_pointer : CaTool → Pointer → CaTasks → CaTasks
set_pointer cert_analyze p t = record t { cert_analyze_state = p }
set_pointer ecert_analyze p t = record t { ecert_analyze_state = p }
set_pointer cadata p t = record t { task_state = p }
set_pointer ca_hook p t = record t { ca_hook_state = p }
set_pointer ca_save p t = record t { ca_save_state = p }

-- The helper functions that are called for an answer: `start` functions answer whether the result
-- is not NULL, the others whether it is 0.
pub data CaCall : Type 0 where
  cadata_start : Phase → CaCall
  cadata_ready cadata_modified cadata_needs_retry cadata_rejected cadata_unreachable : CaCall
  cadata_unsupported cadata_unconfigured : CaCall
  ca_hook_start_presave ca_hook_start_postsave ca_hook_ready : CaCall
  ca_save_start ca_save_ready ca_save_saved ca_save_permissions_error : CaCall
  analyze_start_certs analyze_start_encryption_certs analyze_ready : CaCall

-- What the code outside does during one pass. A helper holds a pointer to the CA and may write its
-- data.
pub record CaWorld : Type 0 where
  -- a helper's answer, and the CA after the call
  pub ca_answer : CaCall → Ca → Bool × Ca
  -- a helper's descriptor; `none` is -1
  pub ca_fd : CaTool → Option ℕ
  -- `cm_cadata_specified_delay` and `cm_ca_analyze_get_delay`
  pub ca_specified_delay : ℤ
  pub analyze_delay : ℤ
  -- whether `emit_ca_changes` is not NULL
  pub listens : Bool

-- What a pass does to the world besides changing memory.
pub data CaEffect : Type 0 where
  stored_ca restarted_entries emitted_ca_changes : CaEffect

-- `*when` and `*delay` are `none` until they are written: the caller leaves both unset.
pub record CaMachine : Type 0 where
  pub lock : Lock
  pub state : CaState
  pub ca : Ca
  pub tasks : CaTasks
  pub when : Option When
  pub delay : Option ℤ
  pub readfd : Option ℕ
  pub effects : List CaEffect

-- Code that works on the machine, and may die.
abbrev pub CaM : Type 0 → Type 0
CaM A = CaMachine → Outcome (A × CaMachine)

infixl 5 ◌>>=◌ ◌>>◌
abbrev pub ◌>>=◌ : {A B : Type 0} → CaM A → (A → CaM B) → CaM B
◌>>=◌ m f s = elim (m s) [ ok (a, t) ↦ f a t | fault e ↦ fault e ]

abbrev pub ◌>>◌ : {A B : Type 0} → CaM A → CaM B → CaM B
m >> k = m >>= λ _. k

-- `if (b) ... else ...`
abbrev pub ca_branch : {A : Type 0} → Bool → CaM A → CaM A → CaM A
ca_branch b m k s = elim b [ true ↦ m s | false ↦ k s ]

abbrev pub ca_modify : (CaMachine → CaMachine) → CaM (Unit {0})
ca_modify f s = ok (tt, f s)

-- ca->cm_ca_state[state->cm_phase] = st
abbrev pub ca_goto : CaState → CaM (Unit {0})
ca_goto st = ca_modify λ s. record s { state = st }

-- *when = w
abbrev pub ca_revisit : When → CaM (Unit {0})
ca_revisit w = ca_modify λ s. record s { when = some w }

-- *delay = d
abbrev pub ca_set_delay : ℤ → CaM (Unit {0})
ca_set_delay d = ca_modify λ s. record s { delay = some d }

abbrev pub ca_emit : CaEffect → CaM (Unit {0})
ca_emit e = ca_modify λ s. record s { effects = e ∷ s.effects }

-- A call of the lock's functions.
abbrev pub ca_on_lock : (Lock → Outcome (Bool × Lock)) → CaM Bool
ca_on_lock f s = elim (f s.lock) [ ok (b, l) ↦ ok (b, record s { lock = l }) | fault e ↦ fault e ]

-- Going on only with a pointer to an object.
abbrev pub ca_deref : CaTool → CaM (Unit {0})
ca_deref tool s = elim (pointer_of tool s.tasks) [
  | live ↦ ok (tt, s)
  | unset ↦ fault null_pointer
  | freed ↦ fault freed_pointer
]

-- X_done(state->X)
abbrev pub ca_free : CaTool → CaM (Unit {0})
ca_free tool = do ca_deref tool; ca_modify λ s. record s { tasks = set_pointer tool freed s.tasks }

-- X_done(state->X); state->X = NULL
abbrev pub ca_finish : CaTool → CaM (Unit {0})
ca_finish tool = do ca_free tool; ca_modify λ s. record s { tasks = set_pointer tool unset s.tasks }

module _ (w : CaWorld) where
  -- A call for an answer.
  abbrev pub ca_ask : CaCall → CaM Bool
  ca_ask c s = let (b, d) = w.ca_answer c s.ca in ok (b, record s { ca = d })

  -- state->X = X_start(...), and whether that is not NULL
  abbrev pub ca_start : CaTool → CaCall → CaM Bool
  ca_start tool c s =
      let (b, d) = w.ca_answer c s.ca in
      ok (
        b,
        record s {
          ca = d;
          tasks = set_pointer tool (elim b [ true ↦ live | false ↦ unset ]) s.tasks;
        },
      )

  -- A call on state->X.
  abbrev pub ca_check : CaTool → CaCall → CaM Bool
  ca_check tool c = do ca_deref tool; ca_ask c

  -- "Wait for status update, or poll."
  abbrev pub ca_watch : CaTool → CaM (Unit {0})
  ca_watch tool = do
    ca_deref tool
    ca_modify λ s. record s {
      readfd = w.ca_fd tool;
      when = elim (w.ca_fd tool) [ none ↦ some soon | some n ↦ some no_time ];
    }

  -- If the helper is ready go on with `body`, else wait for it.
  unfoldable pub ca_poll : CaTool → CaCall → CaM (Unit {0}) → CaM (Unit {0})
  ca_poll tool ready body = do
    is_ready ← ca_check tool ready
    ca_branch is_ready body (ca_watch tool)

  -- One rung of a ladder of questions to a helper.
  unfoldable pub ca_when : CaTool → CaCall → CaM (Unit {0}) → CaM (Unit {0}) → CaM (Unit {0})
  ca_when tool question body others = do
    answer ← ca_check tool question
    ca_branch answer body others

  -- Start a hook, which may be left out: without it, move straight to `skipped`.
  unfoldable pub ca_launch_or_skip : CaTool → CaCall → CaState → CaState → CaM (Unit {0})
  ca_launch_or_skip tool call next skipped = do
    started ← ca_start tool call
    ca_branch started (do ca_goto next; ca_watch tool) (do ca_goto skipped; ca_revisit When.now)

-- Done with a helper: move on.
unfoldable pub ca_settle : CaTool → CaState → When → CaM (Unit {0})
ca_settle tool next at = do ca_finish tool; ca_goto next; ca_revisit at
