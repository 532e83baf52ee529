-- ===== src/Iterate/Machine.antt =====
-- What one pass of src/iterate.c over an entry reads and writes, and the steps that its cases are
-- made of. The helpers that do the work in child processes (key generation, CSR generation,
-- submission, saving, reading, hooks, notifications) are seen through a `World`.
use certmonger.Prelude.{ℕ, Bool, true, false, Option, none, some, List, ◌∷◌, Text, ℤ}
use certmonger.Store.{State, Details, Ca}
use certmonger.Iterate.Lock.{Lock, Outcome, ok, fault, null_pointer}

-- The pointers of `struct cm_entry_state`, by the helper that each belongs to.
pub data Tool : Type 0 where
  keygen keyiread csrgen scepgen submit certsave hook certread notify casave : Tool

-- `struct cm_entry_state`: which of its pointers are not NULL.
pub record Tasks : Type 0 where
  pub keygen_state : Bool
  pub keyiread_state : Bool
  pub csrgen_state : Bool
  pub scepgen_state : Bool
  pub submit_state : Bool
  pub certsave_state : Bool
  pub hook_state : Bool
  pub certread_state : Bool
  pub notify_state : Bool
  pub casave_state : Bool

-- memset(state, 0, sizeof(*state))
unfoldable pub no_tasks : Tasks
no_tasks = record {
  keygen_state = false;
  keyiread_state = false;
  csrgen_state = false;
  scepgen_state = false;
  submit_state = false;
  certsave_state = false;
  hook_state = false;
  certread_state = false;
  notify_state = false;
  casave_state = false;
}

abbrev pub is_running : Tool → Tasks → Bool
is_running keygen t = t.keygen_state
is_running keyiread t = t.keyiread_state
is_running csrgen t = t.csrgen_state
is_running scepgen t = t.scepgen_state
is_running submit t = t.submit_state
is_running certsave t = t.certsave_state
is_running hook t = t.hook_state
is_running certread t = t.certread_state
is_running notify t = t.notify_state
is_running casave t = t.casave_state

abbrev pub set_running : Tool → Bool → Tasks → Tasks
set_running keygen b t = record t { keygen_state = b }
set_running keyiread b t = record t { keyiread_state = b }
set_running csrgen b t = record t { csrgen_state = b }
set_running scepgen b t = record t { scepgen_state = b }
set_running submit b t = record t { submit_state = b }
set_running certsave b t = record t { certsave_state = b }
set_running hook b t = record t { hook_state = b }
set_running certread b t = record t { certread_state = b }
set_running notify b t = record t { notify_state = b }
set_running casave b t = record t { casave_state = b }

-- `enum cm_notify_event`, as far as entries are concerned
pub data NotifyEvent : Type 0 where
  validity_ending rejected issued_not_saved issued_ca_not_saved issued_and_saved : NotifyEvent
  ca_not_saved : NotifyEvent

-- The helper functions that `cm_iterate_entry` calls for an answer: `_start` functions answer
-- whether the result is not NULL, the others whether it is 0.
pub data Call : Type 0 where
  keygen_start keygen_ready keygen_saved_keypair keygen_need_perms keygen_need_token : Call
  keygen_need_pin : Call
  keyiread_start keyiread_ready keyiread_finished_reading keyiread_need_token : Call
  keyiread_need_pin : Call
  csrgen_start csrgen_ready csrgen_save_csr csrgen_need_token csrgen_need_pin : Call
  scepgen_start scepgen_ready scepgen_save_scep scepgen_need_token scepgen_need_pin : Call
  scepgen_need_encryption_certs scepgen_need_different_key_type : Call
  submit_start submit_ready submit_issued submit_rejected submit_unreachable : Call
  submit_save_ca_cookie submit_unconfigured submit_need_scep_messages submit_need_rekey : Call
  hook_start_presave hook_start_postsave hook_ready : Call
  certsave_start certsave_ready certsave_saved certsave_permissions_error : Call
  certsave_token_error certsave_pin_error : Call
  certread_start certread_ready certread_finished_reading : Call
  notify_start : NotifyEvent → Call
  notify_ready : Call
  casave_start casave_ready casave_saved casave_permissions_error : Call

-- What the code outside this file does during one pass. A helper holds a pointer to the entry and
-- may write any of its fields but the state.
pub record World : Type 0 where
  -- a helper's answer, and the entry after the call
  pub answer : Call → Details → Bool × Details
  -- the entry after the `_done` function of a helper
  pub done : Tool → Details → Details
  -- a helper's descriptor; `none` is -1
  pub fd : Tool → Option ℕ
  -- `cm_submit_specified_delay`
  pub specified_delay : ℤ
  -- the clock, when the pass begins and where it is read again
  pub now : ℕ
  pub now_submitted : ℕ
  pub now_notify : ℕ
  pub now_enroll : ℕ
  pub now_rekey : ℕ
  -- `cm_prefs_notify_ttls`, `cm_prefs_enroll_ttls`; `none` is a result that is not 0
  pub notify_ttls : Option (List ℕ)
  pub enroll_ttls : Option (List ℕ)
  -- `prefs_key_end_of_life`, `none` if negative, and `prefs_max_key_use_count`
  pub key_end_of_life : ℕ → Option ℕ
  pub max_key_use_count : ℤ
  -- `cm_prefs_default_ca`
  pub default_ca : Option Text
  -- `get_n_cas` and `get_ca_by_index`
  pub cas : List Ca

-- `enum cm_time`
pub data When : Type 0 where
  now soon soonish delayed no_time : When

-- What a pass does to the world besides changing memory.
pub data Effect : Type 0 where
  emitted_saved_cert saved_ca saved_entry emitted_changes : Effect

pub record Machine : Type 0 where
  pub lock : Lock
  pub state : State
  pub details : Details
  pub tasks : Tasks
  pub ca : Option Ca
  pub when : When
  pub delay : ℤ
  pub readfd : Option ℕ
  pub effects : List Effect

-- Code that works on the machine, and may die.
abbrev pub M : Type 0 → Type 0
M A = Machine → Outcome (A × Machine)

infixl 5 ◌>>=◌ ◌>>◌
abbrev pub ◌>>=◌ : {A B : Type 0} → M A → (A → M B) → M B
◌>>=◌ m f s = elim (m s) [ ok (a, t) ↦ f a t | fault e ↦ fault e ]

abbrev pub ◌>>◌ : {A B : Type 0} → M A → M B → M B
m >> k = m >>= λ _. k

-- `if (b) ... else ...`
abbrev pub branch : {A : Type 0} → Bool → M A → M A → M A
branch b m k s = elim b [ true ↦ m s | false ↦ k s ]

abbrev pub modify : (Machine → Machine) → M (Unit {0})
modify f s = ok (tt, f s)

abbrev pub get_details : M Details
get_details s = ok (s.details, s)

abbrev pub set_details : (Details → Details) → M (Unit {0})
set_details f = modify λ s. record s { details = f s.details }

-- entry->cm_state = st
abbrev pub goto : State → M (Unit {0})
goto st = modify λ s. record s { state = st }

-- *when = w
abbrev pub revisit : When → M (Unit {0})
revisit w = modify λ s. record s { when = w }

-- *delay = d
abbrev pub set_delay : ℤ → M (Unit {0})
set_delay d = modify λ s. record s { delay = d }

abbrev pub emit : Effect → M (Unit {0})
emit e = modify λ s. record s { effects = e ∷ s.effects }

-- A call of the lock's functions.
abbrev pub on_lock : (Lock → Outcome (Bool × Lock)) → M Bool
on_lock f s = elim (f s.lock) [ ok (b, l) ↦ ok (b, record s { lock = l }) | fault e ↦ fault e ]

-- Going on only with a pointer that is not NULL.
abbrev pub deref : Tool → M (Unit {0})
deref tool s = elim (is_running tool s.tasks) [ true ↦ ok (tt, s) | false ↦ fault null_pointer ]

module _ (w : World) where
  -- A call for an answer.
  abbrev pub ask : Call → M Bool
  ask c s = let (b, d) = w.answer c s.details in ok (b, record s { details = d })

  -- state->X = X_start(...), and whether that is not NULL
  abbrev pub start : Tool → Call → M Bool
  start tool c s =
      let (b, d) = w.answer c s.details in
      ok (b, record s { details = d; tasks = set_running tool b s.tasks })

  -- A call on state->X.
  abbrev pub check : Tool → Call → M Bool
  check tool c = do deref tool; ask c

  -- X_done(state->X); state->X = NULL
  abbrev pub finish : Tool → M (Unit {0})
  finish tool = do
    deref tool
    modify λ s. record s { details = w.done tool s.details; tasks = set_running tool false s.tasks }

  -- "Wait for status update, or poll."
  abbrev pub watch : Tool → M (Unit {0})
  watch tool = do
    deref tool
    modify λ s. record s {
      readfd = w.fd tool;
      when = elim (w.fd tool) [ none ↦ soon | some n ↦ no_time ];
    }
