-- ===== src/Iterate/Ca/Safety.antt =====
-- src/iterate.c: what makes one phase of a CA's data well formed between two passes over it.
pub mod Rules
pub mod Fetching
pub mod Saving
pub mod Passes
pub mod Lifecycle
use certmonger.Prelude.{
  ℕ, Bool, true, false, not, ◌&&◌, ◌||◌, Option, none, some, is_some, ◌≡◌, ◌⊎◌, List, [], ◌∷◌, ◌==◌,
  any,
}
use certmonger.Store.{
  Ca, CaState, Phase, idle, need_to_refresh, refreshing, data_unreachable, need_to_save_data,
  pre_save_data, start_saving_data, saving_data, need_post_save_data, post_save_data, saved_data,
  need_to_analyze, analyzing, disabled, ca_state_value, certs, encryption_certs,
}
use certmonger.Iterate.Lock.{Lock, Holder, ca_holder, is_held_by, same_phase}
use certmonger.Iterate.Machine.{When, no_time}
use certmonger.Iterate.Ca.Machine.{
  CaTool, cert_analyze, ecert_analyze, cadata, ca_hook, ca_save, CaTasks, no_ca_tasks, set_pointer,
  live, freed, CaMachine,
}
use certmonger.Iterate.Safety.Invariant.{phase_fits}
use certmonger.Iterate.Safety.Outcome.{is_no_time}

-- Whether the lock is held for a phase of a CA.
abbrev pub ca_holds : ℕ → Phase → Lock → Bool
ca_holds c p l = is_held_by l.holder (ca_holder c) && same_phase l.phase p

-- Whether a state goes with the lock.
abbrev pub needs_lock : CaState → Bool
needs_lock pre_save_data = true
needs_lock start_saving_data = true
needs_lock saving_data = true
needs_lock need_post_save_data = true
needs_lock post_save_data = true
needs_lock saved_data = true
needs_lock _ = false

-- The phases whose data are certificates, which are analysed, with the helper that does so.
abbrev pub analyzer_of : Phase → Option CaTool
analyzer_of certs = some cert_analyze
analyzer_of encryption_certs = some ecert_analyze
analyzer_of _ = none

-- The helper that is at work in a state.
abbrev pub ca_tool_of : Phase → CaState → Option CaTool
ca_tool_of p refreshing = some cadata
ca_tool_of p pre_save_data = some ca_hook
ca_tool_of p saving_data = some ca_save
ca_tool_of p post_save_data = some ca_hook
ca_tool_of p analyzing = analyzer_of p
ca_tool_of p _ = none

unfoldable pub ca_tasks_for : Option CaTool → CaTasks
unfolding no_ca_tasks
ca_tasks_for none = no_ca_tasks
ca_tasks_for (some tool) = set_pointer tool live no_ca_tasks

-- The pointers when an analysis had no descriptor: one is to an object that was freed.
unfoldable pub dangling : Option CaTool → CaTasks
unfolding no_ca_tasks
dangling none = no_ca_tasks
dangling (some tool) = set_pointer tool freed no_ca_tasks

-- An analysis is at work only for a phase that has one.
abbrev pub may_be : Phase → CaState → Bool
may_be p analyzing = is_some (analyzer_of p)
may_be p _ = true

-- Exactly the helper of the state is at work, or the state is `disabled` and a pointer dangles.
abbrev pub FitTasks : Phase → CaState → CaTasks → Type 0
FitTasks p st t =
    (t ≡ ca_tasks_for (ca_tool_of p st)) ⊎ ((st ≡ disabled) × (t ≡ dangling (analyzer_of p)))

-- Between two passes over the phase `p` of the CA at `c`.
pub record CaInv (c : ℕ) (p : Phase) (s : CaMachine) : Type 0 where
  pub proper : same_phase p Phase.invalid ≡ false
  pub lock_sound : phase_fits s.lock.holder s.lock.phase ≡ true
  pub lock_exact : ca_holds c p s.lock ≡ needs_lock s.state
  pub tasks_fit : FitTasks p s.state s.tasks
  pub state_fits : may_be p s.state ≡ true

-- What a pass may do to the lock: nothing, take it while it is free, or give it up.
abbrev pub CaLockMove : ℕ → Phase → Lock → Lock → Type 0
CaLockMove c p l l' =
    (l' ≡ l)
    ⊎ (((l.holder ≡ none) × (l' ≡ record { holder = some (ca_holder c); phase = p }))
        ⊎ ((ca_holds c p l ≡ true) × (l' ≡ record { holder = none; phase = Phase.invalid })))

-- The states that the cases lead to, besides staying.
abbrev pub ca_next : CaState → List CaState
ca_next need_to_refresh = refreshing ∷ disabled ∷ []
ca_next refreshing =
    need_to_save_data ∷ need_to_analyze ∷ need_to_refresh ∷ idle ∷ data_unreachable ∷ disabled ∷ []
ca_next data_unreachable = need_to_refresh ∷ []
ca_next need_to_save_data = pre_save_data ∷ start_saving_data ∷ []
ca_next pre_save_data = start_saving_data ∷ []
ca_next start_saving_data = saving_data ∷ []
ca_next saving_data = need_post_save_data ∷ []
ca_next need_post_save_data = post_save_data ∷ saved_data ∷ []
ca_next post_save_data = saved_data ∷ []
ca_next saved_data = need_to_analyze ∷ []
ca_next need_to_analyze = analyzing ∷ idle ∷ disabled ∷ []
ca_next analyzing = need_to_refresh ∷ idle ∷ []
ca_next idle = []
ca_next disabled = []

abbrev pub ca_leads : CaState → CaState → Bool
ca_leads a b =
    ca_state_value a == ca_state_value b
    || any (λ x. ca_state_value x == ca_state_value b) (ca_next a)

-- The states in which a pass may leave `*when` without a value.
abbrev pub may_be_silent : CaState → Bool
may_be_silent start_saving_data = true
may_be_silent disabled = true
may_be_silent _ = false

abbrev pub rests : CaState → Bool
rests idle = true
rests disabled = true
rests _ = false

-- Something will bring the daemon back, or the phase is at rest, or `*when` has no value.
abbrev pub ca_wakes : Option When → Option ℕ → CaState → Bool
ca_wakes none fd st = may_be_silent st
ca_wakes (some at) fd st = not (is_no_time at) || (is_some fd || rests st)

-- The machine `t` after a pass that began in the state `st` with the lock `l`.
pub record CaPost (c : ℕ) (p : Phase) (st : CaState) (l : Lock) (t : CaMachine) : Type 0 where
  pub inv : CaInv c p t
  pub lock_move : CaLockMove c p l t.lock
  pub edge : ca_leads st t.state ≡ true
  pub wake : ca_wakes t.when t.readfd t.state ≡ true
