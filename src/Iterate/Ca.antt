-- ===== src/Iterate/Ca.antt =====
-- src/iterate.c, `cm_iterate_ca`: one pass over one phase of a CA's data, its set-up and its end.
pub mod Machine
pub mod Phases
pub mod Safety
use certmonger.Prelude.{ℕ, Bool, ◌==◌, none, []}
use certmonger.Store.{
  CaState, Phase, idle, need_to_refresh, refreshing, data_unreachable, need_to_save_data,
  pre_save_data, start_saving_data, saving_data, need_post_save_data, post_save_data, saved_data,
  need_to_analyze, analyzing, disabled, ca_state_value,
}
use certmonger.Iterate.Lock.{ca_holder, has_lock, unlock_by_ca}
use certmonger.Iterate.Machine.{soonish, no_time}
use Machine.{
  CaWorld, CaTool, cert_analyze, ecert_analyze, cadata, ca_hook, ca_save, Pointer, unset, live,
  freed, pointer_of, CaMachine, CaM, no_ca_tasks, ◌>>=◌, ◌>>◌, ca_branch, ca_modify, ca_goto,
  ca_revisit, ca_emit, ca_finish, ca_on_lock, stored_ca, emitted_ca_changes,
}
use Phases.{
  on_need_to_refresh, on_refreshing, on_need_to_save_data, on_pre_save_data, on_start_saving_data,
  on_saving_data, on_need_post_save_data, on_post_save_data, on_saved_data, on_need_to_analyze,
  on_analyzing,
}

-- The switch of `cm_iterate_ca`.
unfoldable pub ca_dispatch : CaWorld → ℕ → Phase → CaState → CaM (Unit {0})
ca_dispatch w c p need_to_refresh = on_need_to_refresh w p
ca_dispatch w c p refreshing = on_refreshing w p
ca_dispatch w c p need_to_save_data = on_need_to_save_data w c p
ca_dispatch w c p pre_save_data = on_pre_save_data w
ca_dispatch w c p start_saving_data = on_start_saving_data w
ca_dispatch w c p saving_data = on_saving_data w
ca_dispatch w c p need_post_save_data = on_need_post_save_data w
ca_dispatch w c p post_save_data = on_post_save_data w
ca_dispatch w c p saved_data = on_saved_data c p
ca_dispatch w c p need_to_analyze = on_need_to_analyze w p
ca_dispatch w c p analyzing = on_analyzing w p
ca_dispatch w c p data_unreachable = do ca_goto need_to_refresh; ca_revisit soonish
ca_dispatch w c p idle = ca_revisit no_time
ca_dispatch w c p disabled = ca_revisit no_time

-- A pass begins with `*when` and `*delay` as the caller left them, without a value.
unfoldable pub ca_begin : CaMachine → CaMachine
ca_begin s = record s { readfd = none; when = none; delay = none; effects = [] }

-- The end of a pass: a CA that moved to another state is saved, and changes are announced.
unfoldable pub ca_conclude : CaWorld → CaState → CaM (Unit {0})
ca_conclude w old = do
  λ s.
      ca_branch (ca_state_value s.state == ca_state_value old) (ca_modify (λ t. t))
        (ca_emit stored_ca) s
  ca_branch w.listens (ca_emit emitted_ca_changes) (ca_modify (λ t. t))

-- `cm_iterate_ca`
unfoldable pub iterate_ca : CaWorld → ℕ → Phase → CaM (Unit {0})
iterate_ca w c p s = (do ca_dispatch w c p s.state; ca_conclude w s.state) (ca_begin s)

-- `if (cm_writing_has_lock(ca, phase)) cm_writing_unlock_by_ca(ca, phase);`
unfoldable pub ca_drop_lock : ℕ → Phase → CaM (Unit {0})
ca_drop_lock c p s =
    ca_branch (has_lock (ca_holder c) p s.lock)
      (do ca_on_lock (unlock_by_ca c p); ca_modify (λ t. t)) (ca_modify (λ t. t)) s

-- `cm_iterate_ca_init`: `*cm_iterate_state` is set to a new, empty state.
unfoldable pub ca_init : ℕ → Phase → CaM (Unit {0})
ca_init c p = do
  ca_modify λ s. record s { tasks = no_ca_tasks; state = need_to_refresh }
  ca_drop_lock c p
  ca_emit stored_ca

-- `if (state->X != NULL) { X_done(state->X); state->X = NULL; }`
abbrev pub ca_cancel : CaTool → CaM (Unit {0})
ca_cancel tool s = elim (pointer_of tool s.tasks) [
  | unset ↦ ca_modify (λ t. t) s
  | live ↦ ca_finish tool s
  | freed ↦ ca_finish tool s
]

-- `cm_iterate_ca_done`
unfoldable pub ca_done : ℕ → Phase → CaM (Unit {0})
ca_done c p = do
  ca_cancel cert_analyze
  ca_cancel ecert_analyze
  ca_cancel cadata
  ca_cancel ca_hook
  ca_cancel ca_save
  ca_drop_lock c p
