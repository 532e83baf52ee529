-- ===== src/Iterate/Ca/Phases.antt =====
-- src/iterate.c: the cases of `cm_iterate_ca`, by state. `c` is the address of the CA, `p` the phase.
use certmonger.Prelude.{
  ℕ, Option, none, some, Bool, true, false, ℤ, pos, negsuc, if◌then◌else◌, ltb_ℤ, eqb_ℤ, sub_ℕ, ltb,
  ◌-◌, ◌%◌, ◌^◌,
}
use certmonger.Store.{
  Ca, CaState, CaType, external, internal_self, Phase, idle, need_to_refresh, refreshing,
  data_unreachable, need_to_save_data, pre_save_data, start_saving_data, saving_data,
  need_post_save_data, post_save_data, saved_data, need_to_analyze, analyzing, disabled, identify,
  certs, profiles, default_profile, enroll_reqs, renew_reqs, capabilities, encryption_certs,
}
use certmonger.Iterate.Lock.{fault, aborted, lock_by_ca, unlock_by_ca}
use certmonger.Iterate.Machine.{When, soon, soonish, delayed, no_time}
use certmonger.Iterate.Delay.{
  clamp, delay_ca_poll_minimum, delay_ca_poll_maximum, delay_cadata_poll,
}
use certmonger.Iterate.Ca.Machine.{
  unset, CaTool, cert_analyze, ecert_analyze, cadata, ca_hook, ca_save, CaCall, cadata_start,
  cadata_ready, cadata_modified, cadata_needs_retry, cadata_rejected, cadata_unreachable,
  cadata_unsupported, cadata_unconfigured, ca_hook_start_presave, ca_hook_start_postsave,
  ca_hook_ready, ca_save_start, ca_save_ready, ca_save_saved, ca_save_permissions_error,
  analyze_start_certs, analyze_start_encryption_certs, analyze_ready, CaWorld, CaM, ◌>>=◌, ◌>>◌,
  ca_branch, ca_modify, ca_goto, ca_revisit, ca_set_delay, ca_emit, restarted_entries, ca_on_lock,
  ca_deref, ca_free, ca_finish, ca_start, ca_watch, ca_poll, ca_when, ca_launch_or_skip, ca_settle,
}

abbrev pub ca_abort : CaM (Unit {0})
ca_abort s = fault aborted

-- Going back to the CA after a wait: `*when = cm_time_delay; *delay = d`
abbrev pub ca_wait : ℤ → CaM (Unit {0})
ca_wait d = do ca_set_delay d; ca_revisit delayed

-- `cm_decide_cadata_delay`
abbrev pub decide_cadata_delay : ℤ
decide_cadata_delay = pos delay_cadata_poll

-- What an unsupported phase takes away from the CA's data.
abbrev pub forget : Phase → Ca → Ca
forget certs ca = record ca { root_certs = none; other_root_certs = none; other_certs = none }
forget capabilities ca = record ca { capabilities = none }
forget encryption_certs ca = record ca {
  encryption_cert = none;
  encryption_issuer_cert = none;
  encryption_cert_pool = none;
}
forget _ ca = ca

-- `if (emit_ca_changes != NULL) cm_restart_entries_by_ca(...)`, and on to the analysis
abbrev pub tell_entries : CaWorld → CaM (Unit {0})
tell_entries w = do
  ca_branch w.listens (ca_emit restarted_entries) (ca_modify λ s. s)
  ca_goto need_to_analyze

-- Where a phase goes with new data.
unfoldable pub on_modified : CaWorld → Phase → CaM (Unit {0})
on_modified w certs = ca_goto need_to_save_data
on_modified w identify = tell_entries w
on_modified w profiles = tell_entries w
on_modified w default_profile = tell_entries w
on_modified w enroll_reqs = tell_entries w
on_modified w renew_reqs = tell_entries w
on_modified w capabilities = tell_entries w
on_modified w encryption_certs = tell_entries w
on_modified w Phase.invalid = ca_abort

abbrev pub is_external : CaType → Bool
is_external external = true
is_external internal_self = false

-- The functions that start the fetching of data; there is none for the last enumerator.
abbrev pub begin_fetching : CaWorld → Phase → CaM Bool
begin_fetching w Phase.invalid s = fault aborted
begin_fetching w p s = ca_start w cadata (cadata_start p) s

-- CM_CA_NEED_TO_REFRESH
unfoldable pub on_need_to_refresh : CaWorld → Phase → CaM (Unit {0})
on_need_to_refresh w p = do
  started ← begin_fetching w p
  ca_branch started (do ca_goto refreshing; ca_watch w cadata)
      do
        λ s. ca_branch (is_external s.ca.type) (ca_free ca_save) (ca_modify λ t. t) s
        ca_goto disabled
        ca_revisit When.now

-- The answer of the server that wants to be asked again.
unfoldable pub on_retry : CaWorld → CaM (Unit {0})
on_retry w = do
  ca_deref cadata
  ca_wait (if ltb_ℤ w.ca_specified_delay (pos 0) then decide_cadata_delay else w.ca_specified_delay)
  ca_finish cadata
  ca_goto need_to_refresh

-- The case that the server has no such data.
unfoldable pub on_unsupported : Phase → CaM (Unit {0})
on_unsupported Phase.invalid = do ca_free cadata; ca_abort
on_unsupported p = do
  ca_free cadata
  ca_modify λ s. record s { ca = forget p s.ca }
  ca_modify λ s. record s { tasks = record s.tasks { task_state = unset } }
  ca_goto disabled
  ca_revisit When.now

-- A helper that is done, and a wait before the next pass.
unfoldable pub settle_for : CaState → ℤ → CaM (Unit {0})
settle_for st d = do ca_finish cadata; ca_goto st; ca_wait d

-- CM_CA_REFRESHING
unfoldable pub on_refreshing : CaWorld → Phase → CaM (Unit {0})
on_refreshing w p = ca_poll w cadata cadata_ready (
    ca_when w cadata cadata_modified (do ca_finish cadata; on_modified w p; ca_revisit When.now)
      (ca_when w cadata cadata_needs_retry (on_retry w) (
        ca_when w cadata cadata_rejected (settle_for idle (pos delay_ca_poll_maximum)) (
          ca_when w cadata cadata_unreachable (settle_for data_unreachable decide_cadata_delay) (
            ca_when w cadata cadata_unsupported (on_unsupported p) (
              ca_when w cadata cadata_unconfigured (settle_for data_unreachable decide_cadata_delay)
                (ca_settle cadata need_to_analyze When.now)))))))

-- CM_CA_NEED_TO_SAVE_DATA
unfoldable pub on_need_to_save_data : CaWorld → ℕ → Phase → CaM (Unit {0})
on_need_to_save_data w c p = do
  taken ← ca_on_lock (lock_by_ca c p)
  ca_branch taken
      (ca_launch_or_skip w ca_hook ca_hook_start_presave pre_save_data start_saving_data)
      (ca_revisit soon)

-- CM_CA_PRE_SAVE_DATA
unfoldable pub on_pre_save_data : CaWorld → CaM (Unit {0})
on_pre_save_data w = ca_poll w ca_hook ca_hook_ready (ca_settle ca_hook start_saving_data When.now)

-- CM_CA_START_SAVING_DATA: nothing is said of `*when` if the helper cannot be started.
unfoldable pub on_start_saving_data : CaWorld → CaM (Unit {0})
on_start_saving_data w = do
  started ← ca_start w ca_save ca_save_start
  ca_branch started (do ca_goto saving_data; ca_watch w ca_save) (ca_modify λ s. s)

-- CM_CA_SAVING_DATA
unfoldable pub on_saving_data : CaWorld → CaM (Unit {0})
on_saving_data w = ca_poll w ca_save ca_save_ready (
    ca_when w ca_save ca_save_saved (ca_settle ca_save need_post_save_data When.now) (
      ca_when w ca_save ca_save_permissions_error (ca_settle ca_save need_post_save_data When.now)
        (ca_settle ca_save need_post_save_data soonish)))

-- CM_CA_NEED_POST_SAVE_DATA
unfoldable pub on_need_post_save_data : CaWorld → CaM (Unit {0})
on_need_post_save_data w =
    ca_launch_or_skip w ca_hook ca_hook_start_postsave post_save_data saved_data

-- CM_CA_POST_SAVE_DATA
unfoldable pub on_post_save_data : CaWorld → CaM (Unit {0})
on_post_save_data w = ca_poll w ca_hook ca_hook_ready (ca_settle ca_hook saved_data When.now)

-- CM_CA_SAVED_DATA
unfoldable pub on_saved_data : ℕ → Phase → CaM (Unit {0})
on_saved_data c p = do
  released ← ca_on_lock (unlock_by_ca c p)
  ca_branch released (do ca_goto need_to_analyze; ca_revisit When.now) (ca_revisit soon)

-- Going on by the descriptor of the analysis. Without one it is done with, its pointer is kept, and
-- nothing is said of `*when`.
unfoldable pub follow_analysis : CaTool → Option ℕ → CaM (Unit {0})
follow_analysis tool none = do ca_free tool; ca_goto disabled
follow_analysis tool (some n) = do ca_goto analyzing; ca_revisit no_time

-- A phase that is left alone from now on.
abbrev pub give_up : CaM (Unit {0})
give_up = do ca_goto disabled; ca_revisit When.now

abbrev pub watch_analysis : CaWorld → CaTool → CaM (Unit {0})
watch_analysis w tool = do
  ca_deref tool
  ca_modify λ s. record s { readfd = w.ca_fd tool }
  follow_analysis tool (w.ca_fd tool)

-- Starting the analysis of certificates.
unfoldable pub analyze_with : CaWorld → CaTool → CaCall → CaM (Unit {0})
analyze_with w tool call = do
  started ← ca_start w tool call
  ca_branch started (watch_analysis w tool) give_up

-- CM_CA_NEED_TO_ANALYZE
unfoldable pub on_need_to_analyze : CaWorld → Phase → CaM (Unit {0})
on_need_to_analyze w certs = analyze_with w cert_analyze analyze_start_certs
on_need_to_analyze w encryption_certs = analyze_with w ecert_analyze analyze_start_encryption_certs
on_need_to_analyze w Phase.invalid = ca_abort
on_need_to_analyze w _ = do ca_goto idle; ca_revisit When.now

-- A `time_t` that is assigned to an `int`.
unfoldable pub as_int : ℤ → ℤ
as_int (pos n) = sub_ℕ (n % 2 ^ 32) (if ltb (n % 2 ^ 32) (2 ^ 31) then 0 else 2 ^ 32)
as_int (negsuc n) =
    sub_ℕ (2 ^ 32 - 1 - n % 2 ^ 32) (if ltb (2 ^ 32 - 1 - n % 2 ^ 32) (2 ^ 31) then 0 else 2 ^ 32)

-- The end of an analysis: data that will be out of date is fetched again.
unfoldable pub analyzed_with : CaWorld → CaTool → CaM (Unit {0})
analyzed_with w tool = ca_poll w tool analyze_ready do
  ca_finish tool
  ca_branch (eqb_ℤ w.analyze_delay (pos 0)) (do ca_goto idle; ca_revisit When.now)
      do
        ca_goto need_to_refresh
        ca_wait (clamp delay_ca_poll_minimum delay_ca_poll_maximum (as_int w.analyze_delay))

-- CM_CA_ANALYZING
unfoldable pub on_analyzing : CaWorld → Phase → CaM (Unit {0})
on_analyzing w certs = analyzed_with w cert_analyze
on_analyzing w encryption_certs = analyzed_with w ecert_analyze
on_analyzing w _ = ca_abort
