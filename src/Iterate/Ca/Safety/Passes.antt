-- ===== src/Iterate/Ca/Safety/Passes.antt =====
-- A whole pass of `cm_iterate_ca` (src/iterate.c) over a well-formed phase of a CA's data.
use certmonger.Prelude.{ℕ, true, false, some, ◌≡◌, inl, inr, refl, sym, subst, List, arith}
use certmonger.Store.{
  Ca, CaState, Phase, idle, need_to_refresh, refreshing, data_unreachable, need_to_save_data,
  pre_save_data, start_saving_data, saving_data, need_post_save_data, post_save_data, saved_data,
  need_to_analyze, analyzing, disabled, certs, encryption_certs,
}
use certmonger.Iterate.Lock.{Lock, Outcome, ok, Fault, fault, null_pointer, same_phase}
use certmonger.Iterate.Machine.{When}
use certmonger.Iterate.Ca.{ca_dispatch, ca_begin, ca_conclude, iterate_ca}
use certmonger.Iterate.Ca.Machine.{
  cadata, cadata_start, cert_analyze, ecert_analyze, CaTasks, no_ca_tasks, CaWorld, CaMachine,
  CaEffect, CaM, ◌>>◌, live, unset,
}
use certmonger.Iterate.Ca.Phases.{on_need_to_refresh, on_need_to_analyze, on_analyzing, is_external}
use certmonger.Iterate.Safety.Invariant.{phase_fits, Ensures}
use certmonger.Iterate.Ca.Safety.{
  ca_holds, needs_lock, ca_tool_of, ca_tasks_for, may_be, dangling, analyzer_of, CaInv, CaPost,
  FitTasks,
}
use certmonger.Iterate.Ca.Safety.Rules.{
  CaSure, ca_at, kept, ca_watched, ca_watching, with_tool, with_ca,
}
use certmonger.Iterate.Ca.Safety.Fetching.{
  on_refreshing-CaPost, analyze_with-CaPost, analyzed_with-CaPost,
}
use certmonger.Iterate.Ca.Safety.Saving.{
  on_need_to_save_data-CaPost, on_pre_save_data-CaPost, on_start_saving_data-CaPost,
  on_saving_data-CaPost, on_need_post_save_data-CaPost, on_post_save_data-CaPost,
  on_saved_data-CaPost,
}

-- How a pass over `s` ends: the machine is well formed, or the daemon died of a NULL pointer, which
-- takes an external CA whose helper could not be started.
abbrev pub CaEnds : CaWorld → ℕ → Phase → CaMachine → Outcome (Unit {0} × CaMachine) → Type 0
CaEnds w c p s (ok r) = CaPost c p s.state s.lock r.1
CaEnds w c p s (fault f) =
    (f ≡ null_pointer)
    × (s.state ≡ need_to_refresh)
    × ((w.ca_answer (cadata_start p) s.ca).0 ≡ false)
    × (is_external (w.ca_answer (cadata_start p) s.ca).1.type ≡ true)

ends_well :
    (w : CaWorld) (c : ℕ) (p : Phase) (s : CaMachine) (o : Outcome (Unit {0} × CaMachine))
    → Ensures {A = Unit {0} × CaMachine} (λ r. CaPost c p s.state s.lock r.1) o
    → CaEnds w c p s o
ends_well w c p s (ok r) h = h
ends_well w c p s (fault f) h = absurd h

module _ (w : CaWorld) (c : ℕ) (l : Lock) (ca : Ca)
    (sound : phase_fits l.holder l.phase ≡ true) where
  on_need_to_refresh-CaEnds :
      (p : Phase)
      → same_phase p Phase.invalid ≡ false
      → ca_holds c p l ≡ false
      → CaEnds w c p
          (ca_at need_to_refresh no_ca_tasks l ca)
          (on_need_to_refresh w p (ca_at need_to_refresh no_ca_tasks l ca))
  unfolding on_need_to_refresh no_ca_tasks ca_tasks_for same_phase
  on_need_to_refresh-CaEnds Phase.invalid proper free = ground arith
  on_need_to_refresh-CaEnds p proper free =
      let d : Ca = (w.ca_answer (cadata_start p) ca).1 in
      let here = ca_at need_to_refresh no_ca_tasks l ca in
      let moved = kept c p need_to_refresh l proper sound free in
      let off =
        moved (record here { ca = d; state = disabled; when = some When.now }) refl refl (inl refl)
          refl refl refl in
      let on =
        moved
          (ca_watching w cadata
            (record (with_tool cadata live (with_ca here d)) { state = refreshing }))
          refl refl (inl refl) refl refl (ca_watched (w.ca_fd cadata) refreshing) in
      ground (arith, on, off)

  on_need_to_analyze-CaPost :
      (p : Phase)
      → same_phase p Phase.invalid ≡ false
      → ca_holds c p l ≡ false
      → CaSure
          (CaPost c p need_to_analyze l)
          (on_need_to_analyze w p)
          (ca_at need_to_analyze no_ca_tasks l ca)
  unfolding on_need_to_analyze ca_tasks_for same_phase
  on_need_to_analyze-CaPost certs proper free =
      analyze_with-CaPost w c l sound certs cert_analyze _ ca proper free refl
  on_need_to_analyze-CaPost encryption_certs proper free =
      analyze_with-CaPost w c l sound encryption_certs ecert_analyze _ ca proper free refl
  on_need_to_analyze-CaPost Phase.invalid proper free = ground arith
  on_need_to_analyze-CaPost p proper free =
      kept c p need_to_analyze l proper sound free _ refl refl (inl refl) refl refl refl

  on_analyzing-CaPost :
      (p : Phase)
      → same_phase p Phase.invalid ≡ false
      → ca_holds c p l ≡ false
      → may_be p analyzing ≡ true
      → CaSure
          (CaPost c p analyzing l)
          (on_analyzing w p)
          (ca_at analyzing (ca_tasks_for (analyzer_of p)) l ca)
  unfolding on_analyzing
  on_analyzing-CaPost certs proper free able =
      analyzed_with-CaPost w c l sound certs cert_analyze ca proper free refl
  on_analyzing-CaPost encryption_certs proper free able =
      analyzed_with-CaPost w c l sound encryption_certs ecert_analyze ca proper free refl
  on_analyzing-CaPost p proper free able = ground arith

  module _ (p : Phase) (proper : same_phase p Phase.invalid ≡ false) where
    abbrev exact_at : CaState → CaMachine
    exact_at st = ca_at st (ca_tasks_for (ca_tool_of p st)) l ca

    -- A pass over a phase of which the pointers are exactly as the state asks.
    exact-CaEnds :
        (st : CaState)
        → ca_holds c p l ≡ needs_lock st
        → may_be p st ≡ true
        → CaEnds w c p (exact_at st) (ca_dispatch w c p st (exact_at st))
    unfolding ca_dispatch ca_tasks_for
    exact-CaEnds need_to_refresh lock able = on_need_to_refresh-CaEnds p proper lock
    exact-CaEnds refreshing lock able =
        ends_well w c p (exact_at refreshing) _ (on_refreshing-CaPost w c p l ca proper sound lock)
    exact-CaEnds data_unreachable lock able =
        kept c p data_unreachable l proper sound lock _ refl refl (inl refl) refl refl refl
    exact-CaEnds need_to_save_data lock able =
        ends_well w c p (exact_at need_to_save_data) _
          (on_need_to_save_data-CaPost w c p l ca proper sound lock)
    exact-CaEnds pre_save_data lock able =
        ends_well w c p (exact_at pre_save_data) _
          (on_pre_save_data-CaPost w c p l ca proper sound lock)
    exact-CaEnds start_saving_data lock able =
        ends_well w c p (exact_at start_saving_data) _
          (on_start_saving_data-CaPost w c p l ca proper sound lock)
    exact-CaEnds saving_data lock able =
        ends_well w c p (exact_at saving_data) _
          (on_saving_data-CaPost w c p l ca proper sound lock)
    exact-CaEnds need_post_save_data lock able =
        ends_well w c p (exact_at need_post_save_data) _
          (on_need_post_save_data-CaPost w c p l ca proper sound lock)
    exact-CaEnds post_save_data lock able =
        ends_well w c p (exact_at post_save_data) _
          (on_post_save_data-CaPost w c p l ca proper sound lock)
    exact-CaEnds saved_data lock able =
        ends_well w c p (exact_at saved_data) _ (on_saved_data-CaPost w c p l ca proper sound lock)
    exact-CaEnds need_to_analyze lock able =
        ends_well w c p (exact_at need_to_analyze) _ (on_need_to_analyze-CaPost p proper lock)
    exact-CaEnds analyzing lock able =
        ends_well w c p (exact_at analyzing) _ (on_analyzing-CaPost p proper lock able)
    exact-CaEnds idle lock able =
        kept c p idle l proper sound lock _ refl refl (inl refl) refl refl refl
    exact-CaEnds disabled lock able =
        kept c p disabled l proper sound lock _ refl refl (inl refl) refl refl refl

    -- A pass over a phase that was left with a pointer to an object that was freed.
    dangling-CaEnds :
        (t : CaTasks)
        → ca_holds c p l ≡ false
        → t ≡ dangling (analyzer_of p)
        → (let s = ca_at disabled t l ca in CaEnds w c p s (ca_dispatch w c p disabled s))
    unfolding ca_dispatch
    dangling-CaEnds t lock left =
        kept c p disabled l proper sound lock _ refl refl (inr (refl, left)) refl refl refl

    ca_dispatch-CaEnds :
        (st : CaState) (t : CaTasks)
        → ca_holds c p l ≡ needs_lock st
        → may_be p st ≡ true
        → FitTasks p st t
        → (let s = ca_at st t l ca in CaEnds w c p s (ca_dispatch w c p st s))
    ca_dispatch-CaEnds st t lock able (inl fit) =
        subst (λ t. let s = ca_at st t l ca in CaEnds w c p s (ca_dispatch w c p st s)) (sym fit)
          (exact-CaEnds st lock able)
    ca_dispatch-CaEnds st t lock able (inr (off, left)) =
        subst
          (λ st.
            ca_holds c p l ≡ needs_lock st
            → let s = ca_at st t l ca in CaEnds w c p s (ca_dispatch w c p st s))
          (sym off) (λ free. dangling-CaEnds t free left) lock

with_effects :
    {c : ℕ} {p : Phase} {st : CaState} {l : Lock} {t : CaMachine} (es : List CaEffect)
    → CaPost c p st l t
    → CaPost c p st l (record t { effects = es })
with_effects es h = record {
  inv = record {
    proper = h.inv.proper;
    lock_sound = h.inv.lock_sound;
    lock_exact = h.inv.lock_exact;
    tasks_fit = h.inv.tasks_fit;
    state_fits = h.inv.state_fits;
  };
  lock_move = h.lock_move;
  edge = h.edge;
  wake = h.wake;
}

ca_conclude-CaEnds :
    (w : CaWorld) (c : ℕ) (p : Phase) (s t : CaMachine) (old : CaState)
    → CaPost c p s.state s.lock t
    → CaEnds w c p s (ca_conclude w old t)
unfolding ca_conclude
ca_conclude-CaEnds w c p s t old h = ground (arith, h)

after_dispatch :
    (w : CaWorld) (c : ℕ) (p : Phase) (s : CaMachine) (old : CaState)
    (o : Outcome (Unit {0} × CaMachine))
    → CaEnds w c p s o
    → CaEnds w c p s (elim o [ ok (u, t) ↦ ca_conclude w old t | fault e ↦ fault e ])
after_dispatch w c p s old (ok (u, t)) h = ca_conclude-CaEnds w c p s t old h
after_dispatch w c p s old (fault e) h = h

-- A pass over a well-formed phase leaves it well formed, takes the writing lock only while it is free and
-- gives back only its own, moves along the state diagram, and leaves something that brings the daemon
-- back, unless the phase is at rest or `*when` was not written. Or the daemon dies of a NULL pointer: the
-- phase wants its data fetched, the helper cannot be started, and the CA is an external one.
pub iterate_ca-CaEnds :
    (w : CaWorld) (c : ℕ) (p : Phase) (s : CaMachine)
    → CaInv c p s
    → CaEnds w c p s (iterate_ca w c p s)
unfolding iterate_ca ca_begin
iterate_ca-CaEnds w c p s v =
    after_dispatch w c p s s.state (ca_dispatch w c p s.state (ca_begin s)) (
      ca_dispatch-CaEnds w c s.lock s.ca v.lock_sound p v.proper s.state s.tasks v.lock_exact
        v.state_fits v.tasks_fit)

refreshes_in_vain :
    (w : CaWorld) (p : Phase) (s : CaMachine)
    → same_phase p Phase.invalid ≡ false
    → s.tasks.ca_save_state ≡ unset
    → (w.ca_answer (cadata_start p) s.ca).0 ≡ false
    → is_external (w.ca_answer (cadata_start p) s.ca).1.type ≡ true
    → on_need_to_refresh w p s ≡ fault null_pointer
unfolding on_need_to_refresh same_phase
refreshes_in_vain w Phase.invalid s proper bare failed other = ground arith
refreshes_in_vain w p s proper bare failed other = ground (arith, bare, failed, other)

dies : (e : Fault) (m k : CaM (Unit {0})) (s : CaMachine) → m s ≡ fault e → (do m; k) s ≡ fault e
dies e m k s run = ground (arith, run)

-- A pass over a phase that wants its data fetched dies of a NULL pointer, if no helper is saving the
-- data, the helper that would fetch the data cannot be started, and the CA is an external one.
pub iterate_ca-null_pointer :
    (w : CaWorld) (c : ℕ) (p : Phase) (s : CaMachine)
    → same_phase p Phase.invalid ≡ false
    → s.state ≡ need_to_refresh
    → s.tasks.ca_save_state ≡ unset
    → (w.ca_answer (cadata_start p) s.ca).0 ≡ false
    → is_external (w.ca_answer (cadata_start p) s.ca).1.type ≡ true
    → iterate_ca w c p s ≡ fault null_pointer
unfolding iterate_ca ca_begin ca_dispatch
iterate_ca-null_pointer w c p s proper at bare failed other =
    let run = refreshes_in_vain w p (ca_begin s) proper bare failed other in
    dies null_pointer (ca_dispatch w c p s.state) (ca_conclude w s.state) (ca_begin s)
      (subst (λ st. ca_dispatch w c p st (ca_begin s) ≡ fault null_pointer) (sym at) run)
