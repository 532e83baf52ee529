-- ===== src/Iterate/Ca/Safety/Fetching.antt =====
-- The cases of `cm_iterate_ca` (src/iterate.c) that fetch and analyse a CA's data.
use certmonger.Prelude.{ℕ, true, false, Option, none, some, ◌≡◌, inl, inr, refl, arith, pos, eqb_ℤ}
use certmonger.Store.{Ca, Phase, refreshing, need_to_analyze, analyzing, certs}
use certmonger.Iterate.Lock.{Lock, same_phase}
use certmonger.Iterate.Machine.{When}
use certmonger.Iterate.Ca.Machine.{
  ca_branch, ca_emit, restarted_entries, ca_modify, ca_goto, CaTool, CaCall, cert_analyze, cadata,
  no_ca_tasks, CaWorld, CaMachine, ◌>>◌, ca_revisit, ca_settle,
}
use certmonger.Iterate.Ca.Phases.{
  on_refreshing, on_modified, on_unsupported, settle_for, on_retry, tell_entries, follow_analysis,
  give_up, watch_analysis, analyze_with, analyzed_with,
}
use certmonger.Iterate.Safety.Invariant.{phase_fits}
use certmonger.Iterate.Ca.Safety.{ca_holds, ca_tasks_for, dangling, analyzer_of, CaPost}
use certmonger.Iterate.Ca.Safety.Rules.{
  CaSure, by_answer, ca_at, kept, ca_watched, ca_after, ca_branch_rule, ca_poll_rule, ca_when_rule,
  ca_start_rule,
}

module _ (w : CaWorld) (c : ℕ) (l : Lock) (sound : phase_fits l.holder l.phase ≡ true) where
  -- New data of a phase that is not saved.
  told-CaPost :
      (p : Phase) (s : CaMachine)
      → same_phase p Phase.invalid ≡ false
      → ca_holds c p l ≡ false
      → s.lock ≡ l
      → s.tasks ≡ no_ca_tasks
      → CaSure (CaPost c p refreshing l) (do tell_entries w; ca_revisit When.now) s
  unfolding ca_tasks_for
  told-CaPost p s proper free same done =
      let P = CaPost c p refreshing l in
      ca_after P (tell_entries w) (ca_revisit When.now) s (
        ca_after (CaSure P (ca_revisit When.now))
          (ca_branch w.listens (ca_emit restarted_entries) (ca_modify λ s. s))
          (ca_goto need_to_analyze) s
          (ca_branch_rule (CaSure (CaSure P (ca_revisit When.now)) (ca_goto need_to_analyze))
            w.listens (ca_emit restarted_entries) (ca_modify λ s. s) s
            (kept c p refreshing l proper sound free _ same refl (inl done) refl refl refl)
            (kept c p refreshing l proper sound free _ same refl (inl done) refl refl refl)))

  modified-CaPost :
      (p : Phase) (s : CaMachine)
      → same_phase p Phase.invalid ≡ false
      → ca_holds c p l ≡ false
      → s.lock ≡ l
      → s.tasks ≡ no_ca_tasks
      → CaSure (CaPost c p refreshing l) (do on_modified w p; ca_revisit When.now) s
  unfolding on_modified ca_tasks_for same_phase
  modified-CaPost certs s proper free same done =
      kept c certs refreshing l proper sound free _ same refl (inl done) refl refl refl
  modified-CaPost Phase.invalid s proper free same done = ground arith
  modified-CaPost p s proper free same done = told-CaPost p s proper free same done

  unsupported-CaPost :
      (p : Phase) (ca : Ca)
      → same_phase p Phase.invalid ≡ false
      → ca_holds c p l ≡ false
      → CaSure
          (CaPost c p refreshing l)
          (on_unsupported p)
          (ca_at refreshing (ca_tasks_for (some cadata)) l ca)
  unfolding on_unsupported ca_tasks_for no_ca_tasks same_phase
  unsupported-CaPost Phase.invalid ca proper free = ground arith
  unsupported-CaPost p ca proper free =
      kept c p refreshing l proper sound free _ refl refl (inl refl) refl refl refl

module _ (w : CaWorld) (c : ℕ) (p : Phase) (l : Lock) (ca : Ca)
    (proper : same_phase p Phase.invalid ≡ false) (sound : phase_fits l.holder l.phase ≡ true)
    (free : ca_holds c p l ≡ false) where
  pub on_refreshing-CaPost :
      CaSure
        (CaPost c p refreshing l)
        (on_refreshing w p)
        (ca_at refreshing (ca_tasks_for (some cadata)) l ca)
  unfolding on_refreshing ca_settle settle_for on_retry ca_tasks_for no_ca_tasks
  on_refreshing-CaPost =
      let here = ca_at refreshing (ca_tasks_for (some cadata)) l in
      let moved = kept c p refreshing l proper sound free in
      let P = CaPost c p refreshing l in
      ca_poll_rule P w cadata (here ca) refl _ _
        (λ d.
          ca_when_rule P w cadata (here d) refl _ _ _
            (λ d. modified-CaPost w c l sound p _ proper free refl refl)
            λ d.
              ca_when_rule P w cadata (here d) refl _ _ _
                (λ d. moved _ refl refl (inl refl) refl refl refl)
                λ d.
                  ca_when_rule P w cadata (here d) refl _ _ _
                    (λ d. moved _ refl refl (inl refl) refl refl refl)
                    λ d.
                      ca_when_rule P w cadata (here d) refl _ _ _
                        (λ d. moved _ refl refl (inl refl) refl refl refl)
                        λ d.
                          ca_when_rule P w cadata (here d) refl _ _ _
                            (λ d. unsupported-CaPost w c l sound p d proper free)
                            λ d.
                              ca_when_rule P w cadata (here d) refl _ _ _
                                (λ d. moved _ refl refl (inl refl) refl refl refl)
                                λ d. moved _ refl refl (inl refl) refl refl refl)
        λ d. moved _ refl refl (inl refl) refl refl (ca_watched (w.ca_fd cadata) refreshing)

-- The cases that analyse certificates.
module _ (w : CaWorld) (c : ℕ) (l : Lock) (sound : phase_fits l.holder l.phase ≡ true) where
  follow_analysis-CaPost :
      (p : Phase) (tool : CaTool) (fd : Option ℕ) (ca : Ca)
      → same_phase p Phase.invalid ≡ false
      → ca_holds c p l ≡ false
      → analyzer_of p ≡ some tool
      → CaSure
          (CaPost c p need_to_analyze l)
          (follow_analysis tool fd)
          (record (ca_at need_to_analyze (ca_tasks_for (some tool)) l ca) { readfd = fd })
  unfolding follow_analysis ca_tasks_for dangling no_ca_tasks
  follow_analysis-CaPost p cert_analyze none ca proper free mine =
      kept c p need_to_analyze l proper sound free _ refl refl (inr (refl, rw mine refl)) refl refl
        refl
  follow_analysis-CaPost p tool none ca proper free mine =
      kept c p need_to_analyze l proper sound free _ refl refl (inr (refl, rw mine refl)) refl refl
        refl
  follow_analysis-CaPost p cert_analyze (some n) ca proper free mine =
      kept c p need_to_analyze l proper sound free _ refl refl (inl (rw mine refl)) (rw mine refl)
        refl refl
  follow_analysis-CaPost p tool (some n) ca proper free mine =
      kept c p need_to_analyze l proper sound free _ refl refl (inl (rw mine refl)) (rw mine refl)
        refl refl

  pub analyze_with-CaPost :
      (p : Phase) (tool : CaTool) (call : CaCall) (ca : Ca)
      → same_phase p Phase.invalid ≡ false
      → ca_holds c p l ≡ false
      → analyzer_of p ≡ some tool
      → CaSure
          (CaPost c p need_to_analyze l)
          (analyze_with w tool call)
          (ca_at need_to_analyze no_ca_tasks l ca)
  unfolding analyze_with ca_tasks_for
  analyze_with-CaPost p cert_analyze call ca proper free mine =
      ca_start_rule (CaPost c p need_to_analyze l) w cert_analyze call
        (ca_at need_to_analyze no_ca_tasks l ca) (watch_analysis w cert_analyze) give_up
        (λ d. follow_analysis-CaPost p cert_analyze (w.ca_fd cert_analyze) d proper free mine)
        λ d. kept c p need_to_analyze l proper sound free _ refl refl (inl refl) refl refl refl
  analyze_with-CaPost p tool call ca proper free mine =
      ca_start_rule (CaPost c p need_to_analyze l) w tool call
        (ca_at need_to_analyze no_ca_tasks l ca) (watch_analysis w tool) give_up
        (λ d. follow_analysis-CaPost p tool (w.ca_fd tool) d proper free mine)
        λ d. kept c p need_to_analyze l proper sound free _ refl refl (inl refl) refl refl refl

  pub analyzed_with-CaPost :
      (p : Phase) (tool : CaTool) (ca : Ca)
      → same_phase p Phase.invalid ≡ false
      → ca_holds c p l ≡ false
      → analyzer_of p ≡ some tool
      → CaSure
          (CaPost c p analyzing l)
          (analyzed_with w tool)
          (ca_at analyzing (ca_tasks_for (some tool)) l ca)
  unfolding analyzed_with ca_tasks_for no_ca_tasks
  analyzed_with-CaPost p cert_analyze ca proper free mine =
      let moved = kept c p analyzing l proper sound free in
      let P = CaPost c p analyzing l in
      ca_poll_rule P w cert_analyze (ca_at analyzing (ca_tasks_for (some cert_analyze)) l ca) refl _
        _
        (λ d.
          by_answer P (eqb_ℤ w.analyze_delay (pos 0)) _ _
            (moved _ refl refl (inl refl) refl refl refl)
            (moved _ refl refl (inl refl) refl refl refl))
        λ d.
          moved _ refl refl (inl (rw mine refl)) (rw mine refl) refl
            (ca_watched (w.ca_fd cert_analyze) analyzing)
  analyzed_with-CaPost p tool ca proper free mine =
      let moved = kept c p analyzing l proper sound free in
      let P = CaPost c p analyzing l in
      ca_poll_rule P w tool (ca_at analyzing (ca_tasks_for (some tool)) l ca) refl _ _
        (λ d.
          by_answer P (eqb_ℤ w.analyze_delay (pos 0)) _ _
            (moved _ refl refl (inl refl) refl refl refl)
            (moved _ refl refl (inl refl) refl refl refl))
        λ d.
          moved _ refl refl (inl (rw mine refl)) (rw mine refl) refl
            (ca_watched (w.ca_fd tool) analyzing)
