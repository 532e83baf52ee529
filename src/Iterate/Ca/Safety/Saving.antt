-- ===== src/Iterate/Ca/Safety/Saving.antt =====
-- The cases of `cm_iterate_ca` (src/iterate.c) that save a CA's data, under the writing lock.
use certmonger.Prelude.{ℕ, true, false, Option, none, some, ◌≡◌, ◌⊎◌, inl, inr, refl, arith}
use certmonger.Store.{
  Ca, Phase, need_to_save_data, pre_save_data, start_saving_data, saving_data, need_post_save_data,
  post_save_data, saved_data,
}
use certmonger.Iterate.Lock.{
  Lock, Holder, ok, ca_holder, same_phase, same_holder, is_held_by, is_free, lock_by_ca,
  unlock_by_ca,
}
use certmonger.Iterate.Ca.Machine.{
  ca_hook, ca_save, ca_save_start, no_ca_tasks, CaWorld, ca_settle, ◌>>◌, ca_goto, ca_watch,
  ca_modify,
}
use certmonger.Iterate.Ca.Phases.{
  on_need_to_save_data, on_pre_save_data, on_start_saving_data, on_saving_data,
  on_need_post_save_data, on_post_save_data, on_saved_data,
}
use certmonger.Iterate.Safety.Invariant.{phase_fits}
use certmonger.Iterate.Ca.Safety.{ca_holds, ca_tasks_for, CaPost}
use certmonger.Iterate.Ca.Safety.Rules.{
  CaSure, ca_at, kept, ca_watched, ca_poll_rule, ca_when_rule, ca_start_rule, ca_on_lock_rule, took,
  gave, ca_launch_or_skip_rule,
}

-- What taking and giving back the lock comes to for a phase that is well formed.
taken_by_none : (h : Option Holder) → (h ≡ none) ⊎ (is_free h ≡ false)
unfolding is_free
taken_by_none none = inl refl
taken_by_none (some h) = inr refl

lock_by_ca_cases :
    (c : ℕ) (p : Phase) (l : Lock)
    → same_phase p Phase.invalid ≡ false
    → ca_holds c p l ≡ false
    → (lock_by_ca c p l ≡ ok (false, l))
      ⊎ ((l.holder ≡ none)
          × (lock_by_ca c p l ≡ ok (true, record { holder = some (ca_holder c); phase = p })))
unfolding lock_by_ca is_held_by is_free same_holder
lock_by_ca_cases c p l proper free = elim (taken_by_none l.holder) [
  | inl n ↦ inr (ground (arith, n))
  | inr h ↦ inl (ground (arith, h))
]

pub unlock_by_ca_holding :
    (c : ℕ) (p : Phase) (l : Lock)
    → ca_holds c p l ≡ true
    → unlock_by_ca c p l ≡ ok (true, record { holder = none; phase = Phase.invalid })
unfolding unlock_by_ca is_held_by is_free same_holder
unlock_by_ca_holding c p l mine = ground arith

module _ (w : CaWorld) (c : ℕ) (p : Phase) (l : Lock) (ca : Ca)
    (proper : same_phase p Phase.invalid ≡ false) (sound : phase_fits l.holder l.phase ≡ true)
    (mine : ca_holds c p l ≡ true) where
  pub on_pre_save_data-CaPost :
      CaSure
        (CaPost c p pre_save_data l)
        (on_pre_save_data w)
        (ca_at pre_save_data (ca_tasks_for (some ca_hook)) l ca)
  unfolding on_pre_save_data ca_settle ca_tasks_for no_ca_tasks
  on_pre_save_data-CaPost =
      let here = ca_at pre_save_data (ca_tasks_for (some ca_hook)) l in
      let moved = kept c p pre_save_data l proper sound mine in
      ca_poll_rule (CaPost c p pre_save_data l) w ca_hook (here ca) refl _ _
        (λ d. moved _ refl refl (inl refl) refl refl refl)
        λ d. moved _ refl refl (inl refl) refl refl (ca_watched (w.ca_fd ca_hook) pre_save_data)

  pub on_post_save_data-CaPost :
      CaSure
        (CaPost c p post_save_data l)
        (on_post_save_data w)
        (ca_at post_save_data (ca_tasks_for (some ca_hook)) l ca)
  unfolding on_post_save_data ca_settle ca_tasks_for no_ca_tasks
  on_post_save_data-CaPost =
      let here = ca_at post_save_data (ca_tasks_for (some ca_hook)) l in
      let moved = kept c p post_save_data l proper sound mine in
      ca_poll_rule (CaPost c p post_save_data l) w ca_hook (here ca) refl _ _
        (λ d. moved _ refl refl (inl refl) refl refl refl)
        λ d. moved _ refl refl (inl refl) refl refl (ca_watched (w.ca_fd ca_hook) post_save_data)

  pub on_saving_data-CaPost :
      CaSure
        (CaPost c p saving_data l)
        (on_saving_data w)
        (ca_at saving_data (ca_tasks_for (some ca_save)) l ca)
  unfolding on_saving_data ca_settle ca_tasks_for no_ca_tasks
  on_saving_data-CaPost =
      let here = ca_at saving_data (ca_tasks_for (some ca_save)) l in
      let moved = kept c p saving_data l proper sound mine in
      let P = CaPost c p saving_data l in
      ca_poll_rule P w ca_save (here ca) refl _ _
        (λ d.
          ca_when_rule P w ca_save (here d) refl _ _ _
            (λ d. moved _ refl refl (inl refl) refl refl refl)
            λ d.
              ca_when_rule P w ca_save (here d) refl _ _ _
                (λ d. moved _ refl refl (inl refl) refl refl refl)
                λ d. moved _ refl refl (inl refl) refl refl refl)
        λ d. moved _ refl refl (inl refl) refl refl (ca_watched (w.ca_fd ca_save) saving_data)

  pub on_need_post_save_data-CaPost :
      CaSure
        (CaPost c p need_post_save_data l)
        (on_need_post_save_data w)
        (ca_at need_post_save_data no_ca_tasks l ca)
  unfolding on_need_post_save_data ca_tasks_for no_ca_tasks
  on_need_post_save_data-CaPost =
      let moved = kept c p need_post_save_data l proper sound mine in
      ca_launch_or_skip_rule (CaPost c p need_post_save_data l) w ca_hook _
        (ca_at need_post_save_data no_ca_tasks l ca) _ _
        (λ d. moved _ refl refl (inl refl) refl refl (ca_watched (w.ca_fd ca_hook) post_save_data))
        λ d. moved _ refl refl (inl refl) refl refl refl

  pub on_start_saving_data-CaPost :
      CaSure
        (CaPost c p start_saving_data l)
        (on_start_saving_data w)
        (ca_at start_saving_data no_ca_tasks l ca)
  unfolding on_start_saving_data ca_tasks_for no_ca_tasks
  on_start_saving_data-CaPost =
      let moved = kept c p start_saving_data l proper sound mine in
      ca_start_rule (CaPost c p start_saving_data l) w ca_save ca_save_start
        (ca_at start_saving_data no_ca_tasks l ca) (do ca_goto saving_data; ca_watch w ca_save)
        (ca_modify λ s. s)
        (λ d. moved _ refl refl (inl refl) refl refl (ca_watched (w.ca_fd ca_save) saving_data))
        λ d. moved _ refl refl (inl refl) refl refl refl

  pub on_saved_data-CaPost :
      CaSure (CaPost c p saved_data l) (on_saved_data c p) (ca_at saved_data no_ca_tasks l ca)
  unfolding on_saved_data ca_tasks_for
  on_saved_data-CaPost =
      ca_on_lock_rule (CaPost c p saved_data l) (unlock_by_ca c p) true _
        (ca_at saved_data no_ca_tasks l ca) _ (unlock_by_ca_holding c p l mine)
        (gave c p saved_data l proper sound mine _ mine refl refl (inl refl) refl refl refl)

-- CM_CA_NEED_TO_SAVE_DATA, in which the lock is taken.
module _ (w : CaWorld) (c : ℕ) (p : Phase) (l : Lock) (ca : Ca)
    (proper : same_phase p Phase.invalid ≡ false) (sound : phase_fits l.holder l.phase ≡ true)
    (free : ca_holds c p l ≡ false) where
  pub on_need_to_save_data-CaPost :
      CaSure
        (CaPost c p need_to_save_data l)
        (on_need_to_save_data w c p)
        (ca_at need_to_save_data no_ca_tasks l ca)
  unfolding on_need_to_save_data ca_tasks_for no_ca_tasks
  on_need_to_save_data-CaPost =
      let P = CaPost c p need_to_save_data l in
      let here = ca_at need_to_save_data no_ca_tasks in
      elim (lock_by_ca_cases c p l proper free) [
        | inl refused ↦
            ca_on_lock_rule P (lock_by_ca c p) false l (here l ca) _ refused
              (kept c p need_to_save_data l proper sound free _ refl refl (inl refl) refl refl refl)
        | inr (nobody, taken) ↦
            let now : Lock = record { holder = some (ca_holder c); phase = p } in
            ca_on_lock_rule P (lock_by_ca c p) true now (here l ca) _ taken (
              ca_launch_or_skip_rule P w ca_hook _ (here now ca) _ _
                (λ d.
                  took c p need_to_save_data l proper sound free _ nobody refl refl (inl refl) refl
                    refl (ca_watched (w.ca_fd ca_hook) pre_save_data))
                λ d.
                  took c p need_to_save_data l proper sound free _ nobody refl refl (inl refl) refl
                    refl refl)
      ]
