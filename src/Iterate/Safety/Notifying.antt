-- ===== src/Iterate/Safety/Notifying.antt =====
-- The cases of Iterate/Entry/Notifying.antt leave what a pass has to leave.
use certmonger.Prelude.{ℕ, ◌≡◌, refl, false, none}
use certmonger.Store.{
  need_to_notify_rejection, notifying_rejection, need_to_notify_issued_save_failed,
  notifying_issued_save_failed, need_to_notify_issued_ca_save_failed,
  notifying_issued_ca_save_failed, need_to_notify_only_ca_save_failed,
  notifying_only_ca_save_failed, need_to_notify_issued_saved, notifying_issued_saved,
}
use certmonger.Iterate.Machine.{World, Machine, notify}
use certmonger.Iterate.Entry.Notifying.{
  on_need_to_notify_issued_save_failed, on_need_to_notify_issued_saved,
  on_need_to_notify_issued_ca_save_failed, on_need_to_notify_only_ca_save_failed,
  on_need_to_notify_rejection, on_notifying_rejection, on_notifying_issued_save_failed,
  on_notifying_issued_saved, on_notifying_issued_ca_save_failed, on_notifying_only_ca_save_failed,
}
use certmonger.Iterate.Safety.Invariant.{Inv, holds}
use certmonger.Iterate.Safety.Rules.{Sure, without_lock}
use certmonger.Iterate.Safety.Outcome.{Post, at_start, free_at}
use certmonger.Iterate.Safety.Shapes.{
  settle-Post, poll-Post, launch-Post, release-Post, hold-Post, given_back,
}

module _ (w : World) (e : ℕ) (s : Machine) (v : Inv e s) where
  pub on_need_to_notify_issued_save_failed-Post :
      s.state ≡ need_to_notify_issued_save_failed
      → Sure
          (Post e need_to_notify_issued_save_failed s.lock)
          (on_need_to_notify_issued_save_failed w e)
          s
  unfolding on_need_to_notify_issued_save_failed
  on_need_to_notify_issued_save_failed-Post at =
      hold-Post e need_to_notify_issued_save_failed s.lock none _ s (holds e s.lock)
        (at_start e s v need_to_notify_issued_save_failed (holds e s.lock) at refl) at refl refl
        λ r here at. release-Post e need_to_notify_issued_save_failed s.lock none _ r here (
          launch-Post w e need_to_notify_issued_save_failed s.lock false notify _
            notifying_issued_save_failed (without_lock r) (given_back e s.lock none r here) refl
            refl at refl)

  pub on_need_to_notify_issued_saved-Post :
      s.state ≡ need_to_notify_issued_saved
      → Sure (Post e need_to_notify_issued_saved s.lock) (on_need_to_notify_issued_saved w e) s
  unfolding on_need_to_notify_issued_saved
  on_need_to_notify_issued_saved-Post at =
      hold-Post e need_to_notify_issued_saved s.lock none _ s (holds e s.lock)
        (at_start e s v need_to_notify_issued_saved (holds e s.lock) at refl) at refl refl
        λ r here at. release-Post e need_to_notify_issued_saved s.lock none _ r here (
          launch-Post w e need_to_notify_issued_saved s.lock false notify _ notifying_issued_saved
            (without_lock r) (given_back e s.lock none r here) refl refl at refl)

  pub on_need_to_notify_issued_ca_save_failed-Post :
      s.state ≡ need_to_notify_issued_ca_save_failed
      → Sure
          (Post e need_to_notify_issued_ca_save_failed s.lock)
          (on_need_to_notify_issued_ca_save_failed w e)
          s
  unfolding on_need_to_notify_issued_ca_save_failed
  on_need_to_notify_issued_ca_save_failed-Post at =
      hold-Post e need_to_notify_issued_ca_save_failed s.lock none _ s (holds e s.lock)
        (at_start e s v need_to_notify_issued_ca_save_failed (holds e s.lock) at refl) at refl refl
        λ r here at. release-Post e need_to_notify_issued_ca_save_failed s.lock none _ r here (
          launch-Post w e need_to_notify_issued_ca_save_failed s.lock false notify _
            notifying_issued_ca_save_failed (without_lock r) (given_back e s.lock none r here) refl
            refl at refl)

  pub on_need_to_notify_only_ca_save_failed-Post :
      s.state ≡ need_to_notify_only_ca_save_failed
      → Sure
          (Post e need_to_notify_only_ca_save_failed s.lock)
          (on_need_to_notify_only_ca_save_failed w e)
          s
  unfolding on_need_to_notify_only_ca_save_failed
  on_need_to_notify_only_ca_save_failed-Post at =
      hold-Post e need_to_notify_only_ca_save_failed s.lock none _ s (holds e s.lock)
        (at_start e s v need_to_notify_only_ca_save_failed (holds e s.lock) at refl) at refl refl
        λ r here at. release-Post e need_to_notify_only_ca_save_failed s.lock none _ r here (
          launch-Post w e need_to_notify_only_ca_save_failed s.lock false notify _
            notifying_only_ca_save_failed (without_lock r) (given_back e s.lock none r here) refl
            refl at refl)

  pub on_need_to_notify_rejection-Post :
      s.state ≡ need_to_notify_rejection
      → Sure (Post e need_to_notify_rejection s.lock) (on_need_to_notify_rejection w) s
  unfolding on_need_to_notify_rejection
  on_need_to_notify_rejection-Post at =
      launch-Post w e need_to_notify_rejection s.lock false notify _ notifying_rejection s
        (at_start e s v need_to_notify_rejection false at
          (free_at e s v need_to_notify_rejection at refl))
        refl refl at refl

  pub on_notifying_rejection-Post :
      s.state ≡ notifying_rejection
      → Sure (Post e notifying_rejection s.lock) (on_notifying_rejection w) s
  unfolding on_notifying_rejection
  on_notifying_rejection-Post at =
      let here =
        at_start e s v notifying_rejection false at (free_at e s v notifying_rejection at refl) in
      poll-Post w e notifying_rejection s.lock false notify _ _ s here at refl refl
        λ d. settle-Post w e notifying_rejection s.lock false notify _ _ _ here refl

  pub on_notifying_issued_save_failed-Post :
      s.state ≡ notifying_issued_save_failed
      → Sure (Post e notifying_issued_save_failed s.lock) (on_notifying_issued_save_failed w) s
  unfolding on_notifying_issued_save_failed
  on_notifying_issued_save_failed-Post at =
      let here =
        at_start e s v notifying_issued_save_failed false at
          (free_at e s v notifying_issued_save_failed at refl) in
      poll-Post w e notifying_issued_save_failed s.lock false notify _ _ s here at refl refl
        λ d. settle-Post w e notifying_issued_save_failed s.lock false notify _ _ _ here refl

  pub on_notifying_issued_saved-Post :
      s.state ≡ notifying_issued_saved
      → Sure (Post e notifying_issued_saved s.lock) (on_notifying_issued_saved w) s
  unfolding on_notifying_issued_saved
  on_notifying_issued_saved-Post at =
      let here =
        at_start e s v notifying_issued_saved false at
          (free_at e s v notifying_issued_saved at refl) in
      poll-Post w e notifying_issued_saved s.lock false notify _ _ s here at refl refl
        λ d. settle-Post w e notifying_issued_saved s.lock false notify _ _ _ here refl

  pub on_notifying_issued_ca_save_failed-Post :
      s.state ≡ notifying_issued_ca_save_failed
      → Sure
          (Post e notifying_issued_ca_save_failed s.lock)
          (on_notifying_issued_ca_save_failed w)
          s
  unfolding on_notifying_issued_ca_save_failed
  on_notifying_issued_ca_save_failed-Post at =
      let here =
        at_start e s v notifying_issued_ca_save_failed false at
          (free_at e s v notifying_issued_ca_save_failed at refl) in
      poll-Post w e notifying_issued_ca_save_failed s.lock false notify _ _ s here at refl refl
        λ d. settle-Post w e notifying_issued_ca_save_failed s.lock false notify _ _ _ here refl

  pub on_notifying_only_ca_save_failed-Post :
      s.state ≡ notifying_only_ca_save_failed
      → Sure (Post e notifying_only_ca_save_failed s.lock) (on_notifying_only_ca_save_failed w) s
  unfolding on_notifying_only_ca_save_failed
  on_notifying_only_ca_save_failed-Post at =
      let here =
        at_start e s v notifying_only_ca_save_failed false at
          (free_at e s v notifying_only_ca_save_failed at refl) in
      poll-Post w e notifying_only_ca_save_failed s.lock false notify _ _ s here at refl refl
        λ d. settle-Post w e notifying_only_ca_save_failed s.lock false notify _ _ _ here refl
