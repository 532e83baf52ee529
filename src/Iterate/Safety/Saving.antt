-- ===== src/Iterate/Safety/Saving.antt =====
-- The cases of Iterate/Entry/Saving.antt leave what a pass has to leave.
use certmonger.Prelude.{ℕ, ◌≡◌, refl, true, false, none, arith}
use certmonger.Store.{
  need_to_save_cert, pre_save_cert, start_saving_cert, saving_cert, need_to_read_cert, reading_cert,
  saved_cert, post_saved_cert, need_to_notify_issued_saved,
}
use certmonger.Iterate.Machine.{World, Machine, certread, certsave, hook}
use certmonger.Iterate.Entry.Saving.{
  on_need_to_save_cert, on_need_to_read_cert, on_pre_save_cert, on_start_saving_cert,
  on_saving_cert, on_saved_cert, on_reading_cert, on_post_saved_cert,
}
use certmonger.Iterate.Safety.Invariant.{Inv, holds}
use certmonger.Iterate.Safety.Rules.{Sure, with_details, with_lock}
use certmonger.Iterate.Safety.Outcome.{Post, at_start, held_at, free_at}
use certmonger.Iterate.Safety.Shapes.{
  settle-Post, rung-Post, poll-Post, launch-Post, skip-Post, take-Post, hold-Post, when-Post,
  finish-Post,
}

module _ (w : World) (e : ℕ) (s : Machine) (v : Inv e s) where
  pub on_need_to_save_cert-Post :
      s.state ≡ need_to_save_cert
      → Sure (Post e need_to_save_cert s.lock) (on_need_to_save_cert w e) s
  unfolding on_need_to_save_cert
  on_need_to_save_cert-Post at =
      take-Post e need_to_save_cert s.lock none _ s
        (at_start e s v need_to_save_cert false at (free_at e s v need_to_save_cert at refl)) at
        refl refl
        λ here.
          skip-Post w e need_to_save_cert s.lock true hook _ pre_save_cert (with_lock e s) here refl
            refl start_saving_cert refl

  pub on_pre_save_cert-Post :
      s.state ≡ pre_save_cert → Sure (Post e pre_save_cert s.lock) (on_pre_save_cert w) s
  unfolding on_pre_save_cert
  on_pre_save_cert-Post at =
      let here = at_start e s v pre_save_cert true at (held_at e s v pre_save_cert at refl) in
      poll-Post w e pre_save_cert s.lock true hook _ _ s here at refl refl
        λ d. settle-Post w e pre_save_cert s.lock true hook _ _ _ here refl

  pub on_start_saving_cert-Post :
      s.state ≡ start_saving_cert
      → Sure (Post e start_saving_cert s.lock) (on_start_saving_cert w) s
  unfolding on_start_saving_cert
  on_start_saving_cert-Post at =
      launch-Post w e start_saving_cert s.lock (holds e s.lock) certsave _ saving_cert s
        (at_start e s v start_saving_cert (holds e s.lock) at refl) refl refl at refl

  pub on_saving_cert-Post :
      s.state ≡ saving_cert → Sure (Post e saving_cert s.lock) (on_saving_cert w) s
  unfolding on_saving_cert
  on_saving_cert-Post at =
      let here = at_start e s v saving_cert (holds e s.lock) at refl in
      let rung = rung-Post w e saving_cert s.lock (holds e s.lock) certsave in
      poll-Post w e saving_cert s.lock (holds e s.lock) certsave _ _ s here at refl refl λ d.
        rung _ _ _ _ _ here refl λ d. rung _ _ _ _ _ here refl λ d. rung _ _ _ _ _ here refl λ d.
          rung _ _ _ _ _ here refl
            λ d. settle-Post w e saving_cert s.lock (holds e s.lock) certsave _ _ _ here refl

  pub on_saved_cert-Post :
      s.state ≡ saved_cert → Sure (Post e saved_cert s.lock) (on_saved_cert w) s
  unfolding on_saved_cert
  on_saved_cert-Post at = ground (arith, at_start e s v saved_cert (holds e s.lock) at refl)

  pub on_need_to_read_cert-Post :
      s.state ≡ need_to_read_cert
      → Sure (Post e need_to_read_cert s.lock) (on_need_to_read_cert w e) s
  unfolding on_need_to_read_cert
  on_need_to_read_cert-Post at =
      hold-Post e need_to_read_cert s.lock none _ s (holds e s.lock)
        (at_start e s v need_to_read_cert (holds e s.lock) at refl) at refl refl
        λ r here at.
          launch-Post w e need_to_read_cert s.lock true certread _ reading_cert r here refl refl at
            refl

  pub on_reading_cert-Post :
      s.state ≡ reading_cert → Sure (Post e reading_cert s.lock) (on_reading_cert w) s
  unfolding on_reading_cert
  on_reading_cert-Post at =
      let here = at_start e s v reading_cert true at (held_at e s v reading_cert at refl) in
      poll-Post w e reading_cert s.lock true certread _ _ s here at refl refl λ d.
        when-Post w e reading_cert s.lock true certread _ _ _ (with_details s d) here
          (λ d.
            finish-Post w e reading_cert s.lock true certread _ (with_details s d) here λ d idle.
              skip-Post w e reading_cert s.lock true hook _ post_saved_cert _ idle refl refl
                need_to_notify_issued_saved refl)
          (λ d. settle-Post w e reading_cert s.lock true certread _ _ _ here refl)

  pub on_post_saved_cert-Post :
      s.state ≡ post_saved_cert → Sure (Post e post_saved_cert s.lock) (on_post_saved_cert w) s
  unfolding on_post_saved_cert
  on_post_saved_cert-Post at =
      let here = at_start e s v post_saved_cert true at (held_at e s v post_saved_cert at refl) in
      poll-Post w e post_saved_cert s.lock true hook _ _ s here at refl refl
        λ d. settle-Post w e post_saved_cert s.lock true hook _ _ _ here refl
