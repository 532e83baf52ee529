-- ===== src/Iterate/Safety/Keys.antt =====
-- The cases of Iterate/Entry/Keys.antt leave what a pass has to leave.
use certmonger.Prelude.{ℕ, ◌≡◌, refl, true, false, some, arith}
use certmonger.Store.{
  need_key_pair, generating_key_pair, have_key_pair, need_keyinfo, reading_keyinfo,
}
use certmonger.Iterate.Machine.{World, Machine, keygen, keyiread}
use certmonger.Iterate.Lock.{lock_by_entry, unlock_by_entry, is_held_by}
use certmonger.Iterate.Machine.{no_tasks}
use certmonger.Iterate.Steps.{take_lock}
use certmonger.Iterate.Safety.Invariant.{tasks_for, phase_fits}
use certmonger.Iterate.Entry.Keys.{
  on_need_key_pair, on_generating_key_pair, on_have_key_pair, on_need_keyinfo, on_reading_keyinfo,
}
use certmonger.Iterate.Safety.Invariant.{Inv}
use certmonger.Iterate.Safety.Rules.{Sure, with_details}
use certmonger.Iterate.Safety.Outcome.{Post, at_start, held_at, free_at}
use certmonger.Iterate.Safety.Shapes.{
  settle-Post, rung-Post, poll-Post, launch-Post, release-Post, given_back,
}

module _ (w : World) (e : ℕ) (s : Machine) (v : Inv e s) where
  pub on_need_key_pair-Post :
      s.state ≡ need_key_pair → Sure (Post e need_key_pair s.lock) (on_need_key_pair w e) s
  unfolding on_need_key_pair take_lock lock_by_entry unlock_by_entry no_tasks tasks_for phase_fits
      is_held_by
  on_need_key_pair-Post at =
      ground (arith, at_start e s v need_key_pair false at (free_at e s v need_key_pair at refl))

  pub on_generating_key_pair-Post :
      s.state ≡ generating_key_pair
      → Sure (Post e generating_key_pair s.lock) (on_generating_key_pair w e) s
  unfolding on_generating_key_pair
  on_generating_key_pair-Post at =
      let here =
        at_start e s v generating_key_pair true at (held_at e s v generating_key_pair at refl) in
      poll-Post w e generating_key_pair s.lock true keygen _ _ s here at refl refl λ d.
        let r = with_details s d in
        let back = given_back e s.lock (some keygen) r here in
        let rung = rung-Post w e generating_key_pair s.lock false keygen in
        release-Post e generating_key_pair s.lock (some keygen) _ r here (
          rung _ _ _ _ _ back refl (λ d. rung _ _ _ _ _ back refl (λ d.
            rung _ _ _ _ _ back refl (λ d.
              rung _ _ _ _ _ back refl
                (λ d. settle-Post w e generating_key_pair s.lock false keygen _ _ _ back refl)))))

  pub on_have_key_pair-Post :
      s.state ≡ have_key_pair → Sure (Post e have_key_pair s.lock) (on_have_key_pair w) s
  unfolding on_have_key_pair
  on_have_key_pair-Post at =
      ground (arith, at_start e s v have_key_pair false at (free_at e s v have_key_pair at refl))

  pub on_need_keyinfo-Post :
      s.state ≡ need_keyinfo → Sure (Post e need_keyinfo s.lock) (on_need_keyinfo w) s
  unfolding on_need_keyinfo
  on_need_keyinfo-Post at =
      launch-Post w e need_keyinfo s.lock false keyiread _ reading_keyinfo s
        (at_start e s v need_keyinfo false at (free_at e s v need_keyinfo at refl)) refl refl at
        refl

  pub on_reading_keyinfo-Post :
      s.state ≡ reading_keyinfo → Sure (Post e reading_keyinfo s.lock) (on_reading_keyinfo w) s
  unfolding on_reading_keyinfo
  on_reading_keyinfo-Post at =
      let here = at_start e s v reading_keyinfo false at (free_at e s v reading_keyinfo at refl) in
      let rung = rung-Post w e reading_keyinfo s.lock false keyiread in
      poll-Post w e reading_keyinfo s.lock false keyiread _ _ s here at refl refl λ d.
        rung _ _ _ _ _ here refl λ d. rung _ _ _ _ _ here refl λ d.
          rung _ _ _ _ _ here refl
            λ d. settle-Post w e reading_keyinfo s.lock false keyiread _ _ _ here refl
