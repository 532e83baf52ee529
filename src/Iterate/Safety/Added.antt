-- ===== src/Iterate/Safety/Added.antt =====
-- The cases of Iterate/Entry/Added.antt leave what a pass has to leave.
use certmonger.Prelude.{ℕ, Bool, List, if◌then◌else◌, ◌≡◌, refl, true, false, none, some, arith}
use certmonger.Store.{
  Ca, Details, newly_added, newly_added_start_reading_keyinfo, newly_added_reading_keyinfo,
  newly_added_start_reading_cert, newly_added_reading_cert, newly_added_deciding,
}
use certmonger.Iterate.Machine.{When, World, Machine, certread, keyiread}
use certmonger.Iterate.Entry.Added.{
  has_key_storage, decide_state, on_newly_added, on_newly_added_reading_keyinfo,
  on_newly_added_deciding, on_newly_added_start_reading_keyinfo, on_newly_added_start_reading_cert,
  on_newly_added_reading_cert,
}
use certmonger.Iterate.Safety.Invariant.{Inv}
use certmonger.Iterate.Safety.Rules.{Sure, with_details, with_lock}
use certmonger.Iterate.Safety.Outcome.{Post, at_start, held_at, free_at, Here, settled, may_settle}
use certmonger.Iterate.Safety.Shapes.{
  settle-Post, poll-Post, launch-Post, release-Post, take-Post, when-Post, given_back,
}

decide_state_fits :
    (cas : List Ca) (d : Details)
    → may_settle newly_added_deciding false (decide_state cas d) When.now ≡ true
unfolding decide_state
decide_state_fits cas d = ground arith

module _ (w : World) (e : ℕ) (s : Machine) (v : Inv e s) where
  pub on_newly_added_start_reading_keyinfo-Post :
      s.state ≡ newly_added_start_reading_keyinfo
      → Sure
          (Post e newly_added_start_reading_keyinfo s.lock)
          (on_newly_added_start_reading_keyinfo w)
          s
  unfolding on_newly_added_start_reading_keyinfo
  on_newly_added_start_reading_keyinfo-Post at =
      launch-Post w e newly_added_start_reading_keyinfo s.lock true keyiread _
        newly_added_reading_keyinfo s
        (at_start e s v newly_added_start_reading_keyinfo true at
          (held_at e s v newly_added_start_reading_keyinfo at refl))
        refl refl at refl

  pub on_newly_added_start_reading_cert-Post :
      s.state ≡ newly_added_start_reading_cert
      → Sure (Post e newly_added_start_reading_cert s.lock) (on_newly_added_start_reading_cert w) s
  unfolding on_newly_added_start_reading_cert
  on_newly_added_start_reading_cert-Post at =
      launch-Post w e newly_added_start_reading_cert s.lock true certread _ newly_added_reading_cert
        s
        (at_start e s v newly_added_start_reading_cert true at
          (held_at e s v newly_added_start_reading_cert at refl))
        refl refl at refl

  pub on_newly_added_reading_cert-Post :
      s.state ≡ newly_added_reading_cert
      → Sure (Post e newly_added_reading_cert s.lock) (on_newly_added_reading_cert w) s
  unfolding on_newly_added_reading_cert
  on_newly_added_reading_cert-Post at =
      let here =
        at_start e s v newly_added_reading_cert true at
          (held_at e s v newly_added_reading_cert at refl) in
      poll-Post w e newly_added_reading_cert s.lock true certread _ _ s here at refl refl
        λ d. settle-Post w e newly_added_reading_cert s.lock true certread _ _ _ here refl

  pub on_newly_added-Post :
      s.state ≡ newly_added → Sure (Post e newly_added s.lock) (on_newly_added w e) s
  unfolding on_newly_added
  on_newly_added-Post at =
      take-Post e newly_added s.lock none _ s
        (at_start e s v newly_added false at (free_at e s v newly_added at refl)) at refl refl
        λ here. added (has_key_storage s.details.key_storage) here
    where
      added :
          (b : Bool)
          → Here e s.lock true none (with_lock e s).lock s.tasks
          → Post e newly_added s.lock (record s {
            lock = (with_lock e s).lock;
            state =
                (if b then newly_added_start_reading_keyinfo else newly_added_start_reading_cert);
            when = When.now;
          })
      added true here = settled {b = true} _ here refl
      added false here = settled {b = true} _ here refl

  pub on_newly_added_reading_keyinfo-Post :
      s.state ≡ newly_added_reading_keyinfo
      → Sure (Post e newly_added_reading_keyinfo s.lock) (on_newly_added_reading_keyinfo w e) s
  unfolding on_newly_added_reading_keyinfo
  on_newly_added_reading_keyinfo-Post at =
      let here =
        at_start e s v newly_added_reading_keyinfo true at
          (held_at e s v newly_added_reading_keyinfo at refl) in
      let ask = when-Post w e newly_added_reading_keyinfo s.lock true keyiread in
      let give = release-Post e newly_added_reading_keyinfo s.lock (some keyiread) in
      let back = given_back e s.lock (some keyiread) s here in
      let end = settle-Post w e newly_added_reading_keyinfo s.lock false keyiread in
      let go_on = settle-Post w e newly_added_reading_keyinfo s.lock true keyiread in
      poll-Post w e newly_added_reading_keyinfo s.lock true keyiread _ _ s here at refl refl λ d.
        ask _ _ _ (with_details s d) here (λ d. go_on _ _ _ here refl)
          λ d.
            ask _ _ _ (with_details s d) here
              (λ d. give _ (with_details s d) here (end _ _ _ back refl))
              λ d.
                ask _ _ _ (with_details s d) here
                  (λ d. give _ (with_details s d) here (end _ _ _ back refl))
                  λ d. go_on _ _ _ here refl

  pub on_newly_added_deciding-Post :
      s.state ≡ newly_added_deciding
      → Sure (Post e newly_added_deciding s.lock) (on_newly_added_deciding w e) s
  unfolding on_newly_added_deciding
  on_newly_added_deciding-Post at =
      let here =
        at_start e s v newly_added_deciding true at (held_at e s v newly_added_deciding at refl) in
      release-Post e newly_added_deciding s.lock none _ s here
        (settled {b = false} _ (given_back e s.lock none s here) (decide_state_fits w.cas _))
