-- ===== src/Iterate/Safety/CaSaving.antt =====
-- The cases of Iterate/Entry/CaSaving.antt leave what a pass has to leave.
use certmonger.Prelude.{ℕ, ◌≡◌, refl, true, false, none, some, arith}
use certmonger.Store.{
  need_to_save_ca_certs, start_saving_ca_certs, saving_ca_certs, need_to_save_only_ca_certs,
  start_saving_only_ca_certs, saving_only_ca_certs,
}
use certmonger.Iterate.Machine.{World, Machine, casave}
use certmonger.Iterate.Entry.CaSaving.{
  on_need_to_save_ca_certs, on_need_to_save_only_ca_certs, on_saving_only_ca_certs,
  on_start_saving_ca_certs, on_saving_ca_certs, on_start_saving_only_ca_certs,
}
use certmonger.Iterate.Safety.Invariant.{Inv, holds}
use certmonger.Iterate.Safety.Rules.{Sure, with_details}
use certmonger.Iterate.Safety.Outcome.{Post, at_start, held_at}
use certmonger.Iterate.Safety.Shapes.{
  settle-Post, rung-Post, poll-Post, launch-Post, release-Post, hold-Post, when-Post, given_back,
}

module _ (w : World) (e : ℕ) (s : Machine) (v : Inv e s) where
  pub on_need_to_save_ca_certs-Post :
      s.state ≡ need_to_save_ca_certs
      → Sure (Post e need_to_save_ca_certs s.lock) (on_need_to_save_ca_certs w e) s
  unfolding on_need_to_save_ca_certs
  on_need_to_save_ca_certs-Post at =
      hold-Post e need_to_save_ca_certs s.lock none _ s (holds e s.lock)
        (at_start e s v need_to_save_ca_certs (holds e s.lock) at refl) at refl refl
        λ r here at. ground (arith, here)

  pub on_need_to_save_only_ca_certs-Post :
      s.state ≡ need_to_save_only_ca_certs
      → Sure (Post e need_to_save_only_ca_certs s.lock) (on_need_to_save_only_ca_certs w e) s
  unfolding on_need_to_save_only_ca_certs
  on_need_to_save_only_ca_certs-Post at =
      hold-Post e need_to_save_only_ca_certs s.lock none _ s (holds e s.lock)
        (at_start e s v need_to_save_only_ca_certs (holds e s.lock) at refl) at refl refl
        λ r here at. ground (arith, here)

  pub on_start_saving_ca_certs-Post :
      s.state ≡ start_saving_ca_certs
      → Sure (Post e start_saving_ca_certs s.lock) (on_start_saving_ca_certs w) s
  unfolding on_start_saving_ca_certs
  on_start_saving_ca_certs-Post at =
      launch-Post w e start_saving_ca_certs s.lock true casave _ saving_ca_certs s
        (at_start e s v start_saving_ca_certs true at (held_at e s v start_saving_ca_certs at refl))
        refl refl at refl

  pub on_start_saving_only_ca_certs-Post :
      s.state ≡ start_saving_only_ca_certs
      → Sure (Post e start_saving_only_ca_certs s.lock) (on_start_saving_only_ca_certs w) s
  unfolding on_start_saving_only_ca_certs
  on_start_saving_only_ca_certs-Post at =
      launch-Post w e start_saving_only_ca_certs s.lock true casave _ saving_only_ca_certs s
        (at_start e s v start_saving_only_ca_certs true at
          (held_at e s v start_saving_only_ca_certs at refl))
        refl refl at refl

  pub on_saving_ca_certs-Post :
      s.state ≡ saving_ca_certs → Sure (Post e saving_ca_certs s.lock) (on_saving_ca_certs w) s
  unfolding on_saving_ca_certs
  on_saving_ca_certs-Post at =
      let here = at_start e s v saving_ca_certs true at (held_at e s v saving_ca_certs at refl) in
      let rung = rung-Post w e saving_ca_certs s.lock true casave in
      poll-Post w e saving_ca_certs s.lock true casave _ _ s here at refl refl λ d.
        rung _ _ _ _ _ here refl λ d.
          rung _ _ _ _ _ here refl
            λ d. settle-Post w e saving_ca_certs s.lock true casave _ _ _ here refl

  pub on_saving_only_ca_certs-Post :
      s.state ≡ saving_only_ca_certs
      → Sure (Post e saving_only_ca_certs s.lock) (on_saving_only_ca_certs w e) s
  unfolding on_saving_only_ca_certs
  on_saving_only_ca_certs-Post at =
      let here =
        at_start e s v saving_only_ca_certs true at (held_at e s v saving_only_ca_certs at refl) in
      let ask = when-Post w e saving_only_ca_certs s.lock true casave in
      let give = release-Post e saving_only_ca_certs s.lock (some casave) in
      let back = given_back e s.lock (some casave) s here in
      let end = settle-Post w e saving_only_ca_certs s.lock false casave in
      poll-Post w e saving_only_ca_certs s.lock true casave _ _ s here at refl refl λ d.
        ask _ _ _ (with_details s d) here
          (λ d. give _ (with_details s d) here (end _ _ _ back refl))
          λ d.
            ask _ _ _ (with_details s d) here
              (λ d. give _ (with_details s d) here (end _ _ _ back refl))
              λ d. settle-Post w e saving_only_ca_certs s.lock true casave _ _ _ here refl
