-- ===== src/Iterate/Safety/Requests.antt =====
-- The cases of Iterate/Entry/Requests.antt leave what a pass has to leave.
use certmonger.Prelude.{ℕ, ◌≡◌, refl, false, arith}
use certmonger.Store.{
  have_keyinfo, need_csr, generating_csr, have_csr, need_scep_data, generating_scep_data,
  have_scep_data,
}
use certmonger.Iterate.Machine.{World, Machine, csrgen, scepgen}
use certmonger.Iterate.Entry.Requests.{
  on_have_keyinfo, on_need_csr, on_generating_csr, on_have_csr, on_need_scep_data,
  on_generating_scep_data, on_have_scep_data,
}
use certmonger.Iterate.Safety.Invariant.{Inv}
use certmonger.Iterate.Safety.Rules.{Sure}
use certmonger.Iterate.Safety.Outcome.{Post, at_start, free_at}
use certmonger.Iterate.Safety.Shapes.{settle-Post, rung-Post, poll-Post, launch-Post}

module _ (w : World) (e : ℕ) (s : Machine) (v : Inv e s) where
  pub on_have_keyinfo-Post :
      s.state ≡ have_keyinfo → Sure (Post e have_keyinfo s.lock) (on_have_keyinfo w) s
  unfolding on_have_keyinfo
  on_have_keyinfo-Post at =
      ground (arith, at_start e s v have_keyinfo false at (free_at e s v have_keyinfo at refl))

  pub on_need_csr-Post : s.state ≡ need_csr → Sure (Post e need_csr s.lock) (on_need_csr w) s
  unfolding on_need_csr
  on_need_csr-Post at =
      launch-Post w e need_csr s.lock false csrgen _ generating_csr s
        (at_start e s v need_csr false at (free_at e s v need_csr at refl)) refl refl at refl

  pub on_generating_csr-Post :
      s.state ≡ generating_csr → Sure (Post e generating_csr s.lock) (on_generating_csr w) s
  unfolding on_generating_csr
  on_generating_csr-Post at =
      let here = at_start e s v generating_csr false at (free_at e s v generating_csr at refl) in
      let rung = rung-Post w e generating_csr s.lock false csrgen in
      poll-Post w e generating_csr s.lock false csrgen _ _ s here at refl refl λ d.
        rung _ _ _ _ _ here refl λ d. rung _ _ _ _ _ here refl λ d.
          rung _ _ _ _ _ here refl
            λ d. settle-Post w e generating_csr s.lock false csrgen _ _ _ here refl

  pub on_have_csr-Post : s.state ≡ have_csr → Sure (Post e have_csr s.lock) (on_have_csr w) s
  unfolding on_have_csr
  on_have_csr-Post at =
      ground (arith, at_start e s v have_csr false at (free_at e s v have_csr at refl))

  pub on_need_scep_data-Post :
      s.state ≡ need_scep_data → Sure (Post e need_scep_data s.lock) (on_need_scep_data w) s
  unfolding on_need_scep_data
  on_need_scep_data-Post at =
      launch-Post w e need_scep_data s.lock false scepgen _ generating_scep_data s
        (at_start e s v need_scep_data false at (free_at e s v need_scep_data at refl)) refl refl at
        refl

  pub on_generating_scep_data-Post :
      s.state ≡ generating_scep_data
      → Sure (Post e generating_scep_data s.lock) (on_generating_scep_data w) s
  unfolding on_generating_scep_data
  on_generating_scep_data-Post at =
      let here =
        at_start e s v generating_scep_data false at (free_at e s v generating_scep_data at refl) in
      let rung = rung-Post w e generating_scep_data s.lock false scepgen in
      poll-Post w e generating_scep_data s.lock false scepgen _ _ s here at refl refl λ d.
        rung _ _ _ _ _ here refl λ d. rung _ _ _ _ _ here refl λ d. rung _ _ _ _ _ here refl λ d.
          rung _ _ _ _ _ here refl λ d.
            rung _ _ _ _ _ here refl
              λ d. settle-Post w e generating_scep_data s.lock false scepgen _ _ _ here refl

  pub on_have_scep_data-Post :
      s.state ≡ have_scep_data → Sure (Post e have_scep_data s.lock) (on_have_scep_data w) s
  unfolding on_have_scep_data
  on_have_scep_data-Post at =
      ground (arith, at_start e s v have_scep_data false at (free_at e s v have_scep_data at refl))
