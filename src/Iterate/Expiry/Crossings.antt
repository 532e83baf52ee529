-- ===== src/Iterate/Expiry/Crossings.antt =====
-- What `cm_check_expiration_is_noteworthy` answers, against a description by the moments at which
-- a certificate comes within a configured distance of its end.
use mathlib.Core.List.{Memᴰ}
use certmonger.Prelude.{
  ℕ, ◌+◌, ◌≤◌, ◌<◌, ◌≡◌, refl, ◌↔◌, ◌⊎◌, inl, inr, subst, sym, Bool, true, false, Option, none,
  some, List, [], ◌∷◌, any, Bool-cases, arith, ◌||◌, ◌==◌,
}
use certmonger.Iterate.Delay.{delay_monitor_poll_minimum}
use certmonger.Iterate.Expiry.{ttl_at, crosses, check_noteworthy}

any-true {ℓ} :
    {A : Type ℓ} (p : A → Bool) (xs : List A) → any p xs ≡ true → (x : A) × Memᴰ x xs × (p x ≡ true)
any-true p [] h = cc
any-true p (x ∷ xs) h = elim (Bool-cases (p x)) [
  | inl e ↦ (x, Memᴰ.head refl, e)
  | inr e ↦ let (y, m, q) = any-true p xs (ground arith) in (y, Memᴰ.tail m, q)
]

any_of_mem {ℓ} :
    {A : Type ℓ} (p : A → Bool) (x : A) (xs : List A) → Memᴰ x xs → p x ≡ true → any p xs ≡ true
any_of_mem p x [] m h = elim m [ ]
any_of_mem p x (y ∷ xs) (Memᴰ.head e) h = ground arith
any_of_mem p x (y ∷ xs) (Memᴰ.tail m) h = ground (arith, any_of_mem p x xs m h)

-- The certificate was outside the last `t` seconds of its life at one moment, and inside at another.
abbrev pub Comes : ℕ → ℕ → ℕ → ℕ → Type 0
Comes not_after t before after = (before + t ≤ not_after) × (not_after < after + t)

-- What calls for action between two checks: a configured distance was passed, in whichever
-- direction the clock went, or the end itself has come.
abbrev pub Noteworthy : ℕ → List ℕ → ℕ → ℕ → Type 0
Noteworthy not_after ts last at =
    ((t : ℕ) × Memᴰ t ts × (0 < t) × (Comes not_after t last at ⊎ Comes not_after t at last))
    ⊎ (not_after ≤ at)

crosses_iff :
    (not_after t last at : ℕ)
    → (crosses (ttl_at not_after at) (ttl_at not_after last) t ≡ true)
      ↔ ((0 < t) × (Comes not_after t last at ⊎ Comes not_after t at last))
unfolding crosses ttl_at
crosses_iff not_after t last at = (λ h. ground arith, λ h. ground arith)

module _ (not_after last at : ℕ) where
  abbrev hit : ℕ → Bool
  hit = crosses (ttl_at not_after at) (ttl_at not_after last)

  sound :
      (ts : List ℕ)
      → any hit ts || ttl_at not_after at == 0 ≡ true
      → Noteworthy not_after ts last at
  sound ts h = elim (Bool-cases (any hit ts)) [
    | inl e ↦
        let (t, m, q) = any-true hit ts e in
        let (z, c) = (crosses_iff not_after t last at).0 q in inl (t, m, z, c)
    | inr e ↦ inr (ended ts h e)
  ]
    where
      ended :
          (ts : List ℕ)
          → any hit ts || ttl_at not_after at == 0 ≡ true
          → any hit ts ≡ false
          → not_after ≤ at
      ended ts h e = unfold ttl_at in ground arith

  complete :
      (ts : List ℕ)
      → Noteworthy not_after ts last at
      → any hit ts || ttl_at not_after at == 0 ≡ true
  complete ts (inl (t, m, z, c)) =
      ground (arith, any_of_mem hit t ts m ((crosses_iff not_after t last at).1 (z, c)))
  complete ts (inr e) = unfold ttl_at in ground arith

  -- The certificate's end is known and it is old enough to be checked.
  abbrev pub IsChecked : ℕ → Type 0
  IsChecked not_before = (0 < not_after) × (not_before + delay_monitor_poll_minimum ≤ at)

  pub configured_iff :
      (not_before t : ℕ) (ts : List ℕ)
      → 0 < not_after
      → not_before + delay_monitor_poll_minimum ≤ at
      → let r = check_noteworthy at not_before not_after (some (t ∷ ts)) last in
        ((r.0 ≡ true) ↔ Noteworthy not_after (t ∷ ts) last at) × (r.1 ≡ at)
  unfolding check_noteworthy
  configured_iff not_before t ts known old =
      ((λ h. sound (t ∷ ts) (ground arith), λ h. ground (arith, complete (t ∷ ts) h)), ground arith)

  yes_only_if :
      (not_before : ℕ) (ttls : Option (List ℕ))
      → (check_noteworthy at not_before not_after ttls last).0 ≡ true
      → IsChecked not_before
        × ((t : ℕ) × (ts : List ℕ) × (ttls ≡ some (t ∷ ts)) × Noteworthy not_after (t ∷ ts) last at)
  unfolding check_noteworthy
  yes_only_if not_before none h = absurd (ground (arith, h))
  yes_only_if not_before (some []) h = absurd (ground (arith, h))
  yes_only_if not_before (some (t ∷ ts)) h =
      let checked : IsChecked not_before = ground (arith, h) in
      (
        checked,
        (t, ts, refl, (configured_iff not_before t ts checked.0 checked.1).0.0 (ground (arith, h))),
      )

  -- The check answers yes exactly when the end of the certificate is known, the certificate is old
  -- enough, distances are configured, and one of them, not 0, was passed since the last check, in
  -- either direction, or the end has come. It notes the time of the check exactly when the end is
  -- known and the certificate is old enough, and else leaves the time of the last check.
  pub check_noteworthy_iff :
      (not_before : ℕ) (ttls : Option (List ℕ))
      → let r = check_noteworthy at not_before not_after ttls last in
        ((r.0 ≡ true) ↔ (
          IsChecked not_before
          × ((t : ℕ) × (ts : List ℕ) × (ttls ≡ some (t ∷ ts))
              × Noteworthy not_after (t ∷ ts) last at)))
        × ((IsChecked not_before × (r.1 ≡ at))
            ⊎ (((not_after ≡ 0) ⊎ (at < not_before + delay_monitor_poll_minimum)) × (r.1 ≡ last)))
  check_noteworthy_iff not_before ttls = (
    (
      yes_only_if not_before ttls,
      λ (checked, (t, ts, e, near)).
          subst (λ o. (check_noteworthy at not_before not_after o last).0 ≡ true) (sym e)
            ((configured_iff not_before t ts checked.0 checked.1).0.1 near),
    ),
    unfold check_noteworthy in ground arith,
  )
