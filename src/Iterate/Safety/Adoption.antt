-- ===== src/Iterate/Safety/Adoption.antt =====
-- Which CA a newly added entry is given by src/iterate.c.
use certmonger.Prelude.{
  ◌≡◌, refl, ap, subst, ◌⊎◌, inl, inr, Bool, true, false, Option, none, some, is_some, List, [],
  ◌∷◌, ◌++◌, All, if◌then◌else◌, Bool-cases, Text, arith,
}
use certmonger.Store.{Details, Ca}
use certmonger.Iterate.Entry.Added.{is_issuer, last_fit, choose_ca}

-- No CA of the list fits.
abbrev pub NoneFits : (Ca → Bool) → List Ca → Type 0
NoneFits fits cas = All (λ ca. fits ca ≡ false) cas

-- The nickname is that of the last CA of the list that fits.
abbrev pub LastFits : (Ca → Bool) → List Ca → Option Text → Type 0
LastFits fits cas nickname =
    (before : List Ca) × (ca : Ca) × (after : List Ca) × (cas ≡ before ++ (ca ∷ after))
    × (fits ca ≡ true)
    × NoneFits fits after
    × (ca.nickname ≡ nickname)

-- No CA fits, or the last that does has no nickname.
abbrev pub GivesNone : (Ca → Bool) → List Ca → Type 0
GivesNone fits cas = NoneFits fits cas ⊎ LastFits fits cas none

last_fit_cases :
    (fits : Ca → Bool) (n : Option Text) (cas : List Ca)
    → (NoneFits fits cas × (last_fit fits n cas ≡ n)) ⊎ LastFits fits cas (last_fit fits n cas)
unfolding last_fit
last_fit_cases fits n [] = inl (tt, refl)
last_fit_cases fits n (ca ∷ cas) =
    elim (last_fit_cases fits (if fits ca then ca.nickname else n) cas) [
      | inl (rest, same) ↦ elim (Bool-cases (fits ca)) [
        | inl hit ↦ inr ([], ca, cas, refl, hit, rest, ground (arith, hit, same))
        | inr miss ↦ inl ((miss, rest), ground (arith, miss, same))
      ]
      | inr (before, x, after, split, hit, rest, name) ↦
          inr (ca ∷ before, x, after, ap (λ cs. ca ∷ cs) split, hit, rest, name)
    ]

last_fit-none :
    (fits : Ca → Bool) (cas : List Ca) → last_fit fits none cas ≡ none → GivesNone fits cas
last_fit-none fits cas missing = elim (last_fit_cases fits none cas) [
  | inl (unfit, same) ↦ inl unfit
  | inr last ↦ inr (subst (LastFits fits cas) missing last)
]

last_fit-some :
    (fits : Ca → Bool) (cas : List Ca) (n : Text)
    → last_fit fits none cas ≡ some n
    → LastFits fits cas (some n)
last_fit-some fits cas n found = elim (last_fit_cases fits none cas) [
  | inl (unfit, same) ↦ cc
  | inr last ↦ subst (LastFits fits cas) found last
]

-- The issuer of the certificate is not known, or gives no CA.
abbrev pub NoIssuer : Option Text → List Ca → Type 0
NoIssuer none cas = Unit
NoIssuer (some i) cas = GivesNone (is_issuer i) cas

-- The CA of an entry, in the order of precedence: its own; else the last that is known under the issuer's
-- name; else the last that is marked as the default; else the one of the configuration.
pub data Chosen (default : Option Text) (cas : List Ca)
    : Option Text → Option Text → Option Text → Type 0 where
  own : {issuer : Option Text} (n : Text) → Chosen default cas (some n) issuer (some n)
  by_issuer :
      (i n : Text) → LastFits (is_issuer i) cas (some n) → Chosen default cas none (some i) (some n)
  marked :
      (issuer : Option Text) (n : Text)
      → NoIssuer issuer cas
      → LastFits (λ ca. ca.is_default) cas (some n)
      → Chosen default cas none issuer (some n)
  configured :
      (issuer : Option Text)
      → NoIssuer issuer cas
      → GivesNone (λ ca. ca.is_default) cas
      → Chosen default cas none issuer default

chosen_by_default :
    (default : Option Text) (cas : List Ca) (issuer o : Option Text)
    → last_fit (λ ca. ca.is_default) none cas ≡ o
    → NoIssuer issuer cas
    → Chosen default cas none issuer (if is_some o then o else default)
chosen_by_default default cas issuer none e unknown =
    configured issuer unknown (last_fit-none _ cas e)
chosen_by_default default cas issuer (some n) e unknown =
    marked issuer n unknown (last_fit-some _ cas n e)

chosen_by_issuer :
    (default : Option Text) (cas : List Ca) (i : Text) (o : Option Text)
    → last_fit (is_issuer i) none cas ≡ o
    → let by_default = last_fit (λ ca. ca.is_default) none cas in
      Chosen default cas none
        (some i)
        (if is_some o then o else (if is_some by_default then by_default else default))
chosen_by_issuer default cas i none e =
    chosen_by_default default cas (some i) _ refl (last_fit-none _ cas e)
chosen_by_issuer default cas i (some n) e = by_issuer i n (last_fit-some _ cas n e)

chosen :
    (default : Option Text) (cas : List Ca) (own_nickname issuer : Option Text)
    → let known =
        if is_some own_nickname
        then own_nickname
        else elim issuer [ none ↦ none | some i ↦ last_fit (is_issuer i) none cas ] in
      let by_default = last_fit (λ ca. ca.is_default) none cas in
      Chosen default cas own_nickname issuer
        (if is_some known then known else (if is_some by_default then by_default else default))
chosen default cas (some n) issuer = own n
chosen default cas none none = chosen_by_default default cas none _ refl tt
chosen default cas none (some i) = chosen_by_issuer default cas i _ refl

-- An entry that has a CA keeps it. Else it is given the last CA that is known under the issuer's name of
-- its certificate; else, when there is none with a nickname, the last that is marked as the default; else
-- the one that the configuration names, if any.
pub choose_ca-Chosen :
    (default : Option Text) (cas : List Ca) (d : Details)
    → Chosen default cas d.ca_nickname d.cert_issuer (choose_ca default cas d)
unfolding choose_ca
choose_ca-Chosen default cas d = chosen default cas d.ca_nickname d.cert_issuer
