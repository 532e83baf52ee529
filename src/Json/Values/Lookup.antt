-- ===== src/Json/Values/Lookup.antt =====
-- src/json.c: an object is a map from names to values.
use certmonger.Prelude.{
  ◌≡◌, refl, subst, ◌∙◌, ap, true, Option, some, none, if◌then◌else◌, Text, text_eq, text_eq_iff,
  Bool-cases, ◌⊎◌, inl, inr, arith,
}
use certmonger.Json.Values.{
  Ref, Fields, ref, no_fields, field, object, json_get, json_set, find_last, replace_last,
  append_field,
}

Option-cases {ℓ} : {A : Type ℓ} (o : Option A) → (o ≡ none) ⊎ ((a : A) × (o ≡ some a))
Option-cases none = inl refl
Option-cases (some a) = inr (a, refl)

module _ {D : Type 0} where
  -- What the last field of a name is when the last field of `key` has the value `v`.
  abbrev updated : Text → Text → Ref D → Fields D → Option (Ref D)
  updated key name v fs = if text_eq name key then some v else find_last name fs

  find_last-append_field :
      (fs : Fields D) (key name : Text) (v : Ref D)
      → find_last name (append_field fs key v) ≡ updated key name v fs
  unfolding find_last append_field
  find_last-append_field no_fields key name v = refl
  find_last-append_field (field k r fs) key name v =
      ground (arith, find_last-append_field fs key name v)

  -- The field that has the name and no field of the name behind it.
  here :
      (fs : Fields D) (key name : Text) (v r : Ref D)
      → find_last key fs ≡ none
      → find_last name (field key v fs) ≡ updated key name v (field key r fs)
  unfolding find_last
  here fs key name v r e = elim (Bool-cases (text_eq name key)) [
    | inl b ↦
        let gone : find_last name fs ≡ none =
          ap (λ t. find_last t fs) ((text_eq_iff name key).0 b) ∙ e in
        ground (arith, b, gone)
    | inr b ↦ ground (arith, b)
  ]

  find_last-replace_last :
      (fs : Fields D) (key name : Text) (v old : Ref D)
      → find_last key fs ≡ some old
      → find_last name (replace_last key v fs) ≡ updated key name v fs
  unfolding find_last replace_last
  find_last-replace_last no_fields key name v old h = absurd (ground (arith, h))
  find_last-replace_last (field k r fs) key name v old h = elim (Option-cases (find_last key fs)) [
    | inr (o, e) ↦ rw (replace_last, e) (deeper (find_last-replace_last fs key name v o e))
    | inl e ↦
        let same : text_eq key k ≡ true = only (find_last key fs) e h in
        let step : replace_last key v (field k r fs) ≡ field k v fs =
          rw (replace_last, e, same) refl in
        ap (λ gs. find_last name gs) step
        ∙ (subst (λ l. find_last name (field l v fs) ≡ updated key name v (field l r fs))
            ((text_eq_iff key k).0 same) (here fs key name v r e))
  ]
    where
      deeper :
          find_last name (replace_last key v fs) ≡ updated key name v fs
          → find_last name (field k r (replace_last key v fs)) ≡ updated key name v (field k r fs)
      deeper ih = ground (arith, ih)

      only :
          (o : Option (Ref D))
          → o ≡ none
          → (elim o [ some found ↦ some found | none ↦ if text_eq key k then some r else none ])
            ≡ some old
          → text_eq key k ≡ true
      only o e g = ground (arith, e, g)

  -- Setting a name changes what is found of that name, and of no other.
  find_last-json_set :
      (fs : Fields D) (key name : Text) (v : Ref D)
      → find_last name (json_set fs key v) ≡ updated key name v fs
  unfolding json_set
  find_last-json_set fs key name v = elim (Option-cases (find_last key fs)) [
    | inl e ↦ rw (json_set, e) (find_last-append_field fs key name v)
    | inr (o, e) ↦ rw (json_set, e) (find_last-replace_last fs key name v o e)
  ]

  -- After `cm_json_set` of a value under a name, `cm_json_get` of that name gives the value, and of any
  -- other name what it gave before.
  pub json_get-json_set :
      (fs : Fields D) (key name : Text) (v : Ref D)
      → json_get (ref (object (json_set fs key v))) (some name)
        ≡ (if text_eq name key then v else json_get (ref (object fs)) (some name))
  unfolding json_get
  json_get-json_set fs key name v = ground (arith, find_last-json_set fs key name v)
