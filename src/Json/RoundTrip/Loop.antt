-- ===== src/Json/RoundTrip/Loop.antt =====
-- src/json.c: the loop of `cm_json_decode` over the text of one value.
use Prim.Native.Nat.{zero, suc}
use certmonger.Prelude.{
  ℕ, ◌+◌, ◌*◌, ◌<◌, ◌≤◌, ◌≡◌, refl, ap, ◌∙◌, Bool, true, false, [], ◌∷◌, ◌++◌, Text, length, arith,
}
use certmonger.Json.Values.{Json, nowhere, ref}
use certmonger.Json.Decode.{
  Level, Aggregate, undefined, in_array, in_object, Action, go, nest, finish, stop, broken, Decoded,
  decoded, failed, bad_access, starved, is_space, in_number, no_value, skip_space, initial,
  with_sub, action, loop,
}

-- What may stand behind a value: the end of the buffer, or neither white space nor a part of a number.
abbrev pub Ends : Text → Type 0
Ends [] = true ≡ false
Ends (c ∷ []) = Unit
Ends (c ∷ d ∷ t) = (in_number c ≡ false) × (is_space c ≡ false)

pub Ends-nonempty : (t : Text) → Ends t → 0 < length t
Ends-nonempty [] e = absurd (ground (arith, e))
Ends-nonempty (c ∷ t) e = omega arith

pub skip_space-Ends : (t : Text) → Ends t → skip_space t ≡ t
unfolding skip_space
skip_space-Ends [] e = refl
skip_space-Ends (c ∷ []) e = refl
skip_space-Ends (c ∷ d ∷ t) e = ground arith

module _ {D : Type 0} where
  abbrev pub is_nested : Aggregate D → Bool
  is_nested undefined = false
  is_nested (in_array xs) = true
  is_nested (in_object fs) = true

module _ {D : Type 0} (read_d : Text → D) where
  -- A place for a value in an array or an object.
  pub record ValuePlace (lv : Level D) : Type 0 where
    pub wanted : no_value lv.expect ≡ false
    pub unset : lv.sub ≡ nowhere
    pub nested : is_nested lv.agg ≡ true

  -- In an array or an object, a turn does what it does there.
  pub by_nested :
      (a : Aggregate D) (x y : Action D)
      → is_nested a ≡ true
      → (elim a [ undefined ↦ x | in_array xs ↦ y | in_object fs ↦ y ]) ≡ y
  by_nested undefined x y e = absurd (ground (arith, e))
  by_nested (in_array xs) x y e = refl
  by_nested (in_object fs) x y e = refl

  -- What the loop makes of what a turn comes to.
  abbrev pub resume : ℕ → Level D → Text → Action D → Decoded D
  resume f lv p (go lv' q) = loop read_d f lv' q
  resume f lv p nest = elim (loop read_d f initial p) [
    | decoded v q ↦ loop read_d f (with_sub lv (ref v)) q
    | failed e q ↦ failed e (skip_space q)
    | bad_access ↦ bad_access
    | starved ↦ starved
  ]
  resume f lv p (finish v q) = decoded v (skip_space q)
  resume f lv p (stop q) = failed lv.expect (skip_space q)
  resume f lv p broken = bad_access

  pub loop-action :
      (f : ℕ) (lv : Level D) (c : ℕ) (t : Text) (a : Action D)
      → 0 < length t
      → action read_d lv c t (c ∷ t) ≡ a
      → loop read_d (suc f) lv (c ∷ t) ≡ resume f lv (c ∷ t) a
  unfolding loop
  loop-action f lv c [] a h e = absurd (omega arith)
  loop-action f lv c (d ∷ t) a h e = ap (λ x. resume f lv (c ∷ d ∷ t) x) e

  -- The text `out` is read as the value `v`: by itself, with a turn for each byte and for the call,
  abbrev pub Top : Json D → Text → Type 0
  Top v out =
      (f : ℕ) (rest : Text)
      → Ends rest
      → 2 * length out ≤ suc f
      → loop read_d f initial (out ++ rest) ≡ decoded v rest

  -- and as an item of an array or object: whatever the loop comes to behind it with `m` turns, that is
  -- what it comes to from here.
  abbrev pub Item : Json D → Text → Type 0
  Item v out =
      (f m : ℕ) (lv : Level D) (rest : Text) (r : Decoded D)
      → ValuePlace lv
      → Ends rest
      → ((g : ℕ) → m ≤ g → loop read_d g (with_sub lv (ref v)) rest ≡ r)
      → m + 2 * length out ≤ f
      → loop read_d f lv (out ++ rest) ≡ r

  -- A text that one turn reads.
  pub record Leaf (v : Json D) (c : ℕ) (cs : Text) : Type 0 where
    pub alone :
        (rest : Text)
        → Ends rest
        → action read_d initial c (cs ++ rest) (c ∷ cs ++ rest) ≡ finish v rest
    pub within_one :
        (lv : Level D) (rest : Text)
        → ValuePlace lv
        → Ends rest
        → action read_d lv c (cs ++ rest) (c ∷ cs ++ rest) ≡ go (with_sub lv (ref v)) rest

  length-tail : (cs rest : Text) → Ends rest → 0 < length (cs ++ rest)
  length-tail [] rest e = Ends-nonempty rest e
  length-tail (c ∷ cs) rest e = omega arith

  pub Leaf-Top : (v : Json D) (c : ℕ) (cs : Text) → Leaf v c cs → Top v (c ∷ cs)
  Leaf-Top v c cs leaf zero rest e room = absurd (omega arith)
  Leaf-Top v c cs leaf (suc f) rest e room =
      loop-action f initial c (cs ++ rest) _ (length-tail cs rest e) (leaf.alone rest e)
      ∙ ap (λ t. decoded v t) (skip_space-Ends rest e)

  pub Leaf-Item : (v : Json D) (c : ℕ) (cs : Text) → Leaf v c cs → Item v (c ∷ cs)
  Leaf-Item v c cs leaf zero m lv rest r place e next room = absurd (omega arith)
  Leaf-Item v c cs leaf (suc f) m lv rest r place e next room =
      loop-action f lv c (cs ++ rest) _ (length-tail cs rest e) (leaf.within_one lv rest place e)
      ∙ next f (omega arith)

  -- A value in brackets or braces, whose text a call of its own reads.
  pub Top-Item :
      (v : Json D) (c : ℕ) (cs : Text)
      → ((lv : Level D) (t : Text) → ValuePlace lv → action read_d lv c t (c ∷ t) ≡ nest)
      → Top v (c ∷ cs)
      → Item v (c ∷ cs)
  Top-Item v c cs nests top zero m lv rest r place e next room = absurd (omega arith)
  Top-Item v c cs nests top (suc f) m lv rest r place e next room =
      let inner = top f rest e (omega arith) in
      loop-action f lv c (cs ++ rest) nest (length-tail cs rest e) (nests lv (cs ++ rest) place)
      ∙ (rw (resume, inner) (next f (omega arith)))
