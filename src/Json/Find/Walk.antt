-- ===== src/Json/Find/Walk.antt =====
-- src/json.c: `cm_json_find` against the components of its path.
use Prim.Native.Nat.{zero, suc}
use certmonger.Prelude.{
  ℕ, ◌+◌, ◌≤◌, ◌≡◌, refl, ap, sym, subst, ◌∙◌, Bool, true, not, List, [], ◌∷◌, Option, none, some,
  if◌then◌else◌, ◌==◌, Text, length, ℤ, arith,
}
use certmonger.Json.Values.{Ref, nowhere, ref, object, array, json_get, nth_val, json_n}
use certmonger.Json.Find.{
  skip_slashes, span_component, find_component, find_from, json_find, component_index, by_number,
  or_by_number,
}

-- A path as the list of what stands between its slashes, where that is not empty.
abbrev with_component : Text → List Text → List Text
with_component [] ws = ws
with_component (c ∷ cs) ws = (c ∷ cs) ∷ ws

unfoldable pub split : Text → Text × List Text
split [] = ([], [])
split (c ∷ cs) =
    let (w, ws) = split cs in if c == b'/' then ([], with_component w ws) else (c ∷ w, ws)

abbrev pub components : Text → List Text
components t = let (w, ws) = split t in with_component w ws

split-span_component :
    (t : Text) → split t ≡ ((span_component t).0, components (span_component t).1)
unfolding split span_component
split-span_component [] = refl
split-span_component (c ∷ cs) = ground (arith, split-span_component cs)

components-skip_slashes : (t : Text) → components (skip_slashes t) ≡ components t
unfolding split skip_slashes
components-skip_slashes [] = refl
components-skip_slashes (c ∷ cs) = ground (arith, components-skip_slashes cs)

length-span_component :
    (t : Text) → length (span_component t).0 + length (span_component t).1 ≡ length t
unfolding span_component
length-span_component [] = omega arith
length-span_component (c ∷ cs) = ground (arith, length-span_component cs)

length-skip_slashes : (t : Text) → length (skip_slashes t) ≤ length t
unfolding skip_slashes
length-skip_slashes [] = omega arith
length-skip_slashes (c ∷ cs) = ground (arith, length-skip_slashes cs)

-- Behind slashes, only the end of the path is no component.
abbrev begins_component : Text → Bool
begins_component [] = true
begins_component (c ∷ cs) = not (c == b'/')

begins-skip_slashes : (t : Text) → begins_component (skip_slashes t) ≡ true
unfolding skip_slashes
begins-skip_slashes [] = refl
begins-skip_slashes (c ∷ cs) = ground (arith, begins-skip_slashes cs)

no_component : (t : Text) → begins_component t ≡ true → (span_component t).0 ≡ [] → t ≡ []
unfolding span_component
no_component [] b h = refl
no_component (c ∷ cs) b h = absurd (ground (arith, b, h))

module _ {D : Type 0} (strtol : Text → ℤ × Text) where
  -- The value in a value that a component names: in an object the one of that name, never the one at
  -- a number, in an array the one at that number, and in any other value none.
  abbrev pub child : Ref D → Text → Ref D
  child (ref (object fs)) w = json_get (ref (object fs)) (some w)
  child (ref (array xs)) w = by_number (json_n (ref (array xs))) (component_index strtol w)
  child this w = nowhere

  -- From a value to the one that the components name in turn.
  unfoldable pub walk : Ref D → List Text → Ref D
  walk this [] = this
  walk this (w ∷ ws) = walk (child this w) ws

  walk-nowhere : (ws : List Text) → walk nowhere ws ≡ nowhere
  unfolding walk
  walk-nowhere [] = refl
  walk-nowhere (w ∷ ws) = walk-nowhere ws

  no_number : (at : Option ℕ) → by_number {D = D} (nth_val nowhere) at ≡ nowhere
  unfolding nth_val
  no_number none = refl
  no_number (some n) = refl

  or_nowhere : (r : Ref D) → or_by_number r nowhere ≡ r
  or_nowhere nowhere = refl
  or_nowhere (ref v) = refl

  find_component-child : (this : Ref D) (w : Text) → find_component strtol this w ≡ child this w
  unfolding find_component
  find_component-child nowhere w = refl
  find_component-child (ref (object fs)) w =
      rw (no_number (component_index strtol w)) (or_nowhere (json_get (ref (object fs)) (some w)))
  find_component-child (ref (array xs)) w = refl
  find_component-child (ref v) w = refl

  -- A turn at a component and the rest of the path.
  find_from-walk :
      (f : ℕ) (this : Ref D) (path : Text)
      → length path ≤ f
      → find_from strtol f this path ≡ walk this (components path)
  unfolding find_from split walk
  find_from-walk zero this [] room = refl
  find_from-walk zero this (c ∷ cs) room = absurd (omega arith)
  find_from-walk (suc f) nowhere path room = sym (walk-nowhere (components path))
  find_from-walk (suc f) (ref v) [] room = refl
  find_from-walk (suc f) (ref v) (c ∷ cs) room =
      let p = skip_slashes (c ∷ cs) in
      at_component (find_from-walk f) p (begins-skip_slashes (c ∷ cs)) (span_component p).0
        (span_component p).1 refl
        (omega (arith, length-span_component p, length-skip_slashes (c ∷ cs), room))
      ∙ ap (walk (ref v)) (components-skip_slashes (c ∷ cs))
    where
      at_component :
          ((this : Ref D) (path : Text)
            → length path ≤ f
            → find_from strtol f this path ≡ walk this (components path))
          → (p : Text) → begins_component p ≡ true
          → (w q : Text) → span_component p ≡ (w, q)
          → length w + length q ≤ suc f
          → elim w [
            | [] ↦ ref v
            | d ∷ ds ↦ find_from strtol f (find_component strtol (ref v) (d ∷ ds)) q
          ]
            ≡ walk (ref v) (components p)
      at_component ih p b [] q e room =
          subst (λ u. ref v ≡ walk (ref v) (components u))
            (sym (no_component p b (ap (λ x. x.0) e))) refl
      at_component ih p b (d ∷ ds) q e room =
          let parts : components p ≡ (d ∷ ds) ∷ components q =
            ap (λ x. with_component x.0 x.1) (split-span_component p)
            ∙ ap (λ x. with_component x.0 (components x.1)) e in
          ih (find_component strtol (ref v) (d ∷ ds)) q (omega (arith, room))
          ∙ ap (λ r. walk r (components q)) (find_component-child (ref v) (d ∷ ds))
          ∙ sym (ap (walk (ref v)) parts)

  -- `cm_json_find` goes from the value to the one that the path's components name in turn, however many
  -- slashes stand around them: by name in an object, by number in an array, and never by number in an
  -- object.
  pub json_find-walk :
      (this : Ref D) (path : Text) → json_find strtol this path ≡ walk this (components path)
  unfolding json_find
  json_find-walk this path = find_from-walk (length path) this path (omega arith)
