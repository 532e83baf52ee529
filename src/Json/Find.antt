-- ===== src/Json/Find.antt =====
-- src/json.c, `cm_json_find`: a value by a path of names and numbers between slashes.
pub mod Walk
use Prim.Native.Nat.{zero, suc}
use certmonger.Prelude.{
  ℕ, Bool, true, ◌||◌, Option, some, none, [], ◌∷◌, if◌then◌else◌, ◌==◌, Text, length, ℤ, pos,
  negsuc,
}
use certmonger.Json.Values.{Ref, nowhere, ref, object, array, json_get, nth_val, json_n}

-- while (*path == '/') { path++; }
unfoldable pub skip_slashes : Text → Text
skip_slashes [] = []
skip_slashes (c ∷ cs) = let rest = skip_slashes cs in if c == b'/' then rest else c ∷ cs

-- The bytes before the next slash, strcspn(p, "/"), and the rest of the path.
unfoldable pub span_component : Text → Text × Text
span_component [] = ([], [])
span_component (c ∷ cs) =
    let (component, path) = span_component cs in
    if c == b'/' then ([], c ∷ cs) else (c ∷ component, path)

-- (*end == '/') || (*end == '\0')
abbrev pub ends_component : Text → Bool
ends_component [] = true
ends_component (c ∷ cs) = c == b'/' || c == 0

-- The number that a component is, `none` for a text that is none; `strtol` is
-- strtol(component, &end, 10): the number, and the text from `end` on.
unfoldable pub component_index : (Text → ℤ × Text) → Text → Option ℕ
component_index strtol component =
    let (l, end) = strtol component in
    elim l [ negsuc n ↦ none | pos n ↦ if ends_component end then some n else none ]

module _ {D : Type 0} where
  abbrev pub by_number : (ℕ → Ref D) → Option ℕ → Ref D
  by_number at none = nowhere
  by_number at (some n) = at n

  abbrev pub or_by_number : Ref D → Ref D → Ref D
  or_by_number (ref v) other = ref v
  or_by_number nowhere other = other

module _ {D : Type 0} (strtol : Text → ℤ × Text) where
  -- One turn of the loop: from a value to the one that a component names. In an object, `this` is
  -- NULL already when cm_json_nth_val() is asked for the value at a number.
  unfoldable pub find_component : Ref D → Text → Ref D
  find_component nowhere component = nowhere
  find_component (ref (object fs)) component =
      or_by_number (json_get (ref (object fs)) (some component))
        (by_number (nth_val nowhere) (component_index strtol component))
  find_component (ref (array xs)) component =
      by_number (json_n (ref (array xs))) (component_index strtol component)
  find_component (ref v) component = nowhere

  -- The loop; a turn uses up a byte of the path at least.
  unfoldable pub find_from : ℕ → Ref D → Text → Ref D
  find_from zero this path = this
  find_from (suc f) nowhere path = nowhere
  find_from (suc f) (ref v) [] = ref v
  find_from (suc f) (ref v) (c ∷ cs) =
      let (component, path) = span_component (skip_slashes (c ∷ cs)) in
      elim component [ [] ↦ ref v | d ∷ ds ↦ find_from f (find_component (ref v) (d ∷ ds)) path ]

  -- `cm_json_find`
  unfoldable pub json_find : Ref D → Text → Ref D
  json_find this path = find_from (length path) this path
