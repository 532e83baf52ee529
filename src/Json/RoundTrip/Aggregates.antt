-- ===== src/Json/RoundTrip/Aggregates.antt =====
-- src/json.c: what arrays and objects share in the loop of `cm_json_decode`.
pub mod Arrays
pub mod Objects
use Prim.Native.Nat.{zero, suc}
use certmonger.Prelude.{
  ℕ, ◌+◌, ◌*◌, ◌<◌, ◌≤◌, ◌≡◌, refl, ap, sym, ◌∙◌, Bool, true, false, Option, ◌||◌, ◌==◌, some, none,
  List, [], ◌∷◌, ◌++◌, Text, All, length, arith,
}
use certmonger.Json.Values.{
  Json, Ref, Items, Fields, nowhere, ref, no_items, item, no_fields, field, array, object, c_string,
  json_append, json_set, append_field,
}
use certmonger.Json.Strings.Written.{IsBasic}
use certmonger.Json.Strings.RoundTrip.{body, utf8, ++-assoc, length-++, decode_string-quoted}
use certmonger.Json.Decode.{
  Level, in_array, in_object, Expect, key, key_or_close, comma_or_close, colon, expr, expr_or_close,
  decoded, go, finish, no_value, no_string, is_key, named_or_valued, initial, on_open,
  on_close_array, on_close_object, on_comma, on_colon, on_quote, action, loop,
}
use certmonger.Json.RoundTrip.Loop.{Ends, Ends-nonempty, skip_space-Ends, loop-action, Top, Item}

-- What follows a value in an array or an object.
abbrev pub closes : Text → Bool
closes [] = false
closes (c ∷ cs) = c == b',' || (c == b']' || c == b'}')

pub closes-Ends : (t rest : Text) → closes t ≡ true → Ends rest → Ends (t ++ rest)
closes-Ends [] rest h e = absurd (ground (arith, h))
closes-Ends (c ∷ []) [] h e = absurd (ground (arith, e))
closes-Ends (c ∷ []) (d ∷ rest) h e = (ground arith, ground arith)
closes-Ends (c ∷ d ∷ t) rest h e = (ground arith, ground arith)

pub longer : (t rest : Text) → Ends rest → 0 < length (t ++ rest)
longer t rest e = omega (arith, length-++ t rest, Ends-nonempty rest e)

module _ {D : Type 0} where
  -- Items, and fields, behind others.
  unfoldable pub concat : Items D → Items D → Items D
  concat no_items ys = ys
  concat (item r xs) ys = item r (concat xs ys)

  unfoldable pub join : Fields D → Fields D → Fields D
  join no_fields gs = gs
  join (field k r fs) gs = field k r (join fs gs)

  pub concat-no_items : (xs : Items D) → concat xs no_items ≡ xs
  unfolding concat
  concat-no_items no_items = refl
  concat-no_items (item r xs) = ap (λ ys. item r ys) (concat-no_items xs)

  pub concat-json_append :
      (acc xs : Items D) (r : Ref D) → concat (json_append acc r) xs ≡ concat acc (item r xs)
  unfolding concat json_append
  concat-json_append no_items xs r = refl
  concat-json_append (item s acc) xs r = ap (λ ys. item s ys) (concat-json_append acc xs r)

  pub join-no_fields : (fs : Fields D) → join fs no_fields ≡ fs
  unfolding join
  join-no_fields no_fields = refl
  join-no_fields (field k r fs) = ap (λ gs. field k r gs) (join-no_fields fs)

  pub join-append_field :
      (acc fs : Fields D) (k : Text) (r : Ref D)
      → join (append_field acc k r) fs ≡ join acc (field k r fs)
  unfolding join append_field
  join-append_field no_fields fs k r = refl
  join-append_field (field l s acc) fs k r = ap (λ gs. field l s gs) (join-append_field acc fs k r)

  -- Inside an array, and an object, at a place where no value has been read.
  abbrev pub items_level : Items D → Expect → Level D
  items_level acc x = record { agg = in_array acc; expect = x; name = none; sub = nowhere }

  abbrev pub fields_level : Fields D → Option Text → Expect → Level D
  fields_level acc k x = record { agg = in_object acc; expect = x; name = k; sub = nowhere }
