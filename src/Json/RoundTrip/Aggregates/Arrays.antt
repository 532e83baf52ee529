-- ===== src/Json/RoundTrip/Aggregates/Arrays.antt =====
-- src/json.c: arrays in the loop of `cm_json_decode`.
use Prim.Native.Nat.{zero, suc}
use certmonger.Prelude.{
  ℕ, ◌+◌, ◌*◌, ◌≤◌, ◌≡◌, refl, ap, sym, ◌∙◌, true, false, none, [], ◌∷◌, ◌++◌, Text, length, arith,
}
use certmonger.Json.Values.{Json, Items, ref, no_items, item, array, json_append}
use certmonger.Json.Strings.RoundTrip.{++-assoc, length-++}
use certmonger.Json.Decode.{
  in_array, Expect, comma_or_close, expr, expr_or_close, decoded, go, finish, no_value, initial,
  on_open, on_close_array, on_comma, action, loop,
}
use certmonger.Json.RoundTrip.Loop.{Ends, Ends-nonempty, skip_space-Ends, loop-action, Top, Item}
use certmonger.Json.RoundTrip.Aggregates.{
  closes, closes-Ends, longer, concat, concat-no_items, concat-json_append, items_level,
}

module _ {D : Type 0} (read_d : Text → D) where
  -- What follows an item `v` that is read and not yet put into the array.
  abbrev pub PendingItems : Items D → Text → Type 0
  PendingItems xs tail =
      (f : ℕ) (acc : Items D) (v : Json D) (rest : Text)
      → 2 * length tail ≤ f
      → Ends rest
      → loop read_d f
          (record { agg = in_array acc; expect = comma_or_close; name = none; sub = ref v })
          (tail ++ rest)
        ≡ decoded (array (concat (json_append acc (ref v)) xs)) rest

  pub items_end : PendingItems no_items (b']' ∷ [])
  unfolding action on_close_array
  items_end zero acc v rest room e = absurd (omega arith)
  items_end (suc f) acc v rest room e =
      loop-action read_d f _ b']' rest (finish (array (json_append acc (ref v))) rest)
        (Ends-nonempty rest e) refl
      ∙ (ap (λ t. decoded (array (json_append acc (ref v))) t) (skip_space-Ends rest e)
          ∙ ap (λ ys. decoded (array ys) rest) (sym (concat-no_items (json_append acc (ref v)))))

  -- An item and what follows it.
  items_at :
      (w : Json D) (xs : Items D) (out tail : Text) (f : ℕ) (acc : Items D) (x : Expect)
      (rest : Text)
      → Item read_d w out
      → closes tail ≡ true
      → PendingItems xs tail
      → no_value x ≡ false
      → Ends rest
      → 2 * length tail + 2 * length out ≤ f
      → loop read_d f (items_level acc x) ((out ++ tail) ++ rest)
        ≡ decoded (array (concat acc (item (ref w) xs))) rest
  items_at w xs out tail f acc x rest one closed more wanted e room =
      let lv = items_level acc x in
      ap (λ t. loop read_d f lv t) (++-assoc out tail rest)
      ∙ one f (2 * length tail) lv (tail ++ rest) _
          (record { wanted = wanted; unset = refl; nested = refl }) (closes-Ends tail rest closed e)
          (λ g le.
            more g acc w rest le e
            ∙ ap (λ ys. decoded (array ys) rest) (concat-json_append acc xs (ref w)))
          room

  pub items_next :
      (w : Json D) (xs : Items D) (out tail : Text)
      → Item read_d w out
      → closes tail ≡ true
      → PendingItems xs tail
      → PendingItems (item (ref w) xs) (b',' ∷ (out ++ tail))
  unfolding action on_comma
  items_next w xs out tail one closed more zero acc v rest room e = absurd (omega arith)
  items_next w xs out tail one closed more (suc f) acc v rest room e =
      let acc' = json_append acc (ref v) in
      let lv = items_level acc' expr in
      loop-action read_d f _ b',' ((out ++ tail) ++ rest) (go lv ((out ++ tail) ++ rest))
        (longer (out ++ tail) rest e) refl
      ∙ items_at w xs out tail f acc' expr rest one closed more refl e
          (ground (arith, length-++ out tail))

  pub array_empty : Top read_d (array no_items) (b'[' ∷ b']' ∷ [])
  unfolding action on_open on_close_array
  array_empty zero rest e room = absurd (omega arith)
  array_empty (suc zero) rest e room = absurd (omega arith)
  array_empty (suc (suc f)) rest e room =
      let lv = items_level no_items expr_or_close in
      loop-action read_d (suc f) initial b'[' (b']' ∷ rest) (go lv (b']' ∷ rest)) (omega arith) refl
      ∙ (loop-action read_d f lv b']' rest (finish (array no_items) rest) (Ends-nonempty rest e)
            refl
          ∙ ap (λ t. decoded (array no_items) t) (skip_space-Ends rest e))

  pub array_some :
      (v : Json D) (xs : Items D) (out tail : Text)
      → Item read_d v out
      → closes tail ≡ true
      → PendingItems xs tail
      → Top read_d (array (item (ref v) xs)) (b'[' ∷ (out ++ tail))
  unfolding action on_open concat
  array_some v xs out tail one closed more zero rest e room = absurd (omega arith)
  array_some v xs out tail one closed more (suc f) rest e room =
      let lv = items_level no_items expr_or_close in
      loop-action read_d f initial b'[' ((out ++ tail) ++ rest) (go lv ((out ++ tail) ++ rest))
        (longer (out ++ tail) rest e) refl
      ∙ items_at v xs out tail f no_items expr_or_close rest one closed more refl e
          (ground (arith, length-++ out tail))
