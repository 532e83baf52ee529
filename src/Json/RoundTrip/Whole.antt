-- ===== src/Json/RoundTrip/Whole.antt =====
-- src/json.c: values as a whole between `cm_json_encode` and `cm_json_decode`.
use certmonger.Prelude.{◌+◌, ◌*◌, ◌≡◌, refl, Option, some, [], ◌∷◌, Text, codes, length, arith}
use certmonger.Json.Values.{
  Json, Items, Fields, nowhere, ref, no_items, item, no_fields, field, array, object, null, string,
  numberl, numberd, boolean, append_field,
}
use certmonger.Json.Numbers.{print_number}
use certmonger.Json.Encode.{encode}
use certmonger.Json.Decode.{decoded, decode}
use certmonger.Json.RoundTrip.Leaves.{one_turn, null-Leaf, numberl-Leaf, numberd-Leaf}
use certmonger.Json.RoundTrip.Aggregates.Arrays.{items_end, array_empty}
use certmonger.Json.RoundTrip.Aggregates.Objects.{fields_end, object_empty}
use certmonger.Json.RoundTrip.Plain.{
  reread, reread_items, reread_fields, IsPlain, ArePlainItems, ArePlainFields,
}
use certmonger.Json.RoundTrip.Parts.{
  Reads, ReadsItems, ReadsFields, OneTurn-Reads, Array-Reads, Object-Reads, String-Reads,
  Boolean-Reads, array_item, next_item, next_field, object_field,
}

module _ {D : Type 0} (print_d : D → Text) (read_d : Text → D)
    (append_to_null : Text → Option Text) where
  mutual
    unfolding encode IsPlain reread

    plain-Reads :
        (v : Json D)
        → IsPlain print_d read_d v
        → Reads print_d read_d append_to_null v (reread print_d read_d v)
    plain-Reads null h =
        OneTurn-Reads print_d read_d append_to_null null null (codes "null") refl
          (one_turn _ _ (null-Leaf read_d))
    plain-Reads (string t) h = String-Reads print_d read_d append_to_null t h.0 h.1.0 h.1.1
    plain-Reads (numberl z) h =
        OneTurn-Reads print_d read_d append_to_null (numberl z) (numberl z) (print_number z) refl
          (numberl-Leaf read_d z h)
    plain-Reads (numberd d) h =
        OneTurn-Reads print_d read_d append_to_null (numberd d) (numberd (read_d (print_d d)))
          (print_d d) refl (numberd-Leaf read_d (print_d d) h)
    plain-Reads (boolean b) h = Boolean-Reads print_d read_d append_to_null b h
    plain-Reads (object no_fields) h =
        Object-Reads print_d read_d append_to_null no_fields no_fields (b'}' ∷ []) refl
          (object_empty read_d)
    plain-Reads (object (field k nowhere fs)) h = absurd (ground (arith, h))
    plain-Reads (object (field k (ref v) fs)) h =
        let u = reread print_d read_d v in
        object_field print_d read_d append_to_null k v u fs (reread_fields print_d read_d fs) h.0
          (plain-Reads v h.1.0) (plain-ReadsFields (append_field no_fields k (ref u)) fs h.1.1)
    plain-Reads (array no_items) h =
        Array-Reads print_d read_d append_to_null no_items no_items (b']' ∷ []) refl
          (array_empty read_d)
    plain-Reads (array (item nowhere xs)) h = absurd (ground (arith, h))
    plain-Reads (array (item (ref v) xs)) h =
        array_item print_d read_d append_to_null v (reread print_d read_d v) xs
          (reread_items print_d read_d xs) (plain-Reads v h.0) (plain-ReadsItems xs h.1)

    plain-ReadsItems :
        (xs : Items D)
        → ArePlainItems print_d read_d xs
        → ReadsItems print_d read_d append_to_null xs (reread_items print_d read_d xs)
    plain-ReadsItems no_items h = record {
      tail = b']' ∷ [];
      encodes = refl;
      closed = refl;
      pending = items_end read_d;
    }
    plain-ReadsItems (item nowhere xs) h = absurd (ground (arith, h))
    plain-ReadsItems (item (ref v) xs) h =
        next_item print_d read_d append_to_null v (reread print_d read_d v) xs
          (reread_items print_d read_d xs) (plain-Reads v h.0) (plain-ReadsItems xs h.1)

    plain-ReadsFields :
        (acc fs : Fields D)
        → ArePlainFields print_d read_d acc fs
        → ReadsFields print_d read_d append_to_null acc fs (reread_fields print_d read_d fs)
    plain-ReadsFields acc no_fields h = record {
      tail = b'}' ∷ [];
      encodes = refl;
      closed = refl;
      pending = fields_end read_d acc;
    }
    plain-ReadsFields acc (field k nowhere fs) h = absurd (ground (arith, h))
    plain-ReadsFields acc (field k (ref v) fs) h =
        let u = reread print_d read_d v in
        next_field print_d read_d append_to_null acc k v u fs (reread_fields print_d read_d fs) h.0
          (plain-Reads v h.1.0) (plain-ReadsFields (append_field acc k (ref u)) fs h.1.1)

  -- A value is encoded, and decoding that text gives the value, with every `long double` as the text that
  -- was printed of it is read back. The value's texts and the names of its fields are of the basic plane,
  -- its names hold no NUL, its integers are of the range of `long long`, a `long double` is printed as a
  -- decimal number with a point, its booleans are 0 or 1, no value is missing, and no name stands twice
  -- in an object.
  pub decode-encode :
      (v : Json D)
      → IsPlain print_d read_d v
      → (out : Text) × ((encode print_d append_to_null v ≡ some out)
          × (decode read_d out ≡ decoded (reread print_d read_d v) (0 ∷ [])))
  unfolding decode
  decode-encode v h =
      let r = plain-Reads v h in
      (r.out, (r.encodes, r.top (2 * length r.out + 2) (0 ∷ []) tt (omega arith)))
