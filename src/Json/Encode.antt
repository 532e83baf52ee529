-- ===== src/Json/Encode.antt =====
-- src/json.c, `cm_json_encode`.
use certmonger.Prelude.{
  Bool, true, false, Option, none, some, [], ◌∷◌, ◌++◌, if◌then◌else◌, ◌==◌, Text, codes,
}
use certmonger.Json.Values.{
  Json, Ref, Items, Fields, null, string, numberl, numberd, boolean, object, array, nowhere, ref,
  no_items, item, no_fields, field, c_string,
}
use certmonger.Json.Strings.{escape}
use certmonger.Json.Numbers.{print_number}

-- `i > 0 ? "," : ""`
abbrev pub comma : Bool → Text
comma first = if first then [] else b',' ∷ []

abbrev pub joined : Text → Option Text → Option Text
joined out none = none
joined out (some rest) = some (out ++ rest)

-- `print_d` is what `%Lf` prints. `append_to_null` is what talloc_strdup_append() makes of a text
-- that it is to append to NULL, as happens after an item that could not be encoded.
module _ {D : Type 0} (print_d : D → Text) (append_to_null : Text → Option Text) where
  abbrev closed_or : Text → Option Text → Option Text
  closed_or close none = append_to_null close
  closed_or close (some out) = some out

  unfoldable mutual
    pub encode : Json D → Option Text
    encode null = some (codes "null")
    encode (string t) = escape t
    encode (numberl z) = some (print_number z)
    encode (numberd d) = some (print_d d)
    encode (boolean b) = some (if b == 0 then codes "false" else codes "true")
    encode (object fs) = closed_or (b'}' ∷ []) (joined (b'{' ∷ []) (encode_fields true fs))
    encode (array xs) = closed_or (b']' ∷ []) (joined (b'[' ∷ []) (encode_items true xs))

    pub encode_ref : Ref D → Option Text
    encode_ref nowhere = some []
    encode_ref (ref j) = encode j

    -- The loop over an array, and the bracket behind it.
    pub encode_items : Bool → Items D → Option Text
    encode_items first no_items = some (b']' ∷ [])
    encode_items first (item r xs) = elim (encode_ref r) [
      | none ↦ none
      | some val ↦ joined (comma first ++ val) (encode_items false xs)
    ]

    -- The loop over an object, and the brace behind it. A field without a value is left out.
    pub encode_fields : Bool → Fields D → Option Text
    encode_fields first no_fields = some (b'}' ∷ [])
    encode_fields first (field k nowhere fs) = encode_fields false fs
    encode_fields first (field k (ref v) fs) = elim (escape (c_string k)) [
      | none ↦ none
      | some key ↦ elim (encode v) [
        | none ↦ none
        | some val ↦ joined (comma first ++ (key ++ (b':' ∷ val))) (encode_fields false fs)
      ]
    ]
