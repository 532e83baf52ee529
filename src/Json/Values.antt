-- ===== src/Json/Values.antt =====
-- src/json.c: `struct cm_json` and the functions that look into values and change them. Running out
-- of memory is left out.
pub mod Lookup
use certmonger.Prelude.{
  ℕ, ◌+◌, Bool, Option, none, some, if◌then◌else◌, ltb, ◌==◌, ◌||◌, Text, text_eq, List, [], ◌∷◌, ℤ,
  pos, negsuc,
}

-- `D` stands for `long double`. A reference is a pointer that may be NULL.
mutual
  pub data Json (D : Type 0) : Type 0 where
    null : Json D
    string : Text → Json D
    numberl : ℤ → Json D
    numberd : D → Json D
    boolean : ℕ → Json D
    object : Fields D → Json D
    array : Items D → Json D

  pub data Ref (D : Type 0) : Type 0 where
    nowhere : Ref D
    ref : Json D → Ref D

  pub data Items (D : Type 0) : Type 0 where
    no_items : Items D
    item : Ref D → Items D → Items D

  pub data Fields (D : Type 0) : Type 0 where
    no_fields : Fields D
    field : Text → Ref D → Fields D → Fields D

-- `enum cm_json_type`
pub data JsonType : Type 0 where
  undefined null string numberl numberd boolean object array : JsonType

-- What strdup() and strcmp() see of a text that may hold a NUL.
unfoldable pub c_string : Text → Text
c_string [] = []
c_string (c ∷ cs) = let rest = c_string cs in if c == 0 then [] else c ∷ rest

module _ {D : Type 0} where
  -- `cm_json_type`
  unfoldable pub json_type : Ref D → JsonType
  json_type nowhere = undefined
  json_type (ref null) = JsonType.null
  json_type (ref (string t)) = JsonType.string
  json_type (ref (numberl z)) = JsonType.numberl
  json_type (ref (numberd d)) = JsonType.numberd
  json_type (ref (boolean b)) = JsonType.boolean
  json_type (ref (object fs)) = JsonType.object
  json_type (ref (array xs)) = JsonType.array

  -- `cm_json_string` (the text with its length), `cm_json_numberl`, `cm_json_numberd` and
  -- `cm_json_boolean`; what is no such value gives NULL, -1, a -1 that is an argument, and 255.
  unfoldable pub json_string : Ref D → Option Text
  json_string (ref (string t)) = some t
  json_string _ = none

  unfoldable pub json_numberl : Ref D → ℤ
  json_numberl (ref (numberl z)) = z
  json_numberl _ = negsuc 0

  unfoldable pub json_numberd : D → Ref D → D
  json_numberd minus_one (ref (numberd d)) = d
  json_numberd minus_one _ = minus_one

  unfoldable pub json_boolean : Ref D → ℕ
  json_boolean (ref (boolean b)) = b
  json_boolean _ = 255

  -- The number of items, and of fields.
  unfoldable pub size : Items D → ℕ
  size no_items = 0
  size (item r xs) = size xs + 1

  unfoldable pub count : Fields D → ℕ
  count no_fields = 0
  count (field k r fs) = count fs + 1

  unfoldable pub nth : Items D → ℕ → Ref D
  nth no_items n = nowhere
  nth (item r xs) Prim.Native.Nat.zero = r
  nth (item r xs) (Prim.Native.Nat.suc n) = nth xs n

  unfoldable pub nth_field : Fields D → ℕ → Option (Text × Ref D)
  nth_field no_fields n = none
  nth_field (field k r fs) Prim.Native.Nat.zero = some (k, r)
  nth_field (field k r fs) (Prim.Native.Nat.suc n) = nth_field fs n

  -- `cm_json_n_keys` and `cm_json_array_size`; -1 for what is no aggregate of the kind
  unfoldable pub n_keys : Ref D → ℤ
  n_keys (ref (object fs)) = pos (count fs)
  n_keys _ = negsuc 0

  unfoldable pub array_size : Ref D → ℤ
  array_size (ref (array xs)) = pos (size xs)
  array_size _ = negsuc 0

  -- `cm_json_nth_key`, `cm_json_nth_val` and `cm_json_n`
  unfoldable pub nth_key : Ref D → ℕ → Option Text
  nth_key (ref (object fs)) n = elim (nth_field fs n) [ some (k, r) ↦ some k | none ↦ none ]
  nth_key _ n = none

  unfoldable pub nth_val : Ref D → ℕ → Ref D
  nth_val (ref (object fs)) n = elim (nth_field fs n) [ some (k, r) ↦ r | none ↦ nowhere ]
  nth_val _ n = nowhere

  unfoldable pub json_n : Ref D → ℕ → Ref D
  json_n (ref (array xs)) n = nth xs n
  json_n _ n = nowhere

  -- The loop of `cm_json_get`, from the last field to the first: the last field of the name, `none`
  -- if there is none.
  unfoldable pub find_last : Text → Fields D → Option (Ref D)
  find_last key no_fields = none
  find_last key (field k r fs) = elim (find_last key fs) [
    | some found ↦ some found
    | none ↦ if text_eq key k then some r else none
  ]

  abbrev or_nowhere : Option (Ref D) → Ref D
  or_nowhere none = nowhere
  or_nowhere (some r) = r

  -- `cm_json_get`; a key that is NULL is `none`
  unfoldable pub json_get : Ref D → Option Text → Ref D
  json_get (ref (object fs)) (some key) = or_nowhere (find_last key fs)
  json_get _ _ = nowhere

  -- The two halves of `cm_json_set`: the last field of the name gets the value,
  unfoldable pub replace_last : Text → Ref D → Fields D → Fields D
  replace_last key v no_fields = no_fields
  replace_last key v (field k r fs) = elim (find_last key fs) [
    | some found ↦ field k r (replace_last key v fs)
    | none ↦ field k (if text_eq key k then v else r) fs
  ]

  -- or a new field is put behind the others.
  unfoldable pub append_field : Fields D → Text → Ref D → Fields D
  append_field no_fields key v = field key v no_fields
  append_field (field k r fs) key v = field k r (append_field fs key v)

  -- `cm_json_set`, on the fields of an object
  unfoldable pub json_set : Fields D → Text → Ref D → Fields D
  unfolding replace_last append_field
  json_set fs key v = elim (find_last key fs) [
    | some found ↦ replace_last key v fs
    | none ↦ append_field fs key v
  ]

  -- `cm_json_append`, on the items of an array
  unfoldable pub json_append : Items D → Ref D → Items D
  json_append no_items v = item v no_items
  json_append (item r xs) v = item r (json_append xs v)

  -- `cm_json_set_n`: the gap up to a new item is filled with NULL.
  unfoldable pub json_set_n : Items D → ℕ → Ref D → Items D
  json_set_n no_items Prim.Native.Nat.zero v = item v no_items
  json_set_n no_items (Prim.Native.Nat.suc n) v = item nowhere (json_set_n no_items n v)
  json_set_n (item r xs) Prim.Native.Nat.zero v = item v xs
  json_set_n (item r xs) (Prim.Native.Nat.suc n) v = item r (json_set_n xs n v)
