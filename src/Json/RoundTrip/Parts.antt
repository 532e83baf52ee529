-- ===== src/Json/RoundTrip/Parts.antt =====
-- src/json.c: values put together from their parts, between `cm_json_encode` and `cm_json_decode`.
use certmonger.Prelude.{
  ℕ, ◌<◌, ◌≡◌, ◌⊎◌, inl, inr, refl, ap, sym, subst, ◌∙◌, true, false, Option, some, List, [], ◌∷◌,
  ◌++◌, Text, codes, All, arith,
}
use certmonger.Json.Values.{
  Json, Items, Fields, ref, item, no_fields, field, array, object, string, boolean, c_string,
  json_set, append_field,
}
use certmonger.Json.Strings.{escape}
use certmonger.Json.Strings.Written.{IsBasic}
use certmonger.Json.Strings.RoundTrip.{body, utf8, escape-utf8}
use certmonger.Json.Encode.{encode, encode_items, encode_fields}
use certmonger.Json.Decode.{Level, nest, on_open, action}
use certmonger.Json.RoundTrip.Loop.{ValuePlace, by_nested, Top, Item, Leaf-Top, Leaf-Item, Top-Item}
use certmonger.Json.RoundTrip.Leaves.{OneTurn, one_turn, true-Leaf, false-Leaf, string-Leaf}
use certmonger.Json.RoundTrip.Aggregates.{closes, join, join-append_field}
use certmonger.Json.RoundTrip.Aggregates.Arrays.{PendingItems, items_next, array_some}
use certmonger.Json.RoundTrip.Aggregates.Objects.{PendingFields, fields_next, named, object_some}
use certmonger.Json.RoundTrip.Plain.{IsName}

module _ {D : Type 0} (print_d : D → Text) (read_d : Text → D)
    (append_to_null : Text → Option Text) where
  -- The text of `v` is read as `u`; and so for what stands in an array or an object.
  pub record Reads (v u : Json D) : Type 0 where
    pub out : Text
    pub encodes : encode print_d append_to_null v ≡ some out
    pub top : Top read_d u out
    pub at_item : Item read_d u out

  pub record ReadsItems (xs ys : Items D) : Type 0 where
    pub tail : Text
    pub encodes : encode_items print_d append_to_null false xs ≡ some tail
    pub closed : closes tail ≡ true
    pub pending : PendingItems read_d ys tail

  pub record ReadsFields (acc fs gs : Fields D) : Type 0 where
    pub tail : Text
    pub encodes : encode_fields print_d append_to_null false fs ≡ some tail
    pub closed : closes tail ≡ true
    pub pending : PendingFields read_d acc gs tail

  pub OneTurn-Reads :
      (v u : Json D) (t : Text)
      → encode print_d append_to_null v ≡ some t
      → OneTurn read_d u t
      → Reads v u
  OneTurn-Reads v u _ e (one_turn c cs leaf) = record {
    out = c ∷ cs;
    encodes = e;
    top = Leaf-Top read_d u c cs leaf;
    at_item = Leaf-Item read_d u c cs leaf;
  }

  opens_array :
      (lv : Level D) (t : Text) → ValuePlace read_d lv → action read_d lv b'[' t (b'[' ∷ t) ≡ nest
  unfolding action on_open
  opens_array lv t place = rw (on_open, place.wanted) (by_nested read_d lv.agg _ nest place.nested)

  opens_object :
      (lv : Level D) (t : Text) → ValuePlace read_d lv → action read_d lv b'{' t (b'{' ∷ t) ≡ nest
  unfolding action on_open
  opens_object lv t place = rw (on_open, place.wanted) (by_nested read_d lv.agg _ nest place.nested)

  pub Array-Reads :
      (xs ys : Items D) (t : Text)
      → encode print_d append_to_null (array xs) ≡ some (b'[' ∷ t)
      → Top read_d (array ys) (b'[' ∷ t)
      → Reads (array xs) (array ys)
  Array-Reads xs ys t e top = record {
    out = b'[' ∷ t;
    encodes = e;
    top = top;
    at_item = Top-Item read_d (array ys) b'[' t opens_array top;
  }

  pub Object-Reads :
      (fs gs : Fields D) (t : Text)
      → encode print_d append_to_null (object fs) ≡ some (b'{' ∷ t)
      → Top read_d (object gs) (b'{' ∷ t)
      → Reads (object fs) (object gs)
  Object-Reads fs gs t e top = record {
    out = b'{' ∷ t;
    encodes = e;
    top = top;
    at_item = Top-Item read_d (object gs) b'{' t opens_object top;
  }

  pub String-Reads :
      (t : Text) (ps : List ℕ) → All IsBasic ps → t ≡ utf8 ps → Reads (string t) (string t)
  unfolding encode
  String-Reads t ps all e =
      subst (λ u. Reads (string u) (string u)) (sym e)
        (OneTurn-Reads (string (utf8 ps)) (string (utf8 ps)) _ (escape-utf8 ps all)
          (one_turn _ _ (string-Leaf read_d ps all)))

  zero_or_one : (b : ℕ) → b < 2 → (b ≡ 0) ⊎ (b ≡ 1)
  zero_or_one b h = omega arith

  pub Boolean-Reads : (b : ℕ) → b < 2 → Reads (boolean b) (boolean b)
  unfolding encode
  Boolean-Reads b h = elim (zero_or_one b h) [
    | inl e ↦
        subst (λ c. Reads (boolean c) (boolean c)) (sym e)
          (OneTurn-Reads (boolean 0) (boolean 0) (codes "false") refl
            (one_turn _ _ (false-Leaf read_d)))
    | inr e ↦
        subst (λ c. Reads (boolean c) (boolean c)) (sym e)
          (OneTurn-Reads (boolean 1) (boolean 1) (codes "true") refl
            (one_turn _ _ (true-Leaf read_d)))
  ]

  pub array_item :
      (v u : Json D) (xs ys : Items D)
      → Reads v u
      → ReadsItems xs ys
      → Reads (array (item (ref v) xs)) (array (item (ref u) ys))
  unfolding encode
  array_item v u xs ys one more =
      Array-Reads (item (ref v) xs) (item (ref u) ys) (one.out ++ more.tail)
        (rw (encode, one.encodes, more.encodes) refl)
        (array_some read_d u ys one.out more.tail one.at_item more.closed more.pending)

  pub next_item :
      (v u : Json D) (xs ys : Items D)
      → Reads v u
      → ReadsItems xs ys
      → ReadsItems (item (ref v) xs) (item (ref u) ys)
  unfolding encode
  next_item v u xs ys one more = record {
    tail = b',' ∷ (one.out ++ more.tail);
    encodes = rw (encode_items, one.encodes, more.encodes) refl;
    closed = refl;
    pending = items_next read_d u ys one.out more.tail one.at_item more.closed more.pending;
  }

  encode-name :
      (acc : Fields D) (k : Text) (name : IsName acc k)
      → escape (c_string k) ≡ some (b'"' ∷ body name.points ++ (b'"' ∷ []))
  encode-name acc k name =
      ap (λ t. escape t) (name.whole ∙ name.spelled) ∙ escape-utf8 name.points name.basic

  -- A new name is put behind the others.
  json_set-fresh :
      (acc : Fields D) (k : Text) (v : Json D) (name : IsName acc k)
      → json_set acc (c_string (utf8 name.points)) (ref v) ≡ append_field acc k (ref v)
  unfolding json_set
  json_set-fresh acc k v name =
      ap (λ t. json_set acc t (ref v)) (ap (λ t. c_string t) (sym name.spelled) ∙ name.whole)
      ∙ rw (json_set, name.fresh) refl

  pub next_field :
      (acc : Fields D) (k : Text) (v u : Json D) (fs gs : Fields D)
      → IsName acc k
      → Reads v u
      → ReadsFields (append_field acc k (ref u)) fs gs
      → ReadsFields acc (field k (ref v) fs) (field k (ref u) gs)
  unfolding encode
  next_field acc k v u fs gs name one more = record {
    tail = b',' ∷ (named read_d name.points one.out ++ more.tail);
    encodes = rw (encode_fields, encode-name acc k name, one.encodes, more.encodes) refl;
    closed = refl;
    pending =
        subst
          (λ t.
            PendingFields read_d acc (field t (ref u) gs)
              (b',' ∷ (named read_d name.points one.out ++ more.tail)))
          (sym name.spelled)
          (fields_next read_d u acc gs (append_field acc k (ref u)) name.points one.out more.tail
            name.basic one.at_item more.closed (json_set-fresh acc k u name) more.pending
            (join-append_field acc gs k (ref u)
              ∙ ap (λ t. join acc (field t (ref u) gs)) name.spelled));
  }

  encode-object :
      (fs : Fields D) (t : Text)
      → encode_fields print_d append_to_null true fs ≡ some t
      → encode print_d append_to_null (object fs) ≡ some (b'{' ∷ t)
  unfolding encode
  encode-object fs t e = rw (encode, e) refl

  encode_fields-first :
      (k : Text) (v : Json D) (fs : Fields D) (name out tail : Text)
      → escape (c_string k) ≡ some name
      → encode print_d append_to_null v ≡ some out
      → encode_fields print_d append_to_null false fs ≡ some tail
      → encode_fields print_d append_to_null true (field k (ref v) fs)
        ≡ some ((name ++ (b':' ∷ out)) ++ tail)
  unfolding encode
  encode_fields-first k v fs name out tail n o t = rw (encode_fields, n, o, t) refl

  pub object_field :
      (k : Text) (v u : Json D) (fs gs : Fields D)
      → IsName {D = D} no_fields k
      → Reads v u
      → ReadsFields (append_field no_fields k (ref u)) fs gs
      → Reads (object (field k (ref v) fs)) (object (field k (ref u) gs))
  unfolding encode join
  object_field k v u fs gs name one more =
      Object-Reads (field k (ref v) fs) (field k (ref u) gs)
        (named read_d name.points one.out ++ more.tail)
        (encode-object (field k (ref v) fs) _ (
          encode_fields-first k v fs _ _ _ (encode-name no_fields k name) one.encodes more.encodes))
        (subst
          (λ t.
            Top read_d (object (field t (ref u) gs))
              (b'{' ∷ (named read_d name.points one.out ++ more.tail)))
          (sym name.spelled)
          (object_some read_d u gs (append_field no_fields k (ref u)) name.points one.out more.tail
            name.basic one.at_item more.closed (json_set-fresh no_fields k u name) more.pending
            (join-append_field no_fields gs k (ref u) ∙ ap (λ t. field t (ref u) gs) name.spelled)))
