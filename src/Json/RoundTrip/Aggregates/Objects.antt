-- ===== src/Json/RoundTrip/Aggregates/Objects.antt =====
-- src/json.c: objects in the loop of `cm_json_decode`.
use Prim.Native.Nat.{zero, suc}
use certmonger.Prelude.{
  ℕ, ◌+◌, ◌*◌, ◌<◌, ◌≤◌, ◌≡◌, refl, ap, sym, ◌∙◌, true, false, some, none, List, [], ◌∷◌, ◌++◌,
  Text, All, length, arith,
}
use certmonger.Json.Values.{Json, Fields, ref, no_fields, field, object, c_string, json_set}
use certmonger.Json.Strings.Written.{IsBasic}
use certmonger.Json.Strings.RoundTrip.{body, utf8, ++-assoc, length-++, decode_string-quoted}
use certmonger.Json.Decode.{
  in_object, Expect, key, key_or_close, comma_or_close, colon, expr, expr_or_close, decoded, go,
  finish, no_string, is_key, named_or_valued, initial, on_open, on_close_object, on_comma, on_colon,
  on_quote, action, loop,
}
use certmonger.Json.RoundTrip.Loop.{Ends, Ends-nonempty, skip_space-Ends, loop-action, Top, Item}
use certmonger.Json.RoundTrip.Aggregates.{
  closes, closes-Ends, longer, join, join-no_fields, fields_level,
}

module _ {D : Type 0} (read_d : Text → D) where
  -- What follows a value `v` of the name `k` that is read and not yet put into the object.
  abbrev pub PendingFields : Fields D → Fields D → Text → Type 0
  PendingFields acc fs tail =
      (f : ℕ) (acc0 : Fields D) (k : Text) (v : Json D) (rest : Text)
      → json_set acc0 (c_string k) (ref v) ≡ acc
      → 2 * length tail ≤ f
      → Ends rest
      → loop read_d f
          (record { agg = in_object acc0; expect = comma_or_close; name = some k; sub = ref v })
          (tail ++ rest)
        ≡ decoded (object (join acc fs)) rest

  pub fields_end : (acc : Fields D) → PendingFields acc no_fields (b'}' ∷ [])
  unfolding action on_close_object
  fields_end acc zero acc0 k v rest set room e = absurd (omega arith)
  fields_end acc (suc f) acc0 k v rest set room e =
      loop-action read_d f _ b'}' rest (finish (object (json_set acc0 (c_string k) (ref v))) rest)
        (Ends-nonempty rest e) refl
      ∙ (ap (λ t. decoded (object (json_set acc0 (c_string k) (ref v))) t) (skip_space-Ends rest e)
          ∙ ap (λ gs. decoded (object gs) rest) (set ∙ sym (join-no_fields acc)))

  abbrev pub quoted : List ℕ → Text
  quoted ps = b'"' ∷ (body ps ++ (b'"' ∷ []))

  awaits_key : (x : Expect) → is_key x ≡ true → no_string x ≡ false
  awaits_key key h = refl
  awaits_key key_or_close h = refl
  awaits_key colon h = absurd (ground (arith, h))
  awaits_key comma_or_close h = absurd (ground (arith, h))
  awaits_key expr h = absurd (ground (arith, h))
  awaits_key expr_or_close h = absurd (ground (arith, h))

  action-key :
      (acc : Fields D) (ps : List ℕ) (x : Expect) (rest : Text)
      → All IsBasic ps
      → is_key x ≡ true
      → 0 < length rest
      → action read_d
          (fields_level acc none x)
          b'"'
          ((body ps ++ (b'"' ∷ [])) ++ rest)
          (quoted ps ++ rest)
        ≡ go (fields_level acc (some (utf8 ps)) colon) rest
  unfolding action on_quote
  action-key acc ps x rest all is more =
      rw (on_quote, awaits_key x is, decode_string-quoted ps rest all more)
        (rw (named_or_valued, is) refl)

  -- A name, its value, and what follows them.
  fields_at :
      (w : Json D) (fs acc' : Fields D) (ps : List ℕ) (out tail : Text) (f : ℕ) (acc : Fields D)
      (x : Expect) (rest : Text)
      → All IsBasic ps
      → Item read_d w out
      → closes tail ≡ true
      → json_set acc (c_string (utf8 ps)) (ref w) ≡ acc'
      → PendingFields acc' fs tail
      → is_key x ≡ true
      → Ends rest
      → 2 * length tail + 2 * length out + 2 ≤ f
      → loop read_d f (fields_level acc none x) (quoted ps ++ (b':' ∷ (out ++ (tail ++ rest))))
        ≡ decoded (object (join acc' fs)) rest
  unfolding action on_colon
  fields_at w fs acc' ps out tail zero acc x rest all one closed set more is e room =
      absurd (omega arith)
  fields_at w fs acc' ps out tail (suc zero) acc x rest all one closed set more is e room =
      absurd (omega arith)
  fields_at w fs acc' ps out tail (suc (suc f)) acc x rest all one closed set more is e room =
      let behind = out ++ (tail ++ rest) in
      let lv = fields_level acc (some (utf8 ps)) expr in
      loop-action read_d (suc f) (fields_level acc none x) b'"'
        ((body ps ++ (b'"' ∷ [])) ++ (b':' ∷ behind)) _
        (omega (arith, length-++ (body ps ++ (b'"' ∷ [])) (b':' ∷ behind)))
        (action-key acc ps x (b':' ∷ behind) all is (omega arith))
      ∙ (loop-action read_d f (fields_level acc (some (utf8 ps)) colon) b':' behind (go lv behind)
            (omega (arith, length-++ out (tail ++ rest), length-++ tail rest, Ends-nonempty rest e))
            refl
          ∙ one f (2 * length tail) lv (tail ++ rest) _
              (record { wanted = refl; unset = refl; nested = refl })
              (closes-Ends tail rest closed e) (λ g le. more g acc (utf8 ps) w rest set le e)
              (omega arith))

  abbrev pub named : List ℕ → Text → Text
  named ps out = quoted ps ++ (b':' ∷ out)

  named-++ :
      (ps : List ℕ) (out tail rest : Text)
      → (named ps out ++ tail) ++ rest ≡ quoted ps ++ (b':' ∷ (out ++ (tail ++ rest)))
  named-++ ps out tail rest =
      ++-assoc (named ps out) tail rest ∙ ++-assoc (quoted ps) (b':' ∷ out) (tail ++ rest)

  length-named :
      (ps : List ℕ) (out tail : Text) → length tail + length out + 1 ≤ length (named ps out ++ tail)
  length-named ps out tail =
      omega (arith, length-++ (named ps out) tail, length-++ (quoted ps) (b':' ∷ out))

  pub fields_next :
      (w : Json D) (acc fs acc' : Fields D) (ps : List ℕ) (out tail : Text)
      → All IsBasic ps
      → Item read_d w out
      → closes tail ≡ true
      → json_set acc (c_string (utf8 ps)) (ref w) ≡ acc'
      → PendingFields acc' fs tail
      → join acc' fs ≡ join acc (field (utf8 ps) (ref w) fs)
      → PendingFields acc (field (utf8 ps) (ref w) fs) (b',' ∷ (named ps out ++ tail))
  unfolding action on_comma
  fields_next w acc fs acc' ps out tail all one closed set more joins zero acc0 k v rest here room
        e =
      absurd (omega arith)
  fields_next w acc fs acc' ps out tail all one closed set more joins (suc f) acc0 k v rest here
        room e =
      let t = (named ps out ++ tail) ++ rest in
      loop-action read_d f _ b',' t (go (fields_level acc none key) t)
        (longer (named ps out ++ tail) rest e) (ap (λ a. go (fields_level a none key) t) here)
      ∙ (ap (λ u. loop read_d f (fields_level acc none key) u) (named-++ ps out tail rest)
          ∙ (fields_at w fs acc' ps out tail f acc key rest all one closed set more refl e
                (omega (arith, length-named ps out tail))
              ∙ ap (λ gs. decoded (object gs) rest) joins))

  pub object_empty : Top read_d (object no_fields) (b'{' ∷ b'}' ∷ [])
  unfolding action on_open on_close_object
  object_empty zero rest e room = absurd (omega arith)
  object_empty (suc zero) rest e room = absurd (omega arith)
  object_empty (suc (suc f)) rest e room =
      let lv = fields_level no_fields none key_or_close in
      loop-action read_d (suc f) initial b'{' (b'}' ∷ rest) (go lv (b'}' ∷ rest)) (omega arith) refl
      ∙ (loop-action read_d f lv b'}' rest (finish (object no_fields) rest) (Ends-nonempty rest e)
            refl
          ∙ ap (λ t. decoded (object no_fields) t) (skip_space-Ends rest e))

  pub object_some :
      (w : Json D) (fs acc : Fields D) (ps : List ℕ) (out tail : Text)
      → All IsBasic ps
      → Item read_d w out
      → closes tail ≡ true
      → json_set no_fields (c_string (utf8 ps)) (ref w) ≡ acc
      → PendingFields acc fs tail
      → join acc fs ≡ field (utf8 ps) (ref w) fs
      → Top read_d (object (field (utf8 ps) (ref w) fs)) (b'{' ∷ (named ps out ++ tail))
  unfolding action on_open
  object_some w fs acc ps out tail all one closed set more joins zero rest e room =
      absurd (omega arith)
  object_some w fs acc ps out tail all one closed set more joins (suc f) rest e room =
      let t = (named ps out ++ tail) ++ rest in
      let lv = fields_level no_fields none key_or_close in
      loop-action read_d f initial b'{' t (go lv t) (longer (named ps out ++ tail) rest e) refl
      ∙ (ap (λ u. loop read_d f lv u) (named-++ ps out tail rest)
          ∙ (fields_at w fs acc ps out tail f no_fields key_or_close rest all one closed set more
                refl e (omega (arith, length-named ps out tail))
              ∙ ap (λ gs. decoded (object gs) rest) joins))
