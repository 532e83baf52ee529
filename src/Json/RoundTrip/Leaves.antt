-- ===== src/Json/RoundTrip/Leaves.antt =====
-- src/json.c: words, numbers and strings in the loop of `cm_json_decode`.
use certmonger.Prelude.{
  ℕ, ◌+◌, ◌-◌, ◌<◌, ◌≡◌, refl, subst, ◌∙◌, Bool, true, false, not, ◌||◌, ◌&&◌, leb, ◌==◌, some,
  List, [], ◌∷◌, ◌++◌, if◌then◌else◌, Text, codes, All, length, arith, ℤ, pos, negsuc, text_eq,
}
use certmonger.Json.Values.{Json, null, string, numberl, numberd, boolean, c_string}
use certmonger.Json.Strings.{first, skip}
use certmonger.Json.Strings.Written.{IsBasic}
use certmonger.Json.Strings.RoundTrip.{body, utf8, decode_string-quoted}
use certmonger.Json.Numbers.{print_number, read_number}
use certmonger.Json.Numbers.RoundTrip.{
  IsLongLong, all_digits, print_digits-digits, read_number-print_number,
}
use certmonger.Json.Decode.{
  Level, Expect, key, key_or_close, colon, comma_or_close, expr, expr_or_close, no_value, no_string,
  is_key, named_or_valued, is_space, starts_number, in_number, is_fraction, has_words, initial,
  token, on_token, on_quote, action,
}
use certmonger.Json.Decode.{span_number}
use certmonger.Json.RoundTrip.Loop.{Ends, Ends-nonempty, by_nested, Leaf}

-- The bytes that have a case of their own.
abbrev is_special : ℕ → Bool
is_special c =
    is_space c
    || (c == b'['
        || (c == b']' || (c == b'{' || (c == b'}' || (c == b',' || (c == b':' || c == b'"'))))))

-- A byte of a printed number.
abbrev pub is_part : ℕ → Bool
is_part c = in_number c && not (c == 0)

abbrev pub all_parts : Text → Bool
all_parts [] = true
all_parts (c ∷ cs) = is_part c && all_parts cs

span_number-cons :
    (c : ℕ) (t tok rest : Text)
    → in_number c ≡ true
    → 0 < length t
    → span_number t ≡ (tok, rest)
    → span_number (c ∷ t) ≡ (c ∷ tok, rest)
unfolding span_number
span_number-cons c [] tok rest n h e = absurd (omega arith)
span_number-cons c (d ∷ t) tok rest n h e = rw (n, e) refl

span_number-Ends : (rest : Text) → Ends rest → span_number rest ≡ ([], rest)
unfolding span_number
span_number-Ends [] e = refl
span_number-Ends (c ∷ []) e = refl
span_number-Ends (c ∷ d ∷ t) e = rw e.0 refl

length-before : (t rest : Text) → 0 < length rest → 0 < length (t ++ rest)
length-before [] rest h = h
length-before (c ∷ t) rest h = omega arith

span_number-parts :
    (tok rest : Text) → all_parts tok ≡ true → Ends rest → span_number (tok ++ rest) ≡ (tok, rest)
span_number-parts [] rest all e = span_number-Ends rest e
span_number-parts (c ∷ cs) rest all e =
    span_number-cons c (cs ++ rest) cs rest (ground arith)
      (length-before cs rest (Ends-nonempty rest e)) (span_number-parts cs rest (ground arith) e)

c_string-parts : (tok : Text) → all_parts tok ≡ true → c_string tok ≡ tok
unfolding c_string
c_string-parts [] all = refl
c_string-parts (c ∷ cs) all = ground (arith, c_string-parts cs)

all_digits-all_parts :
    (t : Text) → all_digits t ≡ true → (all_parts t ≡ true) × (is_fraction t ≡ false)
all_digits-all_parts [] all = (refl, refl)
all_digits-all_parts (c ∷ cs) all = ground (arith, all_digits-all_parts cs)

abbrev pub starts_text : Text → Bool
starts_text [] = false
starts_text (c ∷ cs) = starts_number c

-- What `%Lf` makes of a `long double` that is a number: a digit or a sign, then digits and a point.
pub record IsDecimal (t : Text) : Type 0 where
  pub begins : starts_text t ≡ true
  pub parts : all_parts t ≡ true
  pub fraction : is_fraction t ≡ true

-- Where a value may stand, so may a string that is no key.
awaits_value : (e : Expect) → no_value e ≡ false → (no_string e ≡ false) × (is_key e ≡ false)
awaits_value key h = absurd (ground (arith, h))
awaits_value key_or_close h = absurd (ground (arith, h))
awaits_value colon h = absurd (ground (arith, h))
awaits_value comma_or_close h = absurd (ground (arith, h))
awaits_value expr h = (refl, refl)
awaits_value expr_or_close h = (refl, refl)

module _ {D : Type 0} (read_d : Text → D) where
  -- A text that one turn reads as a value.
  pub data OneTurn (v : Json D) : Text → Type 0 where
    one_turn : (c : ℕ) (cs : Text) → Leaf read_d v c cs → OneTurn v (c ∷ cs)

  action-on_token :
      (lv : Level D) (c : ℕ) (t p : Text)
      → is_special c ≡ false
      → action read_d lv c t p ≡ on_token read_d lv c p
  unfolding action
  action-on_token lv c t p h = ground arith

  -- A token that is read wherever it stands is read by one turn.
  token-Leaf :
      (v : Json D) (c : ℕ) (cs : Text)
      → is_special c ≡ false
      → ((rest : Text) → Ends rest → token read_d c (c ∷ cs ++ rest) ≡ some (v, rest))
      → Leaf read_d v c cs
  unfolding on_token
  token-Leaf v c cs plain reads = record {
    alone = λ rest e.
        action-on_token initial c (cs ++ rest) (c ∷ cs ++ rest) plain
        ∙ rw (on_token, reads rest e) refl;
    within_one = λ lv rest place e.
        action-on_token lv c (cs ++ rest) (c ∷ cs ++ rest) plain
        ∙ rw (on_token, place.wanted, place.unset, reads rest e)
            (by_nested read_d lv.agg _ _ place.nested);
  }

  pub null-Leaf : Leaf read_d null b'n' (codes "ull")
  unfolding token skip text_eq first
  null-Leaf = token-Leaf null _ _ refl λ rest e.
      let long : leb 4 (length (codes "null" ++ rest) - 1) ≡ true =
        ground (arith, Ends-nonempty rest e) in
      rw (token, long) refl

  pub true-Leaf : Leaf read_d (boolean 1) b't' (codes "rue")
  unfolding token skip text_eq first
  true-Leaf = token-Leaf (boolean 1) _ _ refl λ rest e.
      let long : leb 4 (length (codes "true" ++ rest) - 1) ≡ true =
        ground (arith, Ends-nonempty rest e) in
      rw (token, long) refl

  pub false-Leaf : Leaf read_d (boolean 0) b'f' (codes "alse")
  unfolding token skip text_eq first
  false-Leaf = token-Leaf (boolean 0) _ _ refl λ rest e.
      let long : leb 4 (length (codes "false" ++ rest) - 1) ≡ true =
        ground (arith, Ends-nonempty rest e) in
      let longer : leb 5 (length (codes "false" ++ rest) - 1) ≡ true =
        ground (arith, Ends-nonempty rest e) in
      rw (token, long, longer) refl

  no_word :
      (n w c : ℕ) (ws t : Text)
      → (c == w) ≡ false
      → (leb n (length (c ∷ t) - 1) && has_words (w ∷ ws) (c ∷ t)) ≡ false
  unfolding first text_eq
  no_word n w c ws t h = ground arith

  abbrev pub number_of : Text → Json D
  number_of tok = if is_fraction tok then numberd (read_d tok) else numberl (read_number tok)

  pub number-Leaf :
      (c : ℕ) (cs : Text)
      → starts_number c ≡ true
      → all_parts (c ∷ cs) ≡ true
      → Leaf read_d (number_of (c ∷ cs)) c cs
  unfolding token
  number-Leaf c cs starts parts = token-Leaf (number_of (c ∷ cs)) c cs (ground arith) λ rest e.
      let t = cs ++ rest in
      let n = no_word 4 b'n' c (codes "ull") t (ground arith) in
      let u = no_word 4 b't' c (codes "rue") t (ground arith) in
      let v = no_word 5 b'f' c (codes "als") t (ground arith) in
      rw
        (
          token,
          n,
          u,
          v,
          starts,
          span_number-parts (c ∷ cs) rest parts e,
          c_string-parts (c ∷ cs) parts,
        )
        refl

  digits-Leaf :
      (t : Text) → all_digits t ≡ true → 0 < length t → OneTurn (numberl (read_number t)) t
  digits-Leaf [] all h = absurd (omega arith)
  digits-Leaf (c ∷ cs) all h =
      let parts = all_digits-all_parts (c ∷ cs) all in
      let leaf = number-Leaf c cs (ground arith) parts.0 in
      one_turn c cs (
        subst
          (λ b.
            Leaf read_d (if b then numberd (read_d (c ∷ cs)) else numberl (read_number (c ∷ cs))) c
              cs)
          parts.1 leaf)

  minus-Leaf :
      (t : Text) → all_digits t ≡ true → OneTurn (numberl (read_number (b'-' ∷ t))) (b'-' ∷ t)
  minus-Leaf t all =
      let parts = all_digits-all_parts t all in
      let fraction : is_fraction (b'-' ∷ t) ≡ false = ground (arith, parts) in
      let leaf = number-Leaf b'-' t refl (ground (arith, parts)) in
      one_turn b'-' t (
        subst
          (λ b.
            Leaf read_d
              (if b then numberd (read_d (b'-' ∷ t)) else numberl (read_number (b'-' ∷ t))) b'-' t)
          fraction leaf)

  pub numberl-Leaf : (z : ℤ) → IsLongLong z → OneTurn (numberl z) (print_number z)
  unfolding print_number
  numberl-Leaf (pos n) h =
      let d = print_digits-digits (n + 1) n [] (omega arith) refl in
      subst (λ z. OneTurn (numberl z) (print_number (pos n))) (read_number-print_number (pos n) h)
        (digits-Leaf _ d.0 d.1)
  numberl-Leaf (negsuc n) h =
      let d = print_digits-digits (n + 2) (n + 1) [] (omega arith) refl in
      subst (λ z. OneTurn (numberl z) (print_number (negsuc n)))
        (read_number-print_number (negsuc n) h) (minus-Leaf _ d.0)

  fraction-Leaf :
      (t : Text)
      → starts_text t ≡ true
      → all_parts t ≡ true
      → is_fraction t ≡ true
      → OneTurn (numberd (read_d t)) t
  fraction-Leaf [] starts parts fraction = absurd (ground (arith, starts))
  fraction-Leaf (c ∷ cs) starts parts fraction = one_turn c cs (
      subst
        (λ b.
          Leaf read_d (if b then numberd (read_d (c ∷ cs)) else numberl (read_number (c ∷ cs))) c
            cs)
        fraction (number-Leaf c cs starts parts))

  pub numberd-Leaf : (t : Text) → IsDecimal t → OneTurn (numberd (read_d t)) t
  numberd-Leaf t printed = fraction-Leaf t printed.begins printed.parts printed.fraction

  pub string-Leaf :
      (ps : List ℕ) → All IsBasic ps → Leaf read_d (string (utf8 ps)) b'"' (body ps ++ (b'"' ∷ []))
  unfolding action on_quote
  string-Leaf ps all = record {
    alone = λ rest e. rw (on_quote, decode_string-quoted ps rest all (Ends-nonempty rest e)) refl;
    within_one = λ lv rest place e.
        let waits = awaits_value lv.expect place.wanted in
        rw (on_quote, waits.0, decode_string-quoted ps rest all (Ends-nonempty rest e))
          (by_nested read_d lv.agg _ _ place.nested ∙ rw (named_or_valued, waits.1) refl);
  }
