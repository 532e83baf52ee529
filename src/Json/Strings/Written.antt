-- ===== src/Json/Strings/Written.antt =====
-- src/json.c: single code points between `cm_json_escape` and `cm_json_decode_string`.
use Prim.Native.Nat.{suc}
use certmonger.Prelude.{
  ℕ, ◌+◌, ◌-◌, ◌*◌, ◌/◌, ◌%◌, ◌<◌, ◌≤◌, ◌≡◌, refl, ap, sym, subst, ◌∙◌, ◌⊎◌, inl, inr, Bool, true,
  false, Option, none, some, [], ◌∷◌, ◌++◌, if◌then◌else◌, ltb, ◌==◌, Text, pos, length, arith,
  Bool-cases,
}
use certmonger.Json.Utf.{utf8_to_point}
use certmonger.Json.Utf.RoundTrip.{
  IsScalar, bytes_of, length-bytes_of_small, utf8_to_point-bytes_of,
}
use certmonger.Json.Strings.{
  skip, hex_digit, hex_digits, print_04x, escape_point, short_escape, is_plain, after, escape_step,
  escape_from, backslash_u, hex_value, read_hex, unescaped,
}

-- A code point of the basic plane that may stand in a text.
abbrev pub IsBasic : ℕ → Type 0
IsBasic p = IsScalar p × (p < 0x10000)

-- What `cm_json_escape` writes of it.
unfoldable pub written : ℕ → Text
unfolding short_escape hex_digits
written p = elim (short_escape p) [
  | some letter ↦ b'\\' ∷ letter ∷ []
  | none ↦ if is_plain p then p ∷ [] else backslash_u (hex_digits 4 p [])
]

pub hex_value-hex_digit : (n : ℕ) → n < 16 → hex_value (hex_digit n) ≡ some n
unfolding hex_value
hex_value-hex_digit n h = ground arith

read_hex-digit :
    (i point left v : ℕ) (cs : Text)
    → v < 16
    → read_hex (suc i) point (record { left = left; buffer = hex_digit v ∷ cs })
      ≡ read_hex i (point * 16 + v) (record { left = left - 1; buffer = cs })
unfolding read_hex
read_hex-digit i point left v cs h = ground (arith, hex_value-hex_digit v h)

-- Four digits are read as the number that they were written from.
pub read_hex-hex_digits :
    (p left : ℕ) (rest : Text)
    → p < 0x10000
    → read_hex 4 0 (record { left = left; buffer = hex_digits 4 p [] ++ rest })
      ≡ some (p, record { left = left - 4; buffer = rest })
unfolding hex_digits read_hex
read_hex-hex_digits p left rest h =
    let a = p / 16 / 16 / 16 % 16 in
    let b = p / 16 / 16 % 16 in
    let c = p / 16 % 16 in
    let d = p % 16 in
    read_hex-digit 3 0 left a _ (omega arith)
    ∙ (read_hex-digit 2 _ _ b _ (omega arith)
        ∙ (read_hex-digit 1 _ _ c _ (omega arith)
            ∙ (read_hex-digit 0 _ _ d rest (omega arith) ∙ ap (λ q. some q) (ground arith))))

-- The bytes of a code point have a first one, which is the point itself if it is below 0x80.
data Headed (p : ℕ) : Text → Type 0 where
  small : p < 128 → Headed p (p ∷ [])
  large : 128 ≤ p → (c : ℕ) (cs : Text) → 128 ≤ c → Headed p (c ∷ cs)

if_Headed :
    {p : ℕ} (b : Bool) {xs ys : Text}
    → (b ≡ true → Headed p xs)
    → (b ≡ false → Headed p ys)
    → Headed p (if b then xs else ys)
if_Headed true f g = f refl
if_Headed false f g = g refl

headed : (p : ℕ) → Headed p (bytes_of p)
unfolding bytes_of
headed p =
    if_Headed (ltb p 0x80) (λ h. small (ground arith))
      λ h.
        if_Headed (ltb p 0x800) (λ i. large (ground arith) _ _ (omega arith))
          λ i.
            if_Headed (ltb p 0x10000) (λ j. large (ground arith) _ _ (omega arith))
              λ j. large (ground arith) _ _ (omega arith)

skip_all : (xs ys : Text) → skip (length xs) (xs ++ ys) ≡ ys
unfolding skip
skip_all [] ys = refl
skip_all (x ∷ xs) ys = skip_all xs ys

hex_digits_long : (p : ℕ) → IsBasic p → escape_point p ≡ backslash_u (hex_digits 4 p [])
unfolding escape_point print_04x
hex_digits_long p h = ground arith

pub short_escape_large : (c : ℕ) → 128 ≤ c → short_escape c ≡ none
unfolding short_escape
short_escape_large c h = ground arith

-- How a code point is written: with a letter, as it is, or with its digits.
data Kind (p : ℕ) : Type 0 where
  lettered : p < 128 → (l : ℕ) → short_escape p ≡ some l → Kind p
  plain : p < 128 → short_escape p ≡ none → is_plain p ≡ true → Kind p
  numbered : short_escape p ≡ none → is_plain p ≡ false → Kind p

Option-cases : (o : Option ℕ) → (o ≡ none) ⊎ ((l : ℕ) × (o ≡ some l))
Option-cases none = inl refl
Option-cases (some l) = inr (l, refl)

point-Kind : (p : ℕ) → Kind p
point-Kind p = elim (Option-cases (short_escape p)) [
  | inr (l, e) ↦ lettered (ground (arith, short_escape_large p)) l e
  | inl e ↦ elim (Bool-cases (is_plain p)) [
    | inl b ↦ plain (ground arith) e b
    | inr b ↦ numbered e b
  ]
]

written_plain : (p : ℕ) → short_escape p ≡ none → is_plain p ≡ true → written p ≡ p ∷ []
unfolding written
written_plain p e b = rw (written, e, b) refl

written_lettered : (p l : ℕ) → short_escape p ≡ some l → written p ≡ b'\\' ∷ l ∷ []
unfolding written
written_lettered p l e = rw (written, e) refl

written_numbered :
    (p : ℕ)
    → short_escape p ≡ none
    → is_plain p ≡ false
    → written p ≡ backslash_u (hex_digits 4 p [])
unfolding written
written_numbered p e b = rw (written, e, b) refl

-- What one turn of the loop does at a character that is not written with a letter or as it is.
escape_step_numbered :
    (p c : ℕ) (cs rest : Text)
    → IsBasic p
    → short_escape c ≡ none
    → is_plain c ≡ false
    → bytes_of p ≡ c ∷ cs
    → escape_step c (cs ++ rest) ≡ some (backslash_u (hex_digits 4 p []), length (bytes_of p))
unfolding escape_step
escape_step_numbered p c cs rest h es pl e =
    let r : utf8_to_point (c ∷ cs ++ rest) ≡ (pos (length (bytes_of p)), p) =
      ap (λ t. utf8_to_point (t ++ rest)) (sym e) ∙ utf8_to_point-bytes_of p rest h.0 in
    let few : ltb 6 (length (bytes_of p)) ≡ false = ground (arith, length-bytes_of_small p) in
    let legal : ltb 0x10ffff p ≡ false = ground arith in
    let point = ap (λ x. x.1) r in
    rw (escape_step, es, pl, r, few, point, legal, hex_digits_long p h) refl

escape_step_lettered :
    (p l : ℕ) (rest : Text)
    → short_escape p ≡ some l
    → escape_step p rest ≡ some (b'\\' ∷ l ∷ [], 1)
unfolding escape_step
escape_step_lettered p l rest e = rw (escape_step, e) refl

escape_step_plain :
    (p : ℕ) (rest : Text)
    → short_escape p ≡ none
    → is_plain p ≡ true
    → escape_step p rest ≡ some (p ∷ [], 1)
unfolding escape_step
escape_step_plain p rest e b = rw (escape_step, e, b) refl

-- The loop of `cm_json_escape` writes a character and goes on behind it.
escape_from_head :
    (f p : ℕ) (t rest : Text)
    → IsBasic p
    → Headed p t
    → bytes_of p ≡ t
    → Kind p
    → escape_from (suc f) (t ++ rest) ≡ after (written p) (escape_from f rest)
unfolding escape_from skip
escape_from_head f p _ rest h (small lt) e (lettered k l es) =
    rw (escape_from, escape_step_lettered p l rest es, written_lettered p l es) refl
escape_from_head f p _ rest h (small lt) e (plain k es pl) =
    rw (escape_from, escape_step_plain p rest es pl, written_plain p es pl) refl
escape_from_head f p _ rest h (small lt) e (numbered es pl) =
    rw (escape_from, escape_step_numbered p p [] rest h es pl e, e, written_numbered p es pl) refl
escape_from_head f p _ rest h (large ge c cs hc) e (lettered k l es) = absurd (omega arith)
escape_from_head f p _ rest h (large ge c cs hc) e (plain k es pl) = absurd (omega arith)
escape_from_head f p _ rest h (large ge c cs hc) e (numbered es pl) =
    rw
      (
        escape_from,
        escape_step_numbered p c cs rest h (short_escape_large c hc) (ground arith) e,
        e,
        written_numbered p es pl,
        skip_all cs rest,
      )
      refl

pub escape_from-bytes_of :
    (f p : ℕ) (rest : Text)
    → IsBasic p
    → escape_from (suc f) (bytes_of p ++ rest) ≡ after (written p) (escape_from f rest)
escape_from-bytes_of f p rest h = escape_from_head f p _ rest h (headed p) refl (point-Kind p)

-- What a written point looks like: at least one byte, and no quote at its front.
pub data Shape (p : ℕ) : Text → Type 0 where
  shape_letter :
      (l : ℕ) → (l == b'u') ≡ false → unescaped l ≡ p → p < 128 → Shape p (b'\\' ∷ l ∷ [])
  shape_plain : p < 128 → (p == b'"') ≡ false → (p == b'\\') ≡ false → Shape p (p ∷ [])
  shape_digits : Shape p (b'\\' ∷ b'u' ∷ hex_digits 4 p [])

unescaped-short_escape :
    (p l : ℕ) → short_escape p ≡ some l → ((l == b'u') ≡ false) × (unescaped l ≡ p)
unfolding short_escape unescaped
unescaped-short_escape p l e = ground arith

not_special : (p : ℕ) → short_escape p ≡ none → ((p == b'"') ≡ false) × ((p == b'\\') ≡ false)
unfolding short_escape
not_special p e = ground arith

pub point-Shape : (p : ℕ) → Shape p (written p)
point-Shape p = elim (point-Kind p) [
  | lettered lt l e ↦
      let u = unescaped-short_escape p l e in
      subst (Shape p) (sym (written_lettered p l e)) (shape_letter l u.0 u.1 lt)
  | plain lt e b ↦
      let u = not_special p e in
      subst (Shape p) (sym (written_plain p e b)) (shape_plain lt u.0 u.1)
  | numbered e b ↦ subst (Shape p) (sym (written_numbered p e b)) shape_digits
]
