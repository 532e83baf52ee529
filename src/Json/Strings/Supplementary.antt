-- ===== src/Json/Strings/Supplementary.antt =====
-- src/json.c: a character outside of the basic plane is written as a pair of escapes.
use Prim.Native.Nat.{suc, bit_or}
use certmonger.Prelude.{
  ℕ, ◌+◌, ◌-◌, ◌*◌, ◌/◌, ◌%◌, ◌^◌, ◌<◌, ◌≤◌, ◌≡◌, refl, inr, ap, sym, subst, ◌∙◌, true, false, ◌&&◌,
  some, none, [], ◌∷◌, ◌++◌, ltb, leb, ◌==◌, Text, pos, length, arith,
}
use certmonger.Json.Utf.{utf8_to_point, point_to_utf8_length}
use certmonger.Json.Utf.RoundTrip.{bytes_of, utf8_to_point-bytes_of, agree_to, agree_to_lem}
use certmonger.Json.Strings.{
  skip, hex_digit, hex_digits, print_04x, escape_point, backslash_u, escape_step, escape_from,
  escape, first, is_basic, is_plain, refused, read_low, read_escape, within, scan_refused,
  scan_escape, scan_step, scan, both_passes, decode_string,
}
use certmonger.Json.Strings.Written.{short_escape_large, read_hex-hex_digits, hex_value-hex_digit}
use certmonger.Json.Strings.ReadBack.{place}

high_table : agree_to (λ x. bit_or x 0xd800) (λ x. 0xd800 + x) 1023 ≡ true
unfolding agree_to
high_table = refl

low_table : agree_to (λ x. bit_or x 0xdc00) (λ x. 0xdc00 + x) 1023 ≡ true
unfolding agree_to
low_table = refl

-- The two halves of a pair.
abbrev pub high : ℕ → ℕ
high u = 0xd800 + (u - 0x10000) / 1024

abbrev pub low : ℕ → ℕ
low u = 0xdc00 + (u - 0x10000) % 1024

abbrev pair : ℕ → Text
pair u = backslash_u (hex_digits 4 (high u) [] ++ backslash_u (hex_digits 4 (low u) []))

-- A character behind the basic plane.
abbrev pub IsSupplementary : ℕ → Type 0
IsSupplementary u = (0x10000 ≤ u) × (u < 0x110000)

print_04x-short : (n : ℕ) → n < 0x10000 → print_04x n ≡ hex_digits 4 n []
unfolding print_04x
print_04x-short n h = let four : ltb n (16 ^ 4) ≡ true = ground arith in rw (print_04x, four) refl

-- The pair fills the twelve bytes exactly.
first-pair : (u : ℕ) → first 12 (pair u) ≡ pair u
unfolding first hex_digits
first-pair u = refl

escape_point-pair : (u : ℕ) → IsSupplementary u → escape_point u ≡ pair u
unfolding escape_point
escape_point-pair u h =
    let w : (u + 2 ^ 32 - 0x10000) % 2 ^ 32 ≡ u - 0x10000 = omega arith in
    let x = (u - 0x10000) / 1024 in
    let y = (u - 0x10000) % 1024 in
    let a : bit_or x 0xd800 ≡ 0xd800 + x =
      agree_to_lem (λ x. bit_or x 0xd800) (λ x. 0xd800 + x) 1023 x (omega arith) high_table in
    let b : bit_or y 0xdc00 ≡ 0xdc00 + y =
      agree_to_lem (λ x. bit_or x 0xdc00) (λ x. 0xdc00 + x) 1023 y (omega arith) low_table in
    let outside : is_basic u ≡ false = ground arith in
    rw
      (
        escape_point,
        outside,
        w,
        a,
        b,
        print_04x-short (0xd800 + x) (omega arith),
        print_04x-short (0xdc00 + y) (omega arith),
      )
      (first-pair u)

-- `cm_json_escape` writes the pair between quotes.
bytes_of-supplementary :
    (u : ℕ)
    → IsSupplementary u
    → bytes_of u
      ≡ (240 + u / 262144) ∷ (128 + u / 4096 % 64) ∷ (128 + u / 64 % 64) ∷ (128 + u % 64) ∷ []
unfolding bytes_of
bytes_of-supplementary u h = ground arith

escape_step-supplementary :
    (u c b1 b2 b3 : ℕ)
    → IsSupplementary u
    → 128 ≤ c
    → bytes_of u ≡ c ∷ b1 ∷ b2 ∷ b3 ∷ []
    → escape_step c (b1 ∷ b2 ∷ b3 ∷ []) ≡ some (pair u, 4)
unfolding escape_step
escape_step-supplementary u c b1 b2 b3 h big e =
    let size : length (bytes_of u) ≡ 4 = ap (λ t. length t) e in
    let r : utf8_to_point (c ∷ b1 ∷ b2 ∷ b3 ∷ []) ≡ (pos 4, u) =
      ap (λ t. utf8_to_point (t ++ [])) (sym e)
      ∙ (utf8_to_point-bytes_of u [] (inr (omega arith), h.1) ∙ ap (λ n. (pos n, u)) size) in
    let point = ap (λ x. x.1) r in
    let legal : ltb 0x10ffff u ≡ false = ground arith in
    let odd : is_plain c ≡ false = ground arith in
    rw (escape_step, short_escape_large c big, odd, r, point, legal, escape_point-pair u h) refl

-- One character in quotes.
abbrev pub quoted_pair : ℕ → Text
quoted_pair u = b'"' ∷ pair u ++ (b'"' ∷ [])

escape-four :
    (u c b1 b2 b3 : ℕ)
    → escape_step c (b1 ∷ b2 ∷ b3 ∷ []) ≡ some (pair u, 4)
    → escape (c ∷ b1 ∷ b2 ∷ b3 ∷ []) ≡ some (quoted_pair u)
unfolding escape escape_from skip
escape-four u c b1 b2 b3 step = rw (escape, escape_from, step) refl

escape-supplementary : (u : ℕ) → IsSupplementary u → escape (bytes_of u) ≡ some (quoted_pair u)
escape-supplementary u h =
    let e = bytes_of-supplementary u h in
    subst (λ t. escape t ≡ some (quoted_pair u)) (sym e)
      (escape-four u _ _ _ _ (escape_step-supplementary u _ _ _ _ h (omega arith) e))

-- The second half of the pair is read only as long as the end is far enough.
read_low-digit :
    (k i point left v : ℕ) (cs : Text)
    → v < 16
    → ltb (2 + i) left ≡ true
    → read_low (suc k) i point (place left (hex_digit v ∷ cs))
      ≡ read_low k (i + 1) (point * 16 + v) (place (left - 1) cs)
unfolding read_low
read_low-digit k i point left v cs h far =
    let small : (v == 16) ≡ false = ground arith in
    rw (read_low, far, hex_value-hex_digit v h, small) refl

read_low-end :
    (k i point left : ℕ) (t : Text)
    → ltb (2 + i) left ≡ false
    → read_low (suc k) i point (place left t) ≡ some (point, place left t)
unfolding read_low
read_low-end k i point left t near = rw (read_low, near) refl

-- Five bytes before the end, two of the four digits are read.
read_low-two :
    (l : ℕ) (rest : Text)
    → l < 0x10000
    → read_low 4 0 0 (place 5 (hex_digits 4 l [] ++ rest))
      ≡ some (l / 256, place 3 (hex_digit (l / 16 % 16) ∷ hex_digit (l % 16) ∷ rest))
unfolding hex_digits
read_low-two l rest h =
    read_low-digit 3 0 0 5 (l / 16 / 16 / 16 % 16) _ (omega arith) refl
    ∙ (read_low-digit 2 1 _ 4 (l / 16 / 16 % 16) _ (omega arith) refl
        ∙ (read_low-end 1 2 _ 3 _ refl ∙ ground arith))

-- The pair before the closing quote.
abbrev behind_high : ℕ → Text → Text
behind_high u rest = b'\\' ∷ b'u' ∷ hex_digits 4 (low u) [] ++ (b'"' ∷ rest)

read_escape-pair :
    (u : ℕ) (saved rest : Text)
    → IsSupplementary u
    → read_escape 0xdc000 saved (place 11 (hex_digits 4 (high u) [] ++ behind_high u rest))
      ≡ some (record {
        point = high u;
        place = place 7 (behind_high u rest);
        saved = behind_high u rest;
      })
unfolding read_escape
read_escape-pair u saved rest h =
    let first_half : (leb 0xd800 (high u) && (ltb (high u) 0xdc000 && (ltb 2 7 && true))) ≡ true =
      ground arith in
    let alone : (within 0xd800 0xdbff (high u) && within 0xdc00 0xdcff (low u / 256)) ≡ false =
      ground arith in
    rw
      (
        read_escape,
        read_hex-hex_digits (high u) 11 (behind_high u rest) (omega arith),
        first_half,
        read_low-two (low u) (b'"' ∷ rest) (omega arith),
        alone,
      )
      refl

no_length : (u : ℕ) → IsSupplementary u → point_to_utf8_length (high u) ≡ none
unfolding point_to_utf8_length
no_length u h = ground arith

scan_step-pair :
    (u : ℕ) (rest : Text)
    → IsSupplementary u
    → scan_step (place 13 (pair u ++ (b'"' ∷ rest))) ≡ scan_refused (behind_high u rest)
unfolding scan_step hex_digits scan_escape
scan_step-pair u rest h =
    ap (λ o. scan_escape (pair u ++ (b'"' ∷ rest)) o)
      (read_escape-pair u (pair u ++ (b'"' ∷ rest)) rest h)
    ∙ rw (scan_escape, no_length u h) refl

both_passes-pair :
    (u : ℕ) (rest : Text)
    → IsSupplementary u
    → both_passes (place 13 (pair u ++ (b'"' ∷ rest))) ≡ refused (behind_high u rest)
unfolding both_passes scan
both_passes-pair u rest h = rw (both_passes, scan, scan_step-pair u rest h) refl

-- A text that is one character behind the basic plane is written by `cm_json_escape`, and
-- `cm_json_decode_string` refuses what was written.
pub supplementary_refused :
    (u : ℕ)
    → IsSupplementary u
    → (out : Text) × (at : Text) × ((escape (bytes_of u) ≡ some out)
        × (decode_string (place (length out) (out ++ (0 ∷ []))) ≡ refused at))
unfolding decode_string hex_digits
supplementary_refused u h = (
  quoted_pair u,
  behind_high u (0 ∷ []),
  (escape-supplementary u h, both_passes-pair u (0 ∷ []) h),
)
