-- ===== src/Json/Strings/Escape.antt =====
-- src/json.c, `cm_json_escape`.
use Prim.Native.Nat.{zero, suc, bit_or}
use certmonger.Prelude.{
  ℕ, ◌+◌, ◌-◌, ◌/◌, ◌%◌, ◌^◌, Bool, ◌&&◌, ◌||◌, Option, none, some, [], ◌∷◌, ◌++◌, if◌then◌else◌,
  ltb, leb, ◌==◌, Text, pos, negsuc, length,
}
use certmonger.Json.Utf.{utf8_to_point}

-- The bytes from the n-th on, and the first n.
unfoldable pub skip : ℕ → Text → Text
skip zero t = t
skip (suc n) [] = []
skip (suc n) (c ∷ t) = skip n t

unfoldable pub first : ℕ → Text → Text
first zero t = []
first (suc n) [] = []
first (suc n) (c ∷ t) = c ∷ first n t

-- A hexadecimal digit of `%X`.
abbrev pub hex_digit : ℕ → ℕ
hex_digit n = if ltb n 10 then b'0' + n else b'A' + (n - 10)

-- The lowest digits of a number, before others.
unfoldable pub hex_digits : ℕ → ℕ → Text → Text
hex_digits zero n out = out
hex_digits (suc k) n out = hex_digits k (n / 16) (hex_digit (n % 16) ∷ out)

-- `%04X` of an `unsigned int`: four digits, or as many as are needed.
unfoldable pub print_04x : ℕ → Text
unfolding hex_digits
print_04x n =
    hex_digits
      (if ltb n (16 ^ 4)
        then 4
        else (if ltb n (16 ^ 5)
            then 5
            else (if ltb n (16 ^ 6) then 6 else (if ltb n (16 ^ 7) then 7 else 8))))
      n []

abbrev pub backslash_u : Text → Text
backslash_u t = b'\\' ∷ b'u' ∷ t

abbrev pub is_basic : ℕ → Bool
is_basic uni = ltb uni 0xd800 || (leb 0xe000 uni && leb uni 0xffff)

-- What is left in the buffer of a code point's sprintf(): a pair takes twelve bytes of it, and what
-- is longer is written over.
unfoldable pub escape_point : ℕ → Text
unfolding print_04x first
escape_point uni =
    if is_basic uni
    then backslash_u (print_04x uni)
    else (let u = (uni + 2 ^ 32 - 0x10000) % 2 ^ 32 in
        first 12 (
          backslash_u (print_04x (bit_or (u / 1024) 0xd800))
          ++ backslash_u (print_04x (bit_or (u % 1024) 0xdc00))))

-- The letter of a byte that has a short escape.
unfoldable pub short_escape : ℕ → Option ℕ
short_escape c =
    if c == b'"' || c == b'\\'
    then some c
    else (if c == 8
        then some b'b'
        else (if c == 12
            then some b'f'
            else (if c == 10
                then some b'n'
                else (if c == 13 then some b'r' else (if c == 9 then some b't' else none)))))

abbrev pub is_plain : ℕ → Bool
is_plain c = leb 0x20 c && ltb c 0x80

abbrev pub after : Text → Option Text → Option Text
after t none = none
after t (some rest) = some (t ++ rest)

-- One turn of the second loop of `cm_json_escape`: the bytes written and the bytes read, or an
-- error. It is at a byte `c` with `cs` behind it.
unfoldable pub escape_step : ℕ → Text → Option (Text × ℕ)
unfolding short_escape utf8_to_point escape_point
escape_step c cs = elim (short_escape c) [
  | some letter ↦ some (b'\\' ∷ letter ∷ [], 1)
  | none ↦
      if is_plain c
      then some (c ∷ [], 1)
      else (let (n, uni) = utf8_to_point (c ∷ cs) in
          elim n [
            | negsuc e ↦ none
            | pos k ↦
                if ltb 6 k
                then none
                else (if ltb 0x10ffff uni then none else some (escape_point uni, k))
          ])
]

-- The second loop; a turn reads at least one byte.
unfoldable pub escape_from : ℕ → Text → Option Text
unfolding escape_step skip
escape_from f [] = some []
escape_from zero (c ∷ cs) = none
escape_from (suc f) (c ∷ cs) = elim (escape_step c cs) [
  | none ↦ none
  | some (out, n) ↦ after out (escape_from f (skip n (c ∷ cs)))
]

-- `cm_json_escape`
unfoldable pub escape : Text → Option Text
unfolding escape_from
escape t = elim (escape_from (length t) t) [
  | none ↦ none
  | some body ↦ some (b'"' ∷ body ++ (b'"' ∷ []))
]
