-- ===== src/Json/Numbers.antt =====
-- Whole numbers as src/json.c prints them (`%lld`) and reads them (`strtoll(tmp, NULL, 10)`).
pub mod RoundTrip
use Prim.Native.Nat.{zero, suc}
use certmonger.Prelude.{
  ℕ, ◌+◌, ◌-◌, ◌*◌, ◌/◌, ◌%◌, ◌^◌, Bool, ◌&&◌, ◌||◌, [], ◌∷◌, if◌then◌else◌, ltb, leb, ◌==◌, Text,
  ℤ, pos, negsuc, sub_ℕ,
}

-- The decimal digits of a number, before others; a number has fewer digits than its successor has
-- units.
unfoldable pub print_digits : ℕ → ℕ → Text → Text
print_digits zero n out = out
print_digits (suc f) n out =
    let more = print_digits f (n / 10) ((b'0' + n % 10) ∷ out) in
    if ltb n 10 then (b'0' + n) ∷ out else more

-- `%lld`
unfoldable pub print_number : ℤ → Text
unfolding print_digits
print_number (pos n) = print_digits (n + 1) n []
print_number (negsuc n) = b'-' ∷ print_digits (n + 2) (n + 1) []

abbrev pub is_digit : ℕ → Bool
is_digit c = leb b'0' c && leb c b'9'

-- The number that the digits at the front of a text write after `acc`.
unfoldable pub read_digits : ℕ → Text → ℕ
read_digits acc [] = acc
read_digits acc (c ∷ cs) =
    let more = read_digits (acc * 10 + (c - b'0')) cs in if is_digit c then more else acc

-- A magnitude that does not fit `long long` becomes the nearest that does.
abbrev at_most : ℕ → ℕ → ℕ
at_most bound n = if ltb bound n then bound else n

-- strtoll(), for a text that does not begin with white space
unfoldable pub read_number : Text → ℤ
unfolding read_digits
read_number [] = pos 0
read_number (c ∷ cs) =
    if c == b'-'
    then sub_ℕ 0 (at_most (2 ^ 63) (read_digits 0 cs))
    else (if c == b'+'
        then pos (at_most (2 ^ 63 - 1) (read_digits 0 cs))
        else pos (at_most (2 ^ 63 - 1) (read_digits 0 (c ∷ cs))))
