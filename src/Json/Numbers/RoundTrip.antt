-- ===== src/Json/Numbers/RoundTrip.antt =====
-- src/json.c: the whole numbers that are printed are read back.
use Prim.Native.Nat.{zero, suc}
use certmonger.Prelude.{
  ℕ, ◌+◌, ◌*◌, ◌/◌, ◌%◌, ◌^◌, ◌<◌, ◌≡◌, refl, ap, ◌∙◌, Bool, true, ◌&&◌, [], ◌∷◌, Text, ℤ, pos,
  negsuc, length, arith,
}
use certmonger.Json.Numbers.{print_digits, print_number, is_digit, read_digits, read_number}

-- What `long long` holds.
abbrev pub IsLongLong : ℤ → Type 0
IsLongLong (pos n) = n < 2 ^ 63
IsLongLong (negsuc n) = n < 2 ^ 63

abbrev pub all_digits : Text → Bool
all_digits [] = true
all_digits (c ∷ cs) = is_digit c && all_digits cs

read_digits-digit :
    (acc n : ℕ) (t : Text)
    → n < 10
    → read_digits acc ((b'0' + n) ∷ t) ≡ read_digits (acc * 10 + n) t
unfolding read_digits
read_digits-digit acc n t h = ground arith

read_digits-print_digits :
    (f n : ℕ) (out : Text) → n < f → read_digits 0 (print_digits f n out) ≡ read_digits n out
unfolding print_digits
read_digits-print_digits zero n out h = absurd (omega arith)
read_digits-print_digits (suc f) n out h = ground (
  arith,
  read_digits-print_digits f (n / 10) ((b'0' + n % 10) ∷ out),
  read_digits-digit 0 n out,
  read_digits-digit (n / 10) (n % 10) out,
)

pub print_digits-digits :
    (f n : ℕ) (out : Text)
    → n < f
    → all_digits out ≡ true
    → (all_digits (print_digits f n out) ≡ true) × (0 < length (print_digits f n out))
unfolding print_digits
print_digits-digits zero n out h all = absurd (omega arith)
print_digits-digits (suc f) n out h all =
    ground (arith, print_digits-digits f (n / 10) ((b'0' + n % 10) ∷ out))

read_number-digits :
    (t : Text)
    → all_digits t ≡ true
    → 0 < length t
    → read_digits 0 t < 2 ^ 63
    → read_number t ≡ pos (read_digits 0 t)
unfolding read_number
read_number-digits [] all h lt = absurd (omega arith)
read_number-digits (c ∷ cs) all h lt = ground arith

read_number-minus :
    (t : Text) (n : ℕ) → n < 2 ^ 63 → read_digits 0 t ≡ n + 1 → read_number (b'-' ∷ t) ≡ negsuc n
unfolding read_number
read_number-minus t n h e = ground (arith, e)

-- A number of the range of `long long` is read back from its digits.
pub read_number-print_number : (z : ℤ) → IsLongLong z → read_number (print_number z) ≡ z
unfolding print_number read_digits
read_number-print_number (pos n) h =
    let d = print_digits-digits (n + 1) n [] (omega arith) refl in
    let v = read_digits-print_digits (n + 1) n [] (omega arith) in
    read_number-digits (print_digits (n + 1) n []) d.0 d.1 (omega (arith, v)) ∙ ap (λ m. pos m) v
read_number-print_number (negsuc n) h =
    read_number-minus (print_digits (n + 2) (n + 1) []) n h
      (read_digits-print_digits (n + 2) (n + 1) [] (omega arith))
