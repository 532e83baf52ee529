-- ===== src/Store/Serial/Value.antt =====
-- The serial numbers of src/store-gen.c, read as numbers.
use mathlib.Core.List.{reverse, reverse_aux, reverse-reverse}
use certmonger.Prelude.{
  ℕ, ◌+◌, ◌-◌, ◌*◌, ◌≤◌, ◌≡◌, refl, ◌∙◌, sym, ap, Bool, true, false, not, ◌&&◌, ◌||◌, some, [], ◌∷◌,
  if◌then◌else◌, leb, ltb, length, Text, arith,
}
use certmonger.Store.Serial.{
  increment_digits, increment_text, increment_serial, pad_serial, is_high,
}

-- The value of a hexadecimal digit.
abbrev pub digit : ℕ → ℕ
digit c = if leb c b'9' then c - b'0' else (if leb c b'F' then c - 55 else c - 87)

abbrev pub is_hex : ℕ → Bool
is_hex c = (leb b'0' c && leb c b'9') || ((leb b'A' c && leb c b'F') || (leb b'a' c && leb c b'f'))

abbrev pub all_hex : Text → Bool
all_hex [] = true
all_hex (c ∷ cs) = is_hex c && all_hex cs

-- The number that digits write after `acc`.
abbrev pub read_from : ℕ → Text → ℕ
read_from acc [] = acc
read_from acc (c ∷ cs) = read_from (16 * acc + digit c) cs

-- The number that a text writes.
abbrev pub value : Text → ℕ
value t = read_from 0 t

-- The same with the last digit first.
low_first : Text → ℕ
low_first [] = 0
low_first (c ∷ cs) = digit c + 16 * low_first cs

shifted : ℕ → Text → ℕ
shifted acc [] = acc
shifted acc (c ∷ cs) = 16 * shifted acc cs

read_from-reverse :
    (acc : ℕ) (xs ys : Text)
    → read_from acc (reverse_aux xs ys) ≡ read_from (shifted acc xs + low_first xs) ys
unfolding low_first shifted
read_from-reverse acc [] ys = ap (λ n. read_from n ys) (omega arith)
read_from-reverse acc (x ∷ xs) ys =
    read_from-reverse acc xs (x ∷ ys) ∙ ap (λ n. read_from n ys) (omega arith)

shifted_zero : (xs : Text) → shifted 0 xs ≡ 0
unfolding shifted
shifted_zero [] = refl
shifted_zero (x ∷ xs) = ground (arith, shifted_zero xs)

-- Stepping digits adds one, and a carry out of them stands for the place before them.
increment_digits-low_first :
    (cs : Text)
    → all_hex cs ≡ true
    → let (ds, out) = increment_digits cs in
      (low_first ds + (if out then shifted 1 cs else 0) ≡ low_first cs + 1)
      × (shifted 1 ds ≡ shifted 1 cs)
unfolding increment_digits low_first shifted
increment_digits-low_first [] h = (refl, refl)
increment_digits-low_first (c ∷ cs) h = ground (arith, increment_digits-low_first cs)

read_from-pad_serial : (t : Text) → value (pad_serial t) ≡ value t
read_from-pad_serial [] = refl
read_from-pad_serial (c ∷ cs) = ground arith

all_hex-reverse :
    (xs ys : Text) → all_hex xs ≡ true → all_hex ys ≡ true → all_hex (reverse_aux xs ys) ≡ true
all_hex-reverse [] ys hx hy = hy
all_hex-reverse (x ∷ xs) ys hx hy = all_hex-reverse xs (x ∷ ys) (ground arith) (ground arith)

value-reverse : (xs : Text) → value (reverse xs) ≡ low_first xs
value-reverse xs = read_from-reverse 0 xs [] ∙ omega (arith, shifted_zero xs)

value-low_first : (t : Text) → value t ≡ low_first (reverse t)
value-low_first t = ap value (sym (reverse-reverse t)) ∙ value-reverse (reverse t)

-- A text that begins with a digit of at most 7 is not read as a negative number.
abbrev pub is_low : Text → Bool
is_low [] = true
is_low (c ∷ cs) = not (is_high c)

abbrev finished : Text × Bool → Text
finished (digits, out) = if out then b'0' ∷ b'1' ∷ reverse digits else pad_serial (reverse digits)

finished-value :
    (digits : Text) (out : Bool)
    → value (finished (digits, out)) ≡ low_first digits + (if out then shifted 1 digits else 0)
finished-value digits true = read_from-reverse 1 digits [] ∙ omega arith
finished-value digits false =
    read_from-pad_serial (reverse digits) ∙ (value-reverse digits ∙ omega arith)

pad_serial-low : (t : Text) → is_low (pad_serial t) ≡ true
pad_serial-low [] = refl
pad_serial-low (c ∷ cs) = ground arith

finished-low : (r : Text × Bool) → is_low (finished r) ≡ true
finished-low (digits, true) = refl
finished-low (digits, false) = pad_serial-low (reverse digits)

-- The next serial number after a hexadecimal one of two digits or more is greater by one, however
-- long it is, and its first digit does not make it negative.
pub increment_serial-value :
    (t : Text)
    → all_hex t ≡ true
    → 2 ≤ length t
    → (value (increment_serial (some t)) ≡ value t + 1)
      × (is_low (increment_serial (some t)) ≡ true)
unfolding increment_serial increment_text
increment_serial-value t hex long =
    let r = increment_digits (reverse t) in
    let (adds, same) = increment_digits-low_first (reverse t) (all_hex-reverse t [] hex refl) in
    let short : ltb (length t) 2 ≡ false = ground arith in
    rw short (
      finished-value r.0 r.1
          ∙ (ap (λ n. low_first r.0 + (if r.1 then n else 0)) same
              ∙ (adds ∙ ap (λ n. n + 1) (sym (value-low_first t)))),
      finished-low r,
    )
