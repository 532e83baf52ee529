-- ===== src/Json/Utf/RoundTrip.antt =====
-- The UTF-8 that src/json.c writes of a code point is read as that code point.
use Prim.Native.Nat.{zero, suc, bit_or}
use certmonger.Prelude.{
  ℕ, ◌+◌, ◌*◌, ◌/◌, ◌%◌, ◌<◌, ◌≤◌, ◌≡◌, refl, subst, sym, ◌⊎◌, inl, inr, Bool, true, ◌&&◌, some, [],
  ◌∷◌, ◌++◌, if◌then◌else◌, ltb, ◌==◌, ==_iff, Text, pos, length, arith,
}
use certmonger.Json.Utf.{
  leading_ones, following, utf8_to_point, groups, point_to_utf8_length, low_bytes, point_to_utf8,
}

-- Whether two functions agree on the numbers up to a limit.
unfoldable pub agree_to : (ℕ → ℕ) → (ℕ → ℕ) → ℕ → Bool
agree_to f g zero = f 0 == g 0
agree_to f g (suc limit) = agree_to f g limit && f (suc limit) == g (suc limit)

pub agree_to_lem : (f g : ℕ → ℕ) (limit n : ℕ) → n ≤ limit → agree_to f g limit ≡ true → f n ≡ g n
unfolding agree_to
agree_to_lem f g zero n small agree =
    let exact : 0 ≡ n = omega arith in subst (λ m. f m ≡ g m) exact ((==_iff _ _).0 agree)
agree_to_lem f g (suc limit) n small agree = elim (last_or_less n limit small) [
  | inl exact ↦ subst (λ m. f m ≡ g m) (sym exact) ((==_iff _ _).0 (ground (arith, agree)))
  | inr less ↦ agree_to_lem f g limit n less (ground (arith, agree))
]
  where
    last_or_less : (n limit : ℕ) → n ≤ suc limit → (n ≡ suc limit) ⊎ (n ≤ limit)
    last_or_less n limit small = omega arith

-- Marks on the first byte.
table2 : agree_to (λ x. bit_or 192 x) (λ x. 192 + x) 31 ≡ true
unfolding agree_to
table2 = refl

table3 : agree_to (λ x. bit_or 224 x) (λ x. 224 + x) 15 ≡ true
unfolding agree_to
table3 = refl

table4 : agree_to (λ x. bit_or 240 x) (λ x. 240 + x) 7 ≡ true
unfolding agree_to
table4 = refl

marked2 : (x : ℕ) → x < 32 → bit_or 192 x ≡ 192 + x
marked2 x h = agree_to_lem _ _ 31 x (omega arith) table2

marked3 : (x : ℕ) → x < 16 → bit_or 224 x ≡ 224 + x
marked3 x h = agree_to_lem _ _ 15 x (omega arith) table3

marked4 : (x : ℕ) → x < 8 → bit_or 240 x ≡ 240 + x
marked4 x h = agree_to_lem _ _ 7 x (omega arith) table4

-- A code point that may stand in a text.
abbrev pub IsScalar : ℕ → Type 0
IsScalar p = ((p < 0xd800) ⊎ (0xdfff < p)) × (p < 0x110000)

-- The bytes of a code point, by its size.
unfoldable pub bytes_of : ℕ → Text
bytes_of p =
    if ltb p 0x80
    then p ∷ []
    else (if ltb p 0x800
        then (192 + p / 64) ∷ (128 + p % 64) ∷ []
        else (if ltb p 0x10000
            then (224 + p / 4096) ∷ (128 + p / 64 % 64) ∷ (128 + p % 64) ∷ []
            else (240 + p / 262144)
              ∷ (128 + p / 4096 % 64)
              ∷ (128 + p / 64 % 64)
              ∷ (128 + p % 64)
              ∷ []))

pub length-bytes_of_small : (p : ℕ) → length (bytes_of p) ≤ 4
unfolding bytes_of
length-bytes_of_small p = ground arith

pub length-bytes_of : (p : ℕ) → IsScalar p → point_to_utf8_length p ≡ some (length (bytes_of p))
unfolding point_to_utf8_length groups bytes_of
length-bytes_of p h = ground arith

pub point_to_utf8-bytes_of :
    (p max : ℕ) → IsScalar p → length (bytes_of p) ≤ max → point_to_utf8 p max ≡ some (bytes_of p)
unfolding point_to_utf8 low_bytes bytes_of point_to_utf8_length groups
point_to_utf8-bytes_of p max h room =
    ground (arith, room, marked2 (p / 64), marked3 (p / 64 / 64), marked4 (p / 64 / 64 / 64))

-- Marks on the first byte that is read.
ones2 : agree_to (λ x. leading_ones 8 (192 + x)) (λ x. 2) 31 ≡ true
unfolding agree_to leading_ones
ones2 = refl

ones3 : agree_to (λ x. leading_ones 8 (224 + x)) (λ x. 3) 15 ≡ true
unfolding agree_to leading_ones
ones3 = refl

ones4 : agree_to (λ x. leading_ones 8 (240 + x)) (λ x. 4) 7 ≡ true
unfolding agree_to leading_ones
ones4 = refl

read1 : (p : ℕ) (rest : Text) → p < 128 → utf8_to_point (p ∷ rest) ≡ (pos 1, p)
unfolding utf8_to_point
read1 p rest h = ground arith

read2 :
    (a b : ℕ) (rest : Text)
    → a < 32
    → b < 64
    → utf8_to_point ((192 + a) ∷ (128 + b) ∷ rest) ≡ (pos 2, a * 64 + b)
unfolding utf8_to_point following
read2 a b rest ha hb =
    let n : leading_ones 8 (192 + a) ≡ 2 = agree_to_lem _ _ 31 a (omega arith) ones2 in
    rw (utf8_to_point, n) ground arith

read3 :
    (a b c : ℕ) (rest : Text)
    → a < 16
    → b < 64
    → c < 64
    → utf8_to_point ((224 + a) ∷ (128 + b) ∷ (128 + c) ∷ rest) ≡ (pos 3, (a * 64 + b) * 64 + c)
unfolding utf8_to_point following
read3 a b c rest ha hb hc =
    let n : leading_ones 8 (224 + a) ≡ 3 = agree_to_lem _ _ 15 a (omega arith) ones3 in
    rw (utf8_to_point, n) ground arith

read4 :
    (a b c d : ℕ) (rest : Text)
    → a < 8
    → b < 64
    → c < 64
    → d < 64
    → utf8_to_point ((240 + a) ∷ (128 + b) ∷ (128 + c) ∷ (128 + d) ∷ rest)
      ≡ (pos 4, ((a * 64 + b) * 64 + c) * 64 + d)
unfolding utf8_to_point following
read4 a b c d rest ha hb hc hd =
    let n : leading_ones 8 (240 + a) ≡ 4 = agree_to_lem _ _ 7 a (omega arith) ones4 in
    rw (utf8_to_point, n) ground arith

pub utf8_to_point-bytes_of :
    (p : ℕ) (rest : Text)
    → IsScalar p
    → utf8_to_point (bytes_of p ++ rest) ≡ (pos (length (bytes_of p)), p)
unfolding bytes_of
utf8_to_point-bytes_of p rest h = ground (
  arith,
  read1 p rest,
  read2 (p / 64) (p % 64) rest,
  read3 (p / 4096) (p / 64 % 64) (p % 64) rest,
  read4 (p / 262144) (p / 4096 % 64) (p / 64 % 64) (p % 64) rest,
)

-- A code point that may stand in a text is written as UTF-8 where four bytes have room, and what is
-- written is read back as that code point and its length, whatever stands behind it.
pub utf8_to_point-point_to_utf8 :
    (p max : ℕ) (rest : Text)
    → IsScalar p
    → 4 ≤ max
    → (out : Text) × ((point_to_utf8 p max ≡ some out)
        × (utf8_to_point (out ++ rest) ≡ (pos (length out), p)))
utf8_to_point-point_to_utf8 p max rest h room = (
  bytes_of p,
  (
    point_to_utf8-bytes_of p max h (omega (arith, length-bytes_of_small p)),
    utf8_to_point-bytes_of p rest h,
  ),
)
