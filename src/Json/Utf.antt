-- ===== src/Json/Utf.antt =====
-- src/json.c: code points and their UTF-8.
pub mod RoundTrip
use Prim.Native.Nat.{zero, suc, bit_or}
use certmonger.Prelude.{
  ℕ, ◌+◌, ◌-◌, ◌*◌, ◌/◌, ◌%◌, ◌^◌, Bool, ◌&&◌, ◌||◌, not, Option, none, some, List, [], ◌∷◌,
  if◌then◌else◌, ltb, leb, ◌==◌, Text, ℤ, pos, negsuc, length,
}

-- while ((uc & 0x80) != 0) { count++; uc <<= 1; }
unfoldable pub leading_ones : ℕ → ℕ → ℕ
leading_ones zero uc = 0
leading_ones (suc f) uc =
    let rest = leading_ones f (uc * 2 % 256) in if leb 128 uc then rest + 1 else 0

-- The byte that `p` points to; the terminating NUL stands behind a text.
abbrev pub byte_at : Text → ℕ
byte_at [] = 0
byte_at (c ∷ cs) = c

-- The loop over the following bytes: what is returned, and the code point.
unfoldable pub following : ℕ → ℕ → ℕ → Text → ℤ × ℕ
following count zero acc t = (pos count, acc)
following count (suc n) acc [] = (negsuc 2, 0)
following count (suc n) acc (c ∷ t) =
    let rest = following count n (acc * 64 + c % 64) t in
    if c == 0 then (negsuc 2, 0) else (if c / 64 == 2 then rest else (negsuc 1, 0))

-- `cm_json_utf8_to_point`: the number of bytes or an error, and `*point`
unfoldable pub utf8_to_point : Text → ℤ × ℕ
unfolding leading_ones following
utf8_to_point t =
    let uc = byte_at t in
    if ltb uc 128
    then (pos 1, uc)
    else (if ltb uc 192
        then (negsuc 0, 0)
        else (let n = leading_ones 8 uc in
            if ltb 6 n
            then (negsuc 4, 0)
            else elim t [ [] ↦ (pos 1, 0) | c ∷ cs ↦ following n (n - 1) (uc % 2 ^ (7 - n)) cs ]))

-- while (point != 0) { ret++; point >>= 5; }
unfoldable pub groups : ℕ → ℕ → ℕ
groups zero point = 0
groups (suc f) point = let rest = groups f (point / 32) in if point == 0 then 0 else rest + 1

-- `cm_json_point_to_utf8_length`; `none` is -1. A `uint32_t` has at most five groups above its
-- lowest eleven bits.
unfoldable pub point_to_utf8_length : ℕ → Option ℕ
unfolding groups
point_to_utf8_length point =
    if ltb point 128
    then some 1
    else (if leb 0xd800 point && leb point 0xdfff then none else some (2 + groups 5 (point / 2048)))

-- The loop of `cm_json_point_to_utf8`, before bytes that are written already: what is left of the
-- point, `final`, and the bytes.
unfoldable pub low_bytes : ℕ → ℕ → ℕ → Text → ℕ × ℕ × Text
low_bytes zero point final out = (point, final, out)
low_bytes (suc n) point final out =
    low_bytes n (point / 64) (final / 2 + 128) ((128 + point % 64) ∷ out)

abbrev with_final : ℕ × ℕ × Text → Text
with_final (point, final, out) = bit_or final (point % 64) ∷ out

-- `cm_json_point_to_utf8`, with room for `max` bytes
unfoldable pub point_to_utf8 : ℕ → ℕ → Option Text
unfolding low_bytes
point_to_utf8 point max = elim (point_to_utf8_length point) [
  | none ↦ none
  | some count ↦
      if ltb max count
      then none
      else (if ltb point 128
          then some (point ∷ [])
          else some (with_final (low_bytes (count - 1) point 128 [])))
]
