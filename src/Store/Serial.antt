-- ===== src/Store/Serial.antt =====
-- src/store-gen.c, `cm_store_increment_serial`: the next serial number of the internal CA, as
-- hexadecimal text.
pub mod Value
use certmonger.Prelude.{
  ℕ, ◌+◌, Bool, true, false, ◌&&◌, ◌||◌, Option, none, some, [], ◌∷◌, if◌then◌else◌, ltb, leb, ◌==◌,
  length, Text, codes,
}
use mathlib.Core.List.{reverse}

-- The digits that `tmp[i]++` steps.
abbrev pub steps : ℕ → Bool
steps c = (leb b'0' c && leb c b'8') || (leb b'A' c && leb c b'E') || (leb b'a' c && leb c b'e')

-- The loop, from the last digit backwards: the digits in that order, and whether it ran out of them.
unfoldable pub increment_digits : Text → Text × Bool
increment_digits [] = ([], true)
increment_digits (c ∷ cs) =
    let (rest, out) = increment_digits cs in
    if steps c
    then ((c + 1) ∷ cs, false)
    else (if c == b'9'
        then (b'A' ∷ cs, false)
        else (if c == b'F' || c == b'f' then (b'0' ∷ rest, out) else (c ∷ cs, false)))

-- strchr("89abcdefABCDEF", c) != NULL, for a digit `c`
abbrev pub is_high : ℕ → Bool
is_high c = c == b'8' || c == b'9' || (leb b'a' c && leb c b'f') || (leb b'A' c && leb c b'F')

abbrev pub pad_serial : Text → Text
pad_serial [] = []
pad_serial (c ∷ cs) = if is_high c then b'0' ∷ b'0' ∷ c ∷ cs else c ∷ cs

unfoldable pub increment_text : Text → Text
unfolding increment_digits
increment_text t =
    let (digits, out) = increment_digits (reverse t) in
    if out then b'0' ∷ b'1' ∷ reverse digits else pad_serial (reverse digits)

-- A serial number that is missing or shorter than a byte starts anew at 01.
unfoldable pub increment_serial : Option Text → Text
unfolding increment_text
increment_serial none = codes "01"
increment_serial (some t) = if ltb (length t) 2 then codes "01" else increment_text t
