-- ===== src/Json/Strings/Unescape.antt =====
-- src/json.c, `cm_json_decode_string`.
use Prim.Native.Nat.{zero, suc}
use certmonger.Prelude.{
  ℕ, ◌+◌, ◌-◌, ◌*◌, ◌/◌, ◌%◌, Bool, true, false, ◌&&◌, Option, none, some, [], ◌∷◌, if◌then◌else◌,
  ltb, leb, ◌==◌, Text,
}

-- What a reader comes to: a value and the buffer behind it, an error with `*next`, or a use of
-- memory that is not the buffer's.
pub data Reading {ℓ} (A : Type ℓ) : Type ℓ where
  read : A → Text → Reading A
  refused : Text → Reading A
  overread overrun : Reading A

-- (strchr(hexchars, c) - hexchars) / 2; strchr() finds the NUL too.
unfoldable pub hex_value : ℕ → Option ℕ
hex_value c =
    if leb b'0' c && leb c b'9'
    then some (c - b'0')
    else (if leb b'A' c && leb c b'F'
        then some (c - 55)
        else (if leb b'a' c && leb c b'f'
            then some (c - 87)
            else (if c == 0 then some 16 else none)))

-- (point << 4) | v, where `v` is at most 16
abbrev push_digit : ℕ → ℕ → ℕ
push_digit point v = if v == 16 then (point / 2 * 2 + 1) * 16 else point * 16 + v

-- A position in the buffer, with the number of bytes before `s + length`.
pub record Place : Type 0 where
  pub left : ℕ
  pub buffer : Text

-- The loop over four digits.
unfoldable pub read_hex : ℕ → ℕ → Place → Option (ℕ × Place)
unfolding hex_value
read_hex zero point p = some (point, p)
read_hex (suc i) point p = elim p.buffer [
  | [] ↦ none
  | c ∷ cs ↦ elim (hex_value c) [
    | none ↦ some (point, p)
    | some v ↦ read_hex i (push_digit point v) (record { left = p.left - 1; buffer = cs })
  ]
]

-- The same for the second half of a pair, which looks for the end as well: `i` digits are read.
unfoldable pub read_low : ℕ → ℕ → ℕ → Place → Option (ℕ × Place)
unfolding hex_value
read_low zero i point p = some (point, p)
read_low (suc k) i point p = elim (ltb (2 + i) p.left) [
  | false ↦ some (point, p)
  | true ↦ elim p.buffer [
    | [] ↦ none
    | c ∷ cs ↦ elim (hex_value c) [
      | none ↦ some (point, p)
      | some v ↦ read_low k (i + 1) (push_digit point v) (record { left = p.left - 1; buffer = cs })
    ]
  ]
]

abbrev pub within : ℕ → ℕ → ℕ → Bool
within lo hi n = leb lo n && leb n hi

abbrev pub starts_escape : Text → Bool
starts_escape (c ∷ d ∷ cs) = c == b'\\' && d == b'u'
starts_escape _ = false

abbrev pub behind_escape : Place → Place
behind_escape p = record { left = p.left - 2; buffer = skip_two p.buffer }
  where
    skip_two : Text → Text
    skip_two (c ∷ d ∷ cs) = cs
    skip_two _ = []

-- A code point that was read, where the reader is, and `psave`.
pub record Escaped : Type 0 where
  pub point : ℕ
  pub place : Place
  pub saved : Text

-- The rest of an escape behind its `u`. A point from 0xd800 on and below `bound` may be the first
-- half of a pair.
unfoldable pub read_escape : ℕ → Text → Place → Option Escaped
unfolding read_hex read_low
read_escape bound saved p = elim (read_hex 4 0 p) [
  | none ↦ none
  | some (point, q) ↦
      let alone = some (record { point = point; place = q; saved = saved }) in
      elim (leb 0xd800 point && (ltb point bound && (ltb 2 q.left && starts_escape q.buffer))) [
        | false ↦ alone
        | true ↦ elim (read_low 4 0 0 (behind_escape q)) [
          | none ↦ none
          | some (point2, r) ↦ elim (within 0xd800 0xdbff point && within 0xdc00 0xdcff point2) [
            | true ↦ some (record {
              point = point % 1024 * 1024 + point2 % 1024 + 0x10000;
              place = r;
              saved = q.buffer;
            })
            | false ↦ some (record { point = point; place = q; saved = q.buffer })
          ]
        ]
      ]
]
