-- ===== src/Store/Encoding.antt =====
-- src/store-gen.c: bytes as hexadecimal digits and in base64.
pub mod RoundTrip
use Prim.Native.Nat.{zero, suc}
use certmonger.Prelude.{
  ℕ, ◌+◌, ◌-◌, ◌*◌, ◌/◌, ◌%◌, Bool, true, false, ◌&&◌, ◌||◌, Option, none, some, [], ◌∷◌, ◌++◌,
  if◌then◌else◌, ltb, leb, ◌==◌, Text, length,
}

-- hexchars[n & 0x0f]
abbrev pub hex_char : ℕ → ℕ
hex_char n = if ltb n 10 then b'0' + n else b'A' + (n - 10)

-- `cm_store_hex_from_bin`
unfoldable pub hex_from_bin : Text → Text
hex_from_bin [] = []
hex_from_bin (b ∷ bs) = hex_char (b / 16 % 16) ∷ hex_char (b % 16) ∷ hex_from_bin bs

-- `cm_store_serial_to_der`
unfoldable pub serial_to_der : Text → Text
serial_to_der serial =
    let length = length serial / 2 in
    b'0' ∷ b'2' ∷ hex_char (length / 16 % 16) ∷ hex_char (length % 16) ∷ serial

-- The place of a character among the digits, in either case; 0 for what is no digit.
abbrev pub hex_place : ℕ → ℕ
hex_place c =
    if leb b'0' c && leb c b'9'
    then c - b'0'
    else (if leb b'a' c && leb c b'f'
        then c - 87
        else (if leb b'A' c && leb c b'F' then c - 55 else 0))

-- `cm_store_hex_to_bin`, with room for `length` bytes
unfoldable pub hex_to_bin : Text → ℕ → Text
hex_to_bin [] length = []
hex_to_bin (c ∷ []) length = []
hex_to_bin (c ∷ d ∷ cs) zero = []
hex_to_bin (c ∷ d ∷ cs) (suc length) = (hex_place c * 16 + hex_place d) ∷ hex_to_bin cs length

-- BASE64_ALPHABET[n]
abbrev pub base64_char : ℕ → ℕ
base64_char n =
    if ltb n 26
    then b'A' + n
    else (if ltb n 52
        then b'a' + (n - 26)
        else (if ltb n 62 then b'0' + (n - 52) else (if n == 62 then b'+' else b'/')))

-- strchr(BASE64_ALPHABET, c) - BASE64_ALPHABET
unfoldable pub base64_place : ℕ → Option ℕ
base64_place c =
    if leb b'A' c && leb c b'Z'
    then some (c - b'A')
    else (if leb b'a' c && leb c b'z'
        then some (c - 71)
        else (if leb b'0' c && leb c b'9'
            then some (c + 4)
            else (if c == b'+' then some 62 else (if c == b'/' then some 63 else none))))

-- The digit of `acc` that stands behind `unit`.
abbrev pub base64_digit : ℕ → ℕ → ℕ
base64_digit acc unit = base64_char (acc / unit % 64)

-- `cm_store_base64_from_bin`: its loop by threes, and what its last switch makes of the rest
unfoldable pub base64_from_bin : Text → Text
base64_from_bin [] = []
base64_from_bin (a ∷ []) =
    let acc = a * 65536 in base64_digit acc 262144 ∷ base64_digit acc 4096 ∷ b'=' ∷ b'=' ∷ []
base64_from_bin (a ∷ b ∷ []) =
    let acc = a * 65536 + b * 256 in
    base64_digit acc 262144 ∷ base64_digit acc 4096 ∷ base64_digit acc 64 ∷ b'=' ∷ []
base64_from_bin (a ∷ b ∷ c ∷ bs) =
    let acc = a * 65536 + b * 256 + c in
    base64_digit acc 262144
    ∷ base64_digit acc 4096
    ∷ base64_digit acc 64
    ∷ base64_digit acc 1
    ∷ base64_from_bin bs

-- As many bytes as there is room for.
unfoldable pub fitting : ℕ → Text → Text
fitting zero bs = []
fitting (suc room) [] = []
fitting (suc room) (b ∷ bs) = b ∷ fitting room bs

-- The last switch of `cm_store_base64_to_bin`, at `count % 4`.
abbrev pub base64_last : ℕ → ℕ → ℕ → Text
base64_last count u room =
    if count == 2
    then (u * 4096 / 65536 % 256) ∷ []
    else (if count == 3
        then (u * 64 / 65536 % 256) ∷ fitting (room - 1) ((u * 64 / 256 % 256) ∷ [])
        else [])

-- Its loop: `insize` bytes of the text are left, `count` is taken modulo 4, and there is room for
-- `room` bytes.
unfoldable pub base64_loop : ℕ → Text → ℕ → ℕ → ℕ → Text
base64_loop zero t count u room = base64_last count u room
base64_loop (suc insize) [] count u room = base64_last count u room
base64_loop (suc insize) (c ∷ cs) count u room = elim (c == 0 || (c == b'=' || room == 0)) [
  | true ↦ base64_last count u room
  | false ↦ elim (base64_place c) [
    | none ↦ base64_loop insize cs count u room
    | some v ↦ elim (count == 3) [
      | false ↦ base64_loop insize cs (count + 1) (if count == 0 then v else u * 64 + v) room
      | true ↦
          let w = u * 64 + v in
          fitting room ((w / 65536 % 256) ∷ (w / 256 % 256) ∷ (w % 256) ∷ [])
          ++ base64_loop insize cs 0 0 (room - 3)
    ]
  ]
]

-- `cm_store_base64_to_bin`
unfoldable pub base64_to_bin : Text → ℕ → ℕ → Text
base64_to_bin serial insize length = base64_loop insize serial 0 0 length

-- `cm_store_base64_as_bin`, of a whole text
unfoldable pub base64_as_bin : Text → Text
base64_as_bin serial = base64_to_bin serial (length serial) ((length serial + 3) / 4 * 3)

-- `cm_store_base64_from_hex`
unfoldable pub base64_from_hex : Text → Text
base64_from_hex s = base64_from_bin (hex_to_bin s (length s / 2))
