-- ===== src/Json/Decode/Levels.antt =====
-- src/json.c, `cm_json_decode`: the variables of one call, what a turn of its loop comes to, and the
-- tests on bytes and on what is awaited.
use certmonger.Prelude.{
  ℕ, Bool, true, false, ◌&&◌, ◌||◌, Option, none, some, [], ◌∷◌, if◌then◌else◌, leb, ◌==◌, Text,
  text_eq, codes, any, length,
}
use certmonger.Json.Values.{Json, Ref, Items, Fields}
use certmonger.Json.Strings.{first}

-- What comes next, and, with the prefix CM_JSON_EXPECTED, the errors.
pub data Expect : Type 0 where
  key key_or_close colon comma_or_close expr expr_or_close : Expect

-- `aggtype` with `agg`
pub data Aggregate (D : Type 0) : Type 0 where
  undefined : Aggregate D
  in_array : Items D → Aggregate D
  in_object : Fields D → Aggregate D

-- The variables of one call: `agg`, `expect`, `s` and `sub`.
pub record Level (D : Type 0) : Type 0 where
  pub agg : Aggregate D
  pub expect : Expect
  pub name : Option Text
  pub sub : Ref D

-- What one turn of the loop comes to.
pub data Action (D : Type 0) : Type 0 where
  -- the next turn
  go : Level D → Text → Action D
  -- a call of `cm_json_decode` at this place for an item
  nest : Action D
  -- `*json` is set
  finish : Json D → Text → Action D
  -- goto done
  stop : Text → Action D
  -- a use of memory that is not the buffer's
  broken : Action D

pub data Decoded (D : Type 0) : Type 0 where
  decoded : Json D → Text → Decoded D
  failed : Expect → Text → Decoded D
  bad_access : Decoded D
  -- the model's fuel is used up
  starved : Decoded D

abbrev pub is_space : ℕ → Bool
is_space c = c == b' ' || (c == 9 || (c == 13 || c == 10))

-- The loop at `done`; strchr() finds the NUL too.
unfoldable pub skip_space : Text → Text
skip_space [] = []
skip_space (c ∷ []) = c ∷ []
skip_space (c ∷ d ∷ t) =
    let rest = skip_space (d ∷ t) in if is_space c || c == 0 then rest else c ∷ d ∷ t

-- strchr("0123456789+-", c) != NULL, and with "Ee." among them
abbrev pub starts_number : ℕ → Bool
starts_number c = (leb b'0' c && leb c b'9') || (c == b'+' || (c == b'-' || c == 0))

abbrev pub in_number : ℕ → Bool
in_number c = starts_number c || (c == b'E' || (c == b'e' || c == b'.'))

-- The bytes of a number, and the rest of the buffer.
unfoldable pub span_number : Text → Text × Text
span_number [] = ([], [])
span_number (c ∷ []) = ([], c ∷ [])
span_number (c ∷ d ∷ t) =
    let (tok, rest) = span_number (d ∷ t) in
    if in_number c then (c ∷ tok, rest) else ([], c ∷ d ∷ t)

abbrev pub is_fraction : Text → Bool
is_fraction = any λ c. c == b'E' || (c == b'e' || c == b'.')

abbrev pub no_value : Expect → Bool
no_value key = true
no_value key_or_close = true
no_value colon = true
no_value comma_or_close = true
no_value expr = false
no_value expr_or_close = false

abbrev pub no_close : Expect → Bool
no_close key = true
no_close colon = true
no_close expr = true
no_close key_or_close = false
no_close expr_or_close = false
no_close comma_or_close = false

abbrev pub no_string : Expect → Bool
no_string colon = true
no_string comma_or_close = true
no_string _ = false

abbrev pub is_key : Expect → Bool
is_key key = true
is_key key_or_close = true
is_key _ = false

abbrev pub has_words : Text → Text → Bool
has_words word buf = text_eq (first (length word) buf) word

-- `cm_json_decode_strerror`; `none` is a number that is no error of the decoder.
unfoldable pub decode_strerror : Option Expect → Text
decode_strerror (some key_or_close) = codes "expected an object key or close ('}')"
decode_strerror (some key) = codes "expected an object key"
decode_strerror (some colon) = codes "expected a colon (':')"
decode_strerror (some comma_or_close) = codes "expected a comma or close ('}' or ']')"
decode_strerror (some expr_or_close) = codes "expected an expression or close ('}' or ']')"
decode_strerror (some expr) = codes "expected an expression"
decode_strerror none = codes "unknown error"
