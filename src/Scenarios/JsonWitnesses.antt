-- ===== src/Scenarios/JsonWitnesses.antt =====
-- Concrete runs of the code of src/json.c, which also show that the theorems' conditions can be met.
use certmonger.Prelude.{
  ℕ, ◌+◌, ◌*◌, ◌/◌, ◌%◌, ◌==◌, false, ◌-◌, ◌<◌, ◌≡◌, All, Bool, ◌&&◌, ltb, ◌≢◌, refl, inl, inr,
  true, Option, none, some, List, [], ◌∷◌, ◌++◌, pos, negsuc, ℤ, if◌then◌else◌, Text, text_eq,
  codes, length, arith,
}
use certmonger.Json.Values.{
  Json, Fields, ref, no_items, item, no_fields, field, array, object, null, string, numberl,
  numberd, boolean, json_get, json_n, nth, json_set, c_string, find_last, append_field,
}
use certmonger.Json.Find.{
  json_find, find_from, find_component, component_index, skip_slashes, span_component,
}
use certmonger.Json.Find.Walk.{walk, components, json_find-walk}
use certmonger.Json.Values.Lookup.{json_get-json_set}
use certmonger.Json.Utf.{utf8_to_point, point_to_utf8}
use certmonger.Json.Utf.RoundTrip.{bytes_of, utf8_to_point-point_to_utf8}
use certmonger.Json.Strings.{read, refused, escape, decode_string}
use certmonger.Json.Strings.Supplementary.{supplementary_refused}
use certmonger.Json.Strings.Overread.{decode-cut}
use certmonger.Json.Strings.Written.{IsBasic}
use certmonger.Json.Strings.ReadBack.{place}
use certmonger.Json.Strings.RoundTrip.{body, utf8, decode_string-escape}
use certmonger.Json.Numbers.{print_number, print_digits, read_number, read_digits, is_digit}
use certmonger.Json.Encode.{encode}
use certmonger.Json.Decode.{decoded, bad_access, starved, decode}
use certmonger.Json.RoundTrip.Plain.{reread, IsPlain, IsName}
use certmonger.Json.RoundTrip.Whole.{decode-encode}
use certmonger.Json.Termination.Loop.{decode-halts}

abbrev all_ascii : Text → Bool
all_ascii [] = true
all_ascii (c ∷ cs) = ltb c 128 && all_ascii cs

-- The euro sign, in front of a letter.
utf8_to_point-point_to_utf8_example :
    (out : Text) × ((point_to_utf8 0x20ac 4 ≡ some out)
      × (utf8_to_point (out ++ codes "x") ≡ (pos (length out), 0x20ac)))
utf8_to_point-point_to_utf8_example =
    utf8_to_point-point_to_utf8 0x20ac 4 (codes "x") (inl (omega arith), omega arith) (omega arith)

low-IsBasic : (p : ℕ) → p < 0xd800 → IsBasic p
low-IsBasic p h = ((inl h, omega (arith, h)), omega (arith, h))

-- The ASCII texts are of the basic plane.
ascii-IsBasic : (ps : Text) → all_ascii ps ≡ true → All IsBasic ps
ascii-IsBasic [] h = tt
ascii-IsBasic (p ∷ ps) h = (low-IsBasic p (ground arith), ascii-IsBasic ps (ground arith))

-- A quote, a NUL, a private letter that stands before an escaped one, and a control character.
abbrev letters : List ℕ
letters = 34 ∷ 0 ∷ 0xe123 ∷ 0x20ac ∷ 7 ∷ 65 ∷ []

decode_string-escape_example :
    (out : Text) × ((escape (utf8 letters) ≡ some out)
      × (decode_string (place (length (out ++ codes "]") - 1) (out ++ codes "]"))
          ≡ read (utf8 letters) (codes "]")))
decode_string-escape_example =
    decode_string-escape letters (codes "]")
      (
        low-IsBasic 34 (omega arith),
        (
          low-IsBasic 0 (omega arith),
          (
            ((inr (omega arith), omega arith), omega arith),
            (
              low-IsBasic 0x20ac (omega arith),
              (low-IsBasic 7 (omega arith), (low-IsBasic 65 (omega arith), tt)),
            ),
          ),
        ),
      )
      (omega arith)

-- The digits in front of the point.
abbrev whole_part : Text → ℕ → ℕ
whole_part [] n = n
whole_part (c ∷ cs) n = let all = whole_part cs (10 * n + (c - 48)) in if c == b'.' then n else all

abbrev starts_five : Text → Bool
starts_five [] = false
starts_five (c ∷ cs) = c == b'5'

abbrev has_half : Text → Bool
has_half [] = false
has_half (c ∷ cs) = let later = has_half cs in if c == b'.' then starts_five cs else later

-- A `long double` as its number of halves.
abbrev print_half : ℕ → Text
print_half d =
    print_number (pos (d / 2)) ++ (if d % 2 == 0 then codes ".000000" else codes ".500000")

abbrev read_half : Text → ℕ
read_half t = 2 * whole_part t 0 + (if has_half t then 1 else 0)

abbrev left_null : Text → Option Text
left_null t = none

abbrev certificate : Json ℕ
certificate = object (
    field (codes "serial") (ref (numberl (negsuc 6))) (
      field (codes "names")
        (ref (array (item (ref (string (codes "a\"b"))) (item (ref null) no_items))))
        (field (codes "age") (ref (numberd 7)) (field (codes "ca") (ref (boolean 1)) no_fields))))

ascii-IsName :
    (acc : Fields ℕ) (k : Text)
    → all_ascii k ≡ true
    → k ≡ utf8 k
    → c_string k ≡ k
    → find_last k acc ≡ none
    → IsName acc k
ascii-IsName acc k ascii spelled whole fresh = record {
  points = k;
  basic = ascii-IsBasic k ascii;
  spelled = spelled;
  whole = whole;
  fresh = fresh;
}

certificate-IsPlain : IsPlain print_half read_half certificate
unfolding IsPlain reread print_number print_digits utf8 bytes_of c_string find_last text_eq
    append_field
certificate-IsPlain = (
  ascii-IsName no_fields (codes "serial") refl refl refl refl,
  (
    omega arith,
    (
      ascii-IsName _ (codes "names") refl refl refl refl,
      (
        ((codes "a\"b", (ascii-IsBasic (codes "a\"b") refl, refl)), (tt, tt)),
        (
          ascii-IsName _ (codes "age") refl refl refl refl,
          (
            record { begins = refl; parts = refl; fraction = refl },
            (ascii-IsName _ (codes "ca") refl refl refl refl, (omega arith, tt)),
          ),
        ),
      ),
    ),
  ),
)

decode-encode_example :
    (out : Text) × ((encode print_half left_null certificate ≡ some out)
      × (decode read_half out ≡ decoded (reread print_half read_half certificate) (0 ∷ [])))
decode-encode_example = decode-encode print_half read_half left_null certificate certificate-IsPlain

-- The number of halves comes back.
halves_come_back : reread print_half read_half certificate ≡ certificate
unfolding reread print_number print_digits
halves_come_back = refl

decode-halts_example : decode read_half (codes "[{\"a\":[1,true,") ≢ starved
decode-halts_example = decode-halts read_half (codes "[{\"a\":[1,true,")

abbrev two_fields : Fields ℕ
two_fields = field (codes "a") (ref null) (field (codes "b") (ref (boolean 1)) no_fields)

json_get-json_set_example :
    json_get
      (ref (object (json_set two_fields (codes "b") (ref (numberl (pos 3))))))
      (some (codes "a"))
    ≡ (if text_eq (codes "a") (codes "b")
        then ref (numberl (pos 3))
        else json_get (ref (object two_fields)) (some (codes "a")))
json_get-json_set_example =
    json_get-json_set two_fields (codes "b") (codes "a") (ref (numberl (pos 3)))

supplementary_refused_example :
    (out : Text) × (at : Text) × ((escape (bytes_of 0x1f600) ≡ some out)
      × (decode_string (place (length out) (out ++ (0 ∷ []))) ≡ refused at))
supplementary_refused_example = supplementary_refused 0x1f600 (omega arith, omega arith)

decode-cut_example :
    decode read_half (b'"' ∷ body (codes "a\"") ++ (b'\\' ∷ b'u' ∷ [])) ≡ bad_access
decode-cut_example = decode-cut read_half (codes "a\"") (ascii-IsBasic (codes "a\"") refl)

-- strtol() of a decimal text that begins with a digit or a minus.
abbrev behind_digits : Text → Text
behind_digits [] = []
behind_digits (c ∷ cs) = if is_digit c then behind_digits cs else c ∷ cs

abbrev strtol_10 : Text → ℤ × Text
strtol_10 t = (read_number t, behind_digits t)

abbrev answer : Json ℕ
answer = object (
    field (codes "ids") (ref (array (item (ref null) (item (ref (numberl (pos 7))) no_items))))
      no_fields)

json_find-walk_example :
    json_find strtol_10 (ref answer) (codes "//ids/1/")
    ≡ walk strtol_10 (ref answer) (components (codes "//ids/1/"))
json_find-walk_example = json_find-walk strtol_10 (ref answer) (codes "//ids/1/")

-- The second item is found.
answer_found : json_find strtol_10 (ref answer) (codes "//ids/1/") ≡ ref (numberl (pos 7))
unfolding json_find find_from find_component skip_slashes span_component json_get find_last text_eq
    json_n nth read_number read_digits component_index
answer_found = refl
