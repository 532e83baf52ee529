-- ===== src/Json/Strings/ReadBack.antt =====
-- src/json.c: how `cm_json_decode_string` reads what `cm_json_escape` writes of one code point.
use Prim.Native.Nat.{zero, suc}
use certmonger.Prelude.{
  ℕ, ◌+◌, ◌-◌, ◌*◌, ◌/◌, ◌%◌, ◌<◌, ◌≤◌, ◌≡◌, refl, ap, ◌∙◌, inl, inr, true, false, ◌&&◌, Option,
  none, some, [], ◌∷◌, ◌++◌, if◌then◌else◌, ltb, leb, ◌==◌, Text, length, arith, Bool-cases,
  is_some,
}
use certmonger.Json.Utf.RoundTrip.{bytes_of, length-bytes_of, point_to_utf8-bytes_of}
use certmonger.Json.Strings.{
  hex_digits, hex_value, read_low, Place, Escaped, read_escape, scanned, scan_escape, scan_step,
  wrote, write_escape, write_byte, write_step, within, starts_escape, behind_escape,
}
use certmonger.Json.Strings.Written.{
  IsBasic, written, read_hex-hex_digits, Shape, shape_letter, shape_plain, shape_digits,
  point-Shape,
}

abbrev pub place : ℕ → Text → Place
place n t = record { left = n; buffer = t }

-- The loop over the second half of a pair stays in the buffer.
read_low-total :
    (k i point n : ℕ) (t : Text) → n < length t → is_some (read_low k i point (place n t)) ≡ true
unfolding read_low
read_low-total zero i point n t h = refl
read_low-total (suc k) i point n [] h = absurd (omega arith)
read_low-total (suc k) i point n (c ∷ cs) h = elim (Bool-cases (ltb (2 + i) n)) [
  | inr b ↦ rw (read_low, b) refl
  | inl b ↦
      rw (read_low, b)
        (digit (λ q. read_low-total k (i + 1) q (n - 1) cs (ground arith)) (hex_value c))
]
  where
    digit :
        ((q : ℕ) → is_some (read_low k (i + 1) q (place (n - 1) cs)) ≡ true)
        → (v : Option ℕ)
        → is_some {A = ℕ × Place} (elim v [
          | none ↦ some (point, place n (c ∷ cs))
          | some w ↦
              read_low k
                (i + 1)
                (if w == 16 then (point / 2 * 2 + 1) * 16 else point * 16 + w)
                (place (n - 1) cs)
        ])
          ≡ true
    digit more none = refl
    digit more (some v) = more _

abbrev Reads : ℕ → Place → Option Escaped → Type 0
Reads p q o = (at : Text) × (o ≡ some (record { point = p; place = q; saved = at }))

-- What looks like the second half of a pair is left alone behind a character of its own.
no_pair :
    (p m : ℕ) (at rest : Text)
    → IsBasic p
    → (o : Option (ℕ × Place)) → is_some o ≡ true
    → Reads p (place m rest) (elim o [
      | none ↦ none
      | some (point2, r) ↦ elim (within 0xd800 0xdbff p && within 0xdc00 0xdcff point2) [
        | true ↦
            some
              (record { point = p % 1024 * 1024 + point2 % 1024 + 0x10000; place = r; saved = at })
        | false ↦ some (record { point = p; place = place m rest; saved = at })
      ]
    ])
no_pair p m at rest h none e = absurd (ground (arith, e))
no_pair p m at rest h (some (point2, r)) e =
    let single : (within 0xd800 0xdbff p && within 0xdc00 0xdcff point2) ≡ false = ground arith in
    (rw single ((at, refl)))

behind_escape-total :
    (m : ℕ) (rest : Text)
    → ltb 2 m ≡ true
    → starts_escape rest ≡ true
    → m < length rest
    → is_some (read_low 4 0 0 (behind_escape (place m rest))) ≡ true
behind_escape-total m [] h s lt = absurd (ground (arith, s))
behind_escape-total m (c ∷ []) h s lt = absurd (ground (arith, s))
behind_escape-total m (c ∷ d ∷ cs) h s lt = read_low-total 4 0 0 (m - 2) cs (ground arith)

-- Four digits behind `u` are read as the code point they write, which is no half of a pair.
read_escape-hex_digits :
    (bound p n : ℕ) (saved rest : Text)
    → IsBasic p
    → n < 4 + length rest
    → Reads p (place (n - 4) rest) (read_escape bound saved (place n (hex_digits 4 p [] ++ rest)))
unfolding read_escape
read_escape-hex_digits bound p n saved rest h room =
    elim (Bool-cases (leb 0xd800 p && (ltb p bound && (ltb 2 (n - 4) && starts_escape rest)))) [
      | inr b ↦ rw (read_escape, read_hex-hex_digits p n rest h.1, b) ((saved, refl))
      | inl b ↦
          rw (read_escape, read_hex-hex_digits p n rest h.1, b)
            (no_pair p (n - 4) rest rest h (read_low 4 0 0 (behind_escape (place (n - 4) rest)))
              (behind_escape-total (n - 4) rest (ground arith) (ground arith) (ground arith)))
    ]

length-bytes_of_ascii : (p : ℕ) → p < 128 → bytes_of p ≡ p ∷ []
unfolding bytes_of
length-bytes_of_ascii p h = ground arith

scan_escape-Reads :
    (p : ℕ) (q : Place) (saved : Text) (o : Option Escaped)
    → IsBasic p
    → Reads p q o
    → scan_escape saved o ≡ scanned (length (bytes_of p)) q
unfolding scan_escape
scan_escape-Reads p q saved o h (at, e) = rw (e, scan_escape, length-bytes_of p h.0) refl

-- The first pass counts the bytes of a written character and goes on behind it.
pub scan_step-written :
    (p n : ℕ) (rest : Text)
    → IsBasic p
    → n < length (written p ++ rest)
    → scan_step (place n (written p ++ rest))
      ≡ scanned (length (bytes_of p)) (place (n - length (written p)) rest)
unfolding scan_step hex_digits
scan_step-written p n rest h room = by_shape (point-Shape p) room
  where
    by_shape :
        {w : Text}
        → Shape p w
        → n < length (w ++ rest)
        → scan_step (place n (w ++ rest))
          ≡ scanned (length (bytes_of p)) (place (n - length w) rest)
    by_shape (shape_letter l e u lt) room = rw (scan_step, e, length-bytes_of_ascii p lt) refl
    by_shape (shape_plain lt q b) room = rw (scan_step, q, b, length-bytes_of_ascii p lt) refl
    by_shape shape_digits room =
        let saved = b'\\' ∷ b'u' ∷ hex_digits 4 p [] ++ rest in
        scan_escape-Reads p (place (n - 2 - 4) rest) saved
          (read_escape 0xdc000 saved (place (n - 2) (hex_digits 4 p [] ++ rest))) h
          (read_escape-hex_digits 0xdc000 p (n - 2) saved rest h (ground arith))
        ∙ ap (λ m. scanned (length (bytes_of p)) (place m rest)) (omega arith)

write_escape-Reads :
    (p room : ℕ) (q : Place) (o : Option Escaped)
    → IsBasic p
    → length (bytes_of p) ≤ room
    → Reads p q o
    → write_escape room o ≡ wrote (bytes_of p) q
unfolding write_escape
write_escape-Reads p room q o h fits (at, e) =
    rw (e, write_escape, point_to_utf8-bytes_of p room h.0 fits) refl

write_byte-ascii :
    (p room : ℕ) (q : Place)
    → p < 128
    → length (bytes_of p) ≤ room
    → write_byte room p q ≡ wrote (bytes_of p) q
unfolding write_byte
write_byte-ascii p zero q lt fits = absurd (ground (arith, length-bytes_of_ascii p lt))
write_byte-ascii p (suc room) q lt fits = rw (length-bytes_of_ascii p lt) refl

-- The second pass writes the bytes of a written character and goes on behind it.
pub write_step-written :
    (p room n : ℕ) (rest : Text)
    → IsBasic p
    → length (bytes_of p) ≤ room
    → n < length (written p ++ rest)
    → write_step room (place n (written p ++ rest))
      ≡ wrote (bytes_of p) (place (n - length (written p)) rest)
unfolding write_step hex_digits
write_step-written p room n rest h fits inside = by_shape (point-Shape p) inside
  where
    by_shape :
        {w : Text}
        → Shape p w
        → n < length (w ++ rest)
        → write_step room (place n (w ++ rest)) ≡ wrote (bytes_of p) (place (n - length w) rest)
    by_shape (shape_letter l e u lt) inside =
        rw (write_step, e, u) (write_byte-ascii p room _ lt fits)
    by_shape (shape_plain lt q b) inside = rw (write_step, b) (write_byte-ascii p room _ lt fits)
    by_shape shape_digits inside =
        let saved = b'\\' ∷ b'u' ∷ hex_digits 4 p [] ++ rest in
        write_escape-Reads p room (place (n - 2 - 4) rest)
          (read_escape 0xdc00 saved (place (n - 2) (hex_digits 4 p [] ++ rest))) h fits
          (read_escape-hex_digits 0xdc00 p (n - 2) saved rest h (ground arith))
        ∙ ap (λ m. wrote (bytes_of p) (place m rest)) (omega arith)

pub written-nonempty : (p : ℕ) → 0 < length (written p)
written-nonempty p = by_shape (point-Shape p)
  where
    by_shape : {w : Text} → Shape p w → 0 < length w
    by_shape (shape_letter l e u lt) = omega arith
    by_shape (shape_plain lt q b) = omega arith
    by_shape shape_digits = omega arith
