-- ===== src/Json/Strings/RoundTrip.antt =====
-- src/json.c: a text that `cm_json_escape` writes is read by `cm_json_decode_string`.
use Prim.Native.Nat.{zero, suc}
use certmonger.Prelude.{
  ℕ, ◌+◌, ◌-◌, ◌<◌, ◌≤◌, ◌≡◌, refl, ap, sym, subst, ◌∙◌, some, List, [], ◌∷◌, ◌++◌, Text, All,
  length, arith,
}
use certmonger.Json.Utf.RoundTrip.{bytes_of}
use certmonger.Json.Strings.{
  escape_from, escape, read, scan, scan_step, scanned, closed, write, both_passes, decode_string,
}
use certmonger.Json.Strings.Written.{IsBasic, written, escape_from-bytes_of}
use certmonger.Json.Strings.ReadBack.{
  place, scan_step-written, write_step-written, written-nonempty,
}

-- The UTF-8 of a list of code points, and what is written of it between the quotes.
unfoldable pub utf8 : List ℕ → Text
utf8 [] = []
utf8 (p ∷ ps) = bytes_of p ++ utf8 ps

unfoldable pub body : List ℕ → Text
body [] = []
body (p ∷ ps) = written p ++ body ps

pub ++-assoc : (xs ys zs : Text) → (xs ++ ys) ++ zs ≡ xs ++ (ys ++ zs)
++-assoc [] ys zs = refl
++-assoc (x ∷ xs) ys zs = ap (λ t. x ∷ t) (++-assoc xs ys zs)

++-nil : (xs : Text) → xs ++ [] ≡ xs
++-nil [] = refl
++-nil (x ∷ xs) = ap (λ t. x ∷ t) (++-nil xs)

pub length-++ : (xs ys : Text) → length (xs ++ ys) ≡ length xs + length ys
length-++ [] ys = omega arith
length-++ (x ∷ xs) ys = ground (arith, length-++ xs ys)

bytes_of-nonempty : (p : ℕ) → 0 < length (bytes_of p)
unfolding bytes_of
bytes_of-nonempty p = ground arith

escape_from-utf8 :
    (f : ℕ) (ps : List ℕ)
    → All IsBasic ps
    → length ps ≤ f
    → escape_from f (utf8 ps) ≡ some (body ps)
unfolding utf8 body escape_from
escape_from-utf8 f [] all room = refl
escape_from-utf8 zero (p ∷ ps) all room = absurd (omega arith)
escape_from-utf8 (suc f) (p ∷ ps) all room =
    rw (escape_from-bytes_of f p (utf8 ps) all.0, escape_from-utf8 f ps all.1 (omega arith)) refl

length-utf8 : (ps : List ℕ) → length ps ≤ length (utf8 ps)
unfolding utf8
length-utf8 [] = omega arith
length-utf8 (p ∷ ps) =
    omega (arith, length-++ (bytes_of p) (utf8 ps), bytes_of-nonempty p, length-utf8 ps)

pub escape-utf8 :
    (ps : List ℕ) → All IsBasic ps → escape (utf8 ps) ≡ some (b'"' ∷ body ps ++ (b'"' ∷ []))
unfolding escape
escape-utf8 ps all = rw (escape, escape_from-utf8 (length (utf8 ps)) ps all (length-utf8 ps)) refl

scan_step-quote : (n : ℕ) (rest : Text) → scan_step (place n (b'"' ∷ rest)) ≡ closed
unfolding scan_step
scan_step-quote n rest = refl

-- The first pass stops at the quote behind the text.
scan-body :
    (f unesc n : ℕ) (ps : List ℕ) (rest : Text)
    → All IsBasic ps
    → n < f
    → length (body ps) < n
    → n < length (body ps) + suc (length rest)
    → scan f unesc (place n (body ps ++ (b'"' ∷ rest)))
      ≡ read (unesc + length (utf8 ps), place (n - length (body ps)) (b'"' ∷ rest)) (b'"' ∷ rest)
unfolding scan utf8 body
scan-body zero unesc n ps rest all enough lo hi = absurd (omega arith)
scan-body (suc f) unesc zero ps rest all enough lo hi = absurd (omega arith)
scan-body (suc f) unesc (suc n) [] rest all enough lo hi =
    rw (scan, scan_step-quote (suc n) rest) (ground arith)
scan-body (suc f) unesc (suc n) (p ∷ ps) rest all enough lo hi =
    let quote = b'"' ∷ rest in
    let tail = body ps ++ quote in
    let w = length (written p) in
    let size = length-++ (written p) (body ps) in
    let behind = length-++ (body ps) quote in
    let step : scan_step (place (suc n) (written p ++ tail))
        ≡ scanned (length (bytes_of p)) (place (suc n - w) tail) =
      scan_step-written p (suc n) tail all.0
        (ground (arith, size, behind, length-++ (written p) tail)) in
    let ih =
      scan-body f (unesc + length (bytes_of p)) (suc n - w) ps rest all.1
        (ground (arith, written-nonempty p)) (ground (arith, size)) (ground (arith, size)) in
    rw (++-assoc (written p) (body ps) quote, scan, step)
      (ih ∙ ground (arith, size, length-++ (bytes_of p) (utf8 ps)))

write-body :
    (f room n : ℕ) (ps : List ℕ) (rest : Text)
    → All IsBasic ps
    → n < f
    → n ≡ length (body ps)
    → length (utf8 ps) < room
    → 0 < length rest
    → write f room (place n (body ps ++ rest)) ≡ read (utf8 ps) rest
unfolding write utf8 body
write-body zero room n ps rest all enough exact fits more = absurd (omega arith)
write-body (suc f) zero n ps rest all enough exact fits more = absurd (omega arith)
write-body (suc f) (suc room) zero [] rest all enough exact fits more = refl
write-body (suc f) (suc room) (suc n) [] rest all enough exact fits more = absurd (omega arith)
write-body (suc f) (suc room) zero (p ∷ ps) rest all enough exact fits more =
    absurd (omega (arith, length-++ (written p) (body ps), written-nonempty p))
write-body (suc f) (suc room) (suc n) (p ∷ ps) rest all enough exact fits more =
    let tail = body ps ++ rest in
    let size = length-++ (written p) (body ps) in
    let bytes = length-++ (bytes_of p) (utf8 ps) in
    let step =
      write_step-written p (suc room) (suc n) tail all.0 (ground (arith, bytes))
        (ground (arith, size, length-++ (written p) tail, length-++ (body ps) rest)) in
    let ih =
      write-body f (suc room - length (bytes_of p)) (suc n - length (written p)) ps rest all.1
        (ground (arith, written-nonempty p)) (ground (arith, size)) (ground (arith, bytes)) more in
    rw (++-assoc (written p) (body ps) rest, write, step, ih) refl

-- Behind the opening quote, both passes read the text.
both_passes-body :
    (n : ℕ) (ps : List ℕ) (rest : Text)
    → All IsBasic ps
    → length (body ps) < n
    → n < length (body ps) + suc (length rest)
    → both_passes (place n (body ps ++ (b'"' ∷ rest))) ≡ read (utf8 ps) rest
unfolding both_passes
both_passes-body n ps rest all lo hi =
    let quote = b'"' ∷ rest in
    let content : n - (n - length (body ps)) ≡ length (body ps) = omega arith in
    let pass1 = scan-body (n + 1) 0 n ps rest all (omega arith) lo hi in
    let pass2 =
      write-body (length (body ps) + 1) (0 + length (utf8 ps) + 1) (length (body ps)) ps quote all
        (omega arith) refl (omega arith) (omega arith) in
    rw (both_passes, pass1, content, pass2) refl

-- `cm_json_decode_string` reads a text of the basic plane back from what `cm_json_escape` writes of it,
-- and goes on behind the closing quote.
pub decode_string-body :
    (n : ℕ) (ps : List ℕ) (rest : Text)
    → All IsBasic ps
    → length (body ps) + 1 < n
    → n < length (body ps) + suc (suc (length rest))
    → decode_string (place n (b'"' ∷ body ps ++ (b'"' ∷ rest))) ≡ read (utf8 ps) rest
unfolding decode_string
decode_string-body n ps rest all lo hi =
    both_passes-body (n - 1) ps rest all (omega arith) (omega arith)

-- A string in its quotes.
pub decode_string-quoted :
    (ps : List ℕ) (rest : Text)
    → All IsBasic ps
    → 0 < length rest
    → let p = b'"' ∷ (body ps ++ (b'"' ∷ [])) ++ rest in
      decode_string (record { left = length p - 1; buffer = p }) ≡ read (utf8 ps) rest
decode_string-quoted ps rest all more =
    subst
      (λ t.
        decode_string (record { left = length (b'"' ∷ t) - 1; buffer = b'"' ∷ t })
        ≡ read (utf8 ps) rest)
      (sym (++-assoc (body ps) (b'"' ∷ []) rest))
      (decode_string-body _ ps rest all (ground (arith, length-++ (body ps) (b'"' ∷ rest)))
        (ground (arith, length-++ (body ps) (b'"' ∷ rest))))

-- What `cm_json_escape` writes of a text of the basic plane is read back by `cm_json_decode_string` as
-- that text, up to the bytes behind the closing quote, of which there is at least one.
pub decode_string-escape :
    (ps : List ℕ) (rest : Text)
    → All IsBasic ps
    → 0 < length rest
    → (out : Text) × ((escape (utf8 ps) ≡ some out)
        × (decode_string (place (length (out ++ rest) - 1) (out ++ rest)) ≡ read (utf8 ps) rest))
decode_string-escape ps rest all more =
    (_, (escape-utf8 ps all, decode_string-quoted ps rest all more))
