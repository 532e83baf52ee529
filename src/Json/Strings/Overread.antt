-- ===== src/Json/Strings/Overread.antt =====
-- src/json.c: `cm_json_decode` at an escape that the end of the buffer cuts off.
use Prim.Native.Nat.{zero, suc}
use certmonger.Prelude.{
  ℕ, ◌+◌, ◌-◌, ◌*◌, ◌<◌, ◌≡◌, refl, ap, ◌∙◌, List, [], ◌∷◌, ◌++◌, Text, All, length, arith,
}
use certmonger.Json.Utf.RoundTrip.{bytes_of}
use certmonger.Json.Strings.{
  overread, hex_value, read_hex, read_escape, scan_escape, scanned, scan_overread, scan_step, scan,
  both_passes, decode_string,
}
use certmonger.Json.Strings.Written.{IsBasic, written}
use certmonger.Json.Strings.ReadBack.{place, scan_step-written, written-nonempty}
use certmonger.Json.Strings.RoundTrip.{body, ++-assoc, length-++}
use certmonger.Json.Decode.{decode, bad_access, broken, loop, initial, action, on_quote}
use certmonger.Json.RoundTrip.Loop.{loop-action}

abbrev cut : Text
cut = b'\\' ∷ b'u' ∷ 0 ∷ []

scan_step-cut : (n : ℕ) → scan_step (place n cut) ≡ scan_overread
unfolding scan_step scan_escape read_escape read_hex hex_value
scan_step-cut n = refl

-- The first pass comes to the escape and goes behind the NUL.
scan-cut :
    (f unesc n : ℕ) (ps : List ℕ)
    → All IsBasic ps
    → n < f
    → n ≡ length (body ps) + 2
    → scan f unesc (place n (body ps ++ cut)) ≡ overread
unfolding scan body
scan-cut zero unesc n ps all enough exact = absurd (omega arith)
scan-cut (suc f) unesc zero ps all enough exact = absurd (omega arith)
scan-cut (suc f) unesc (suc n) [] all enough exact = rw (scan, scan_step-cut (suc n)) refl
scan-cut (suc f) unesc (suc n) (p ∷ ps) all enough exact =
    let tail = body ps ++ cut in
    let size = length-++ (written p) (body ps) in
    let step : scan_step (place (suc n) (written p ++ tail))
        ≡ scanned (length (bytes_of p)) (place (suc n - length (written p)) tail) =
      scan_step-written p (suc n) tail all.0
        (ground (arith, size, length-++ (written p) tail, length-++ (body ps) cut)) in
    rw (++-assoc (written p) (body ps) cut, scan, step)
      (scan-cut f (unesc + length (bytes_of p)) (suc n - length (written p)) ps all.1
        (ground (arith, written-nonempty p)) (ground (arith, size)))

decode_string-cut :
    (n : ℕ) (ps : List ℕ)
    → All IsBasic ps
    → n ≡ length (body ps) + 3
    → decode_string (place n (b'"' ∷ body ps ++ cut)) ≡ overread
unfolding decode_string both_passes
decode_string-cut n ps all exact =
    let pass = scan-cut (n - 1 + 1) 0 (n - 1) ps all (omega arith) (omega arith) in
    rw (both_passes, pass) refl

loop-cut :
    {D : Type 0} (read_d : Text → D) (f : ℕ) (ps : List ℕ)
    → All IsBasic ps
    → loop read_d (suc f) initial (b'"' ∷ body ps ++ cut) ≡ bad_access
unfolding action on_quote
loop-cut read_d f ps all =
    let size = length-++ (body ps) cut in
    let overreads =
      decode_string-cut (length (b'"' ∷ body ps ++ cut) - 1) ps all (omega (arith, size)) in
    loop-action read_d f initial b'"' (body ps ++ cut) broken (omega (arith, size))
      (rw (on_quote, overreads) refl)

-- `cm_json_decode` reads behind the end of its buffer if a string of characters of the basic plane is cut
-- off behind the `\u` of an escape.
pub decode-cut :
    {D : Type 0} (read_d : Text → D) (ps : List ℕ)
    → All IsBasic ps
    → decode read_d (b'"' ∷ body ps ++ (b'\\' ∷ b'u' ∷ [])) ≡ bad_access
unfolding decode
decode-cut read_d ps all =
    let t = b'"' ∷ body ps ++ (b'\\' ∷ b'u' ∷ []) in
    let fuel : 2 * length t + 2 ≡ suc (2 * length t + 1) = omega arith in
    ap (λ f. loop read_d f initial (t ++ (0 ∷ []))) fuel
    ∙ (ap (λ u. loop read_d (suc (2 * length t + 1)) initial (b'"' ∷ u))
          (++-assoc (body ps) (b'\\' ∷ b'u' ∷ []) (0 ∷ []))
        ∙ loop-cut read_d (2 * length t + 1) ps all)
