-- ===== src/Json/Termination/Strings.antt =====
-- src/json.c: `cm_json_decode_string` stops behind its closing quote.
use Prim.Native.Nat.{zero, suc}
use certmonger.Prelude.{
  ℕ, ◌+◌, ◌-◌, ◌≤◌, Bool, true, false, ◌&&◌, Option, some, none, [], ◌∷◌, if◌then◌else◌, ltb, leb,
  ◌==◌, Text, length, arith,
}
use certmonger.Json.Strings.ReadBack.{place}
use certmonger.Json.Utf.{point_to_utf8_length}
use certmonger.Json.Strings.{
  Reading, read, refused, overread, overrun, hex_value, Place, read_hex, read_low, behind_escape,
  Escaped, read_escape, within, starts_escape, ScanStep, closed, scanned, scan_refused,
  scan_overread, scan_escape, scan_step, scan, leaving, both_passes, decode_string,
}

-- A condition holds of a conditional if it holds of both branches.
pub by_if {ℓ κ} :
    {A : Type ℓ} (P : A → Type κ) (b : Bool) {x y : A} → P x → P y → P (if b then x else y)
by_if P true px py = px
by_if P false px py = py

-- A place in the buffer from which at most `n` bytes are left.
abbrev Near : ℕ → Place → Type 0
Near n p = length p.buffer ≤ n

abbrev NearHex : ℕ → Option (ℕ × Place) → Type 0
NearHex n none = Unit
NearHex n (some (point, p)) = Near n p

pub by_option {ℓ μ κ} :
    {A : Type ℓ} {B : Type μ} (P : B → Type κ) (o : Option A) (x : B) (y : A → B)
    → P x
    → ((a : A) → P (y a))
    → P (elim o [ none ↦ x | some a ↦ y a ])
by_option P none x y px py = px
by_option P (some a) x y px py = py a

by_bool {ℓ κ} :
    {A : Type ℓ} (P : A → Type κ) (b : Bool) (x y : A)
    → P x
    → P y
    → P (elim b [ false ↦ x | true ↦ y ])
by_bool P true x y px py = py
by_bool P false x y px py = px

read_hex-Near :
    (i point n l : ℕ) (t : Text) → length t ≤ n → NearHex n (read_hex i point (place l t))
unfolding read_hex
read_hex-Near zero point n l t h = h
read_hex-Near (suc i) point n l [] h = tt
read_hex-Near (suc i) point n l (c ∷ cs) h =
    by_option (NearHex n) (hex_value c) _ _ h λ v. read_hex-Near i _ n (l - 1) cs (omega arith)

read_low-Near :
    (k i point n l : ℕ) (t : Text) → length t ≤ n → NearHex n (read_low k i point (place l t))
unfolding read_low
read_low-Near zero i point n l t h = h
read_low-Near (suc k) i point n l [] h = by_bool (NearHex n) (ltb (2 + i) l) _ _ h tt
read_low-Near (suc k) i point n l (c ∷ cs) h = by_bool (NearHex n) (ltb (2 + i) l) _ _ h (
    by_option (NearHex n) (hex_value c) _ _ h
      λ v. read_low-Near k (i + 1) _ n (l - 1) cs (omega arith))

abbrev NearEscape : ℕ → Option Escaped → Type 0
NearEscape n none = Unit
NearEscape n (some e) = Near n e.place

length-behind_escape : (l : ℕ) (t : Text) → length (behind_escape (place l t)).buffer ≤ length t
length-behind_escape l [] = omega arith
length-behind_escape l (c ∷ []) = omega arith
length-behind_escape l (c ∷ d ∷ cs) = omega arith

by_hex :
    (n : ℕ) (o : Option (ℕ × Place)) (y : ℕ × Place → Option Escaped)
    → NearHex n o
    → ((r : ℕ × Place) → Near n r.1 → NearEscape n (y r))
    → NearEscape n (elim o [ none ↦ none | some r ↦ y r ])
by_hex n none y h next = tt
by_hex n (some r) y h next = next r h

read_escape-Near :
    (bound n l : ℕ) (saved t : Text)
    → length t ≤ n
    → NearEscape n (read_escape bound saved (place l t))
unfolding read_escape
read_escape-Near bound n l saved t h =
    by_hex n (read_hex 4 0 (place l t)) _ (read_hex-Near 4 0 n l t h) λ r near.
      by_bool (NearEscape n)
        (leb 0xd800 r.0 && (ltb r.0 bound && (ltb 2 r.1.left && starts_escape r.1.buffer))) _ _ near
        (by_hex n (read_low 4 0 0 (behind_escape r.1)) _
          (read_low-Near 4 0 0 n (behind_escape r.1).left (behind_escape r.1).buffer
            (omega (arith, near, length-behind_escape r.1.left r.1.buffer)))
          λ q close.
            by_bool (NearEscape n) (within 0xd800 0xdbff r.0 && within 0xdc00 0xdcff q.0) _ _ near
              close)

abbrev NearScan : ℕ → ScanStep → Type 0
NearScan n (scanned i q) = Near n q
NearScan n _ = Unit

scan_escape-Near :
    (n : ℕ) (saved : Text) (o : Option Escaped) → NearEscape n o → NearScan n (scan_escape saved o)
unfolding scan_escape
scan_escape-Near n saved none h = tt
scan_escape-Near n saved (some e) h =
    by_option (NearScan n) (point_to_utf8_length e.point) _ _ tt λ i. h

scan_step-Near : (n l : ℕ) (t : Text) → length t ≤ n → NearScan n (scan_step (place l t))
unfolding scan_step
scan_step-Near n l [] h = tt
scan_step-Near n l (c ∷ []) h =
    by_if (NearScan n) (c == b'"') tt (by_if (NearScan n) (c == b'\\') tt (omega arith))
scan_step-Near n l (c ∷ d ∷ t) h = by_if (NearScan n) (c == b'"') tt (
    by_if (NearScan n) (c == b'\\')
      (by_if (NearScan n) (d == b'u')
        (scan_escape-Near n (c ∷ d ∷ t) _
          (read_escape-Near 0xdc000 n (l - 2) (c ∷ d ∷ t) t (omega arith)))
        (omega arith))
      (omega arith))

-- What is read leaves at most `n` bytes of the buffer.
abbrev pub NearReading {ℓ} : {A : Type ℓ} → ℕ → Reading A → Type 0
NearReading n (read a t) = length t ≤ n
NearReading n _ = Unit

by_scan :
    (n : ℕ) (s : ScanStep) (x : Reading (ℕ × Place)) (y : ℕ → Place → Reading (ℕ × Place))
    → NearScan n s
    → NearReading n x
    → ((i : ℕ) (q : Place) → Near n q → NearReading n (y i q))
    → NearReading n (elim s [
      | closed ↦ x
      | scanned i q ↦ y i q
      | scan_refused t ↦ refused t
      | scan_overread ↦ overread
    ])
by_scan n closed x y h here on = here
by_scan n (scanned i q) x y h here on = on i q h
by_scan n (scan_refused t) x y h here on = tt
by_scan n scan_overread x y h here on = tt

scan-Near : (f unesc n l : ℕ) (t : Text) → length t ≤ n → NearReading n (scan f unesc (place l t))
unfolding scan
scan-Near zero unesc n l t h = tt
scan-Near (suc f) unesc n zero t h = tt
scan-Near (suc f) unesc n (suc l) t h =
    by_scan n (scan_step (place (suc l) t)) _ _ (scan_step-Near n (suc l) t h) h
      λ i q near. scan-Near f (unesc + i) n q.left q.buffer near

leaving-Near :
    (n : ℕ) (next : Text) (r : Reading Text) → length next ≤ n → NearReading n (leaving next r)
leaving-Near n next (read t rest) h = h
leaving-Near n next (refused t) h = tt
leaving-Near n next overread h = tt
leaving-Near n next overrun h = tt

length-behind : (n : ℕ) (at : Text) → length at ≤ n → length (elim at [ [] ↦ [] | c ∷ cs ↦ cs ]) ≤ n
length-behind n [] h = h
length-behind n (c ∷ cs) h = omega arith

by_reading :
    (n : ℕ) (o : Reading (ℕ × Place)) (y : ℕ × Place → Text → Reading Text)
    → NearReading n o
    → ((a : ℕ × Place) (t : Text) → length t ≤ n → NearReading n (y a t))
    → NearReading n (elim o [
      | read a t ↦ y a t
      | refused t ↦ refused t
      | overread ↦ overread
      | overrun ↦ overrun
    ])
by_reading n (read a t) y h on = on a t h
by_reading n (refused t) y h on = tt
by_reading n overread y h on = tt
by_reading n overrun y h on = tt

both_passes-Near : (n l : ℕ) (t : Text) → length t ≤ n → NearReading n (both_passes (place l t))
unfolding both_passes
both_passes-Near n l t h =
    by_reading n (scan (l + 1) 0 (place l t)) _ (scan-Near (l + 1) 0 n l t h)
      λ a at near. leaving-Near n _ _ (length-behind n at near)

-- What a string leaves of the buffer is shorter than the buffer.
pub decode_string-Near :
    (l : ℕ) (c : ℕ) (cs : Text) → NearReading (length cs) (decode_string (place l (c ∷ cs)))
unfolding decode_string
decode_string-Near l c cs =
    by_if (NearReading (length cs)) (c == b'"')
      (both_passes-Near (length cs) (l - 1) cs (omega arith)) tt
