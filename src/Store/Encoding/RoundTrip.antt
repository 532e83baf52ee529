-- ===== src/Store/Encoding/RoundTrip.antt =====
-- src/store-gen.c: bytes that are written as digits are read back.
use Prim.Native.Nat.{zero, suc}
use certmonger.Prelude.{
  ℕ, ◌+◌, ◌-◌, ◌*◌, ◌/◌, ◌%◌, ◌<◌, ◌≤◌, ◌≡◌, refl, ap, ◌∙◌, false, ◌||◌, some, [], ◌∷◌, ◌++◌,
  if◌then◌else◌, ◌==◌, Text, All, length, arith,
}
use certmonger.Store.Encoding.{
  hex_char, hex_place, hex_from_bin, hex_to_bin, base64_char, base64_place, base64_digit,
  base64_from_bin, base64_last, fitting, base64_loop, base64_to_bin, base64_as_bin, base64_from_hex,
}

abbrev pub IsByte : ℕ → Type 0
IsByte b = b < 256

hex_place-hex_char : (n : ℕ) → n < 16 → hex_place (hex_char n) ≡ n
hex_place-hex_char n h = ground arith

-- Bytes that are written as hexadecimal digits are read back as they were where they have room.
pub hex_to_bin-hex_from_bin :
    (bs : Text) (room : ℕ)
    → All IsByte bs
    → length bs ≤ room
    → hex_to_bin (hex_from_bin bs) room ≡ bs
unfolding hex_to_bin hex_from_bin
hex_to_bin-hex_from_bin [] room all fits = refl
hex_to_bin-hex_from_bin (b ∷ bs) zero all fits = absurd (omega arith)
hex_to_bin-hex_from_bin (b ∷ bs) (suc room) all fits =
    rw
      (
        hex_place-hex_char (b / 16 % 16) (omega arith),
        hex_place-hex_char (b % 16) (omega arith),
        hex_to_bin-hex_from_bin bs room all.1 (omega arith),
      )
      (ap (λ x. x ∷ bs) (omega arith))

base64_place-base64_char : (n : ℕ) → n < 64 → base64_place (base64_char n) ≡ some n
unfolding base64_place
base64_place-base64_char n h = ground arith

goes_on : (n room : ℕ) → (base64_char n == 0 || (base64_char n == b'=' || suc room == 0)) ≡ false
goes_on n room = ground arith

-- A digit that does not complete a group of four.
base64_loop-digit :
    (insize v count u room : ℕ) (cs : Text)
    → v < 64
    → (count == 3) ≡ false
    → base64_loop (suc insize) (base64_char v ∷ cs) count u (suc room)
      ≡ base64_loop insize cs (count + 1) (if count == 0 then v else u * 64 + v) (suc room)
unfolding base64_loop
base64_loop-digit insize v count u room cs h c =
    rw (base64_loop, goes_on v room, base64_place-base64_char v h, c) refl

base64_loop-last :
    (insize v u room : ℕ) (cs : Text)
    → v < 64
    → base64_loop (suc insize) (base64_char v ∷ cs) 3 u (suc room)
      ≡ fitting
          (suc room)
          (((u * 64 + v) / 65536 % 256) ∷ ((u * 64 + v) / 256 % 256) ∷ ((u * 64 + v) % 256) ∷ [])
        ++ base64_loop insize cs 0 0 (suc room - 3)
unfolding base64_loop
base64_loop-last insize v u room cs h =
    rw (base64_loop, goes_on v room, base64_place-base64_char v h) refl

base64_loop-end :
    (insize count u room : ℕ) (cs : Text)
    → base64_loop insize (b'=' ∷ cs) count u room ≡ base64_last count u room
unfolding base64_loop
base64_loop-end zero count u room cs = refl
base64_loop-end (suc insize) count u room cs = refl

fitting_none : (room : ℕ) → fitting room [] ≡ []
unfolding fitting
fitting_none zero = refl
fitting_none (suc room) = refl

fitting_one : (room n b : ℕ) → n ≡ suc room → fitting n (b ∷ []) ≡ b ∷ []
unfolding fitting
fitting_one room n b e = ap (λ m. fitting m (b ∷ [])) e ∙ ap (λ t. b ∷ t) (fitting_none room)

fitting_all :
    (room : ℕ) (a b c : ℕ) → 2 ≤ room → fitting (suc room) (a ∷ b ∷ c ∷ []) ≡ a ∷ b ∷ c ∷ []
unfolding fitting
fitting_all zero a b c h = absurd (omega arith)
fitting_all (suc zero) a b c h = absurd (omega arith)
fitting_all (suc (suc room)) a b c h = ap (λ t. a ∷ b ∷ c ∷ t) (fitting_none room)

-- The first two digits of a group.
two_digits :
    (insize acc room : ℕ) (cs : Text)
    → base64_loop
        (suc (suc insize))
        (base64_digit acc 262144 ∷ base64_digit acc 4096 ∷ cs)
        0
        0
        (suc room)
      ≡ base64_loop insize cs 2 (acc / 262144 % 64 * 64 + acc / 4096 % 64) (suc room)
two_digits insize acc room cs =
    base64_loop-digit (suc insize) (acc / 262144 % 64) 0 0 room _ (omega arith) refl
    ∙ base64_loop-digit insize (acc / 4096 % 64) 1 _ room cs (omega arith) refl

three_digits :
    (insize acc room : ℕ) (cs : Text)
    → base64_loop
        (suc (suc (suc insize)))
        (base64_digit acc 262144 ∷ base64_digit acc 4096 ∷ base64_digit acc 64 ∷ cs)
        0
        0
        (suc room)
      ≡ base64_loop insize cs 3
          ((acc / 262144 % 64 * 64 + acc / 4096 % 64) * 64 + acc / 64 % 64)
          (suc room)
three_digits insize acc room cs =
    two_digits (suc insize) acc room _
    ∙ base64_loop-digit insize (acc / 64 % 64) 2 _ room cs (omega arith) refl

-- A group of four digits is read as three bytes.
four_digits :
    (insize acc room : ℕ) (cs : Text)
    → acc < 16777216
    → 2 ≤ room
    → base64_loop
        (suc (suc (suc (suc insize))))
        (base64_digit acc 262144
          ∷ base64_digit acc 4096
          ∷ base64_digit acc 64
          ∷ base64_digit acc 1
          ∷ cs)
        0
        0
        (suc room)
      ≡ (acc / 65536 % 256)
        ∷ (acc / 256 % 256)
        ∷ (acc % 256)
        ∷ base64_loop insize cs 0 0 (suc room - 3)
four_digits insize acc room cs small fits =
    let u = (acc / 262144 % 64 * 64 + acc / 4096 % 64) * 64 + acc / 64 % 64 in
    let whole : u * 64 + acc / 1 % 64 ≡ acc = omega arith in
    let rest = base64_loop insize cs 0 0 (suc room - 3) in
    three_digits (suc insize) acc room _
    ∙ (base64_loop-last insize (acc / 1 % 64) u room cs (omega arith)
        ∙ (ap
              (λ w.
                fitting (suc room) ((w / 65536 % 256) ∷ (w / 256 % 256) ∷ (w % 256) ∷ []) ++ rest)
              whole
            ∙ ap (λ t. t ++ rest) (fitting_all room _ _ _ fits)))

last_two :
    (u a b room : ℕ)
    → u * 64 / 65536 % 256 ≡ a
    → u * 64 / 256 % 256 ≡ b
    → base64_last 3 u (suc (suc room)) ≡ a ∷ b ∷ []
last_two u a b room ea eb =
    ap (λ t. (u * 64 / 65536 % 256) ∷ t) (fitting_one room _ _ (omega arith))
    ∙ (ap (λ x. x ∷ (u * 64 / 256 % 256) ∷ []) ea ∙ ap (λ x. a ∷ x ∷ []) eb)

three_bytes :
    (a b c : ℕ) (t : Text)
    → a < 256
    → b < 256
    → c < 256
    → let acc = a * 65536 + b * 256 + c in
      (acc / 65536 % 256) ∷ (acc / 256 % 256) ∷ (acc % 256) ∷ t ≡ a ∷ b ∷ c ∷ t
three_bytes a b c t ha hb hc = ground arith

-- Bytes that are written in base64 are read back as they were where they have room.
pub base64_to_bin-base64_from_bin :
    (bs : Text) (insize room : ℕ)
    → All IsByte bs
    → length (base64_from_bin bs) ≤ insize
    → length bs ≤ room
    → base64_to_bin (base64_from_bin bs) insize room ≡ bs
unfolding base64_to_bin base64_from_bin base64_loop
base64_to_bin-base64_from_bin [] zero room all long fits = refl
base64_to_bin-base64_from_bin [] (suc insize) room all long fits = refl
base64_to_bin-base64_from_bin (a ∷ []) (suc (suc insize)) (suc room) all long fits =
    two_digits insize (a * 65536) room _
    ∙ (base64_loop-end insize 2 _ (suc room) _ ∙ ap (λ x. x ∷ []) (omega (arith, all.0)))
base64_to_bin-base64_from_bin (a ∷ b ∷ []) (suc (suc (suc insize))) (suc (suc room)) all long fits =
    three_digits insize (a * 65536 + b * 256) (suc room) _
    ∙ (base64_loop-end insize 3 _ (suc (suc room)) _
        ∙ last_two _ a b room (omega (arith, all.0, all.1.0)) (omega (arith, all.0, all.1.0)))
base64_to_bin-base64_from_bin (a ∷ b ∷ c ∷ bs) (suc (suc (suc (suc insize)))) (suc (suc (suc room)))
      all long fits =
    four_digits insize (a * 65536 + b * 256 + c) (suc (suc room)) _
      (omega (arith, all.0, all.1.0, all.1.1.0)) (omega arith)
    ∙ (three_bytes a b c _ all.0 all.1.0 all.1.1.0
        ∙ ap (λ t. a ∷ b ∷ c ∷ t)
            (base64_to_bin-base64_from_bin bs insize (suc (suc (suc room)) - 3) all.1.1.1
              (omega arith) (omega arith)))
base64_to_bin-base64_from_bin (a ∷ []) _ _ all long fits = absurd (omega arith)
base64_to_bin-base64_from_bin (a ∷ b ∷ []) _ _ all long fits = absurd (omega arith)
base64_to_bin-base64_from_bin (a ∷ b ∷ c ∷ bs) _ _ all long fits = absurd (omega arith)

base64_from_bin-long :
    (bs : Text)
    → (4 * length bs ≤ 3 * length (base64_from_bin bs)) × (length (base64_from_bin bs) % 4 ≡ 0)
unfolding base64_from_bin
base64_from_bin-long [] = (omega arith, refl)
base64_from_bin-long (a ∷ []) = (omega arith, refl)
base64_from_bin-long (a ∷ b ∷ []) = (omega arith, refl)
base64_from_bin-long (a ∷ b ∷ c ∷ bs) =
    let rest = base64_from_bin-long bs in (omega (arith, rest.0), omega (arith, rest.1))

-- The space that `cm_store_base64_as_bin` takes is enough for bytes that are written in base64, and it
-- reads them back.
pub base64_as_bin-base64_from_bin :
    (bs : Text) → All IsByte bs → base64_as_bin (base64_from_bin bs) ≡ bs
unfolding base64_as_bin
base64_as_bin-base64_from_bin bs all =
    let long = base64_from_bin-long bs in
    base64_to_bin-base64_from_bin bs (length (base64_from_bin bs)) _ all (omega arith)
      (omega (arith, long.0, long.1))

length-hex_from_bin : (bs : Text) → length (hex_from_bin bs) ≡ 2 * length bs
unfolding hex_from_bin
length-hex_from_bin [] = refl
length-hex_from_bin (b ∷ bs) = omega (arith, length-hex_from_bin bs)

-- Bytes that are written as hexadecimal digits and turned into base64 from there are read back from
-- the base64.
pub base64_as_bin-base64_from_hex :
    (bs : Text) → All IsByte bs → base64_as_bin (base64_from_hex (hex_from_bin bs)) ≡ bs
unfolding base64_from_hex
base64_as_bin-base64_from_hex bs all =
    ap (λ t. base64_as_bin (base64_from_bin t))
      (hex_to_bin-hex_from_bin bs (length (hex_from_bin bs) / 2) all
        (omega (arith, length-hex_from_bin bs)))
    ∙ base64_as_bin-base64_from_bin bs all
