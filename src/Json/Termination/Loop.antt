-- ===== src/Json/Termination/Loop.antt =====
-- src/json.c: the loop of `cm_json_decode` ends.
use Prim.Native.Nat.{zero, suc}
use certmonger.Prelude.{
  ℕ, ◌+◌, ◌-◌, ◌*◌, ◌<◌, ◌≤◌, ◌≡◌, ◌≢◌, refl, subst, Bool, true, false, ◌||◌, Option, some, none,
  [], ◌∷◌, ◌++◌, if◌then◌else◌, ◌==◌, Text, length, arith,
}
use certmonger.Json.Values.{Json, ref}
use certmonger.Json.Strings.{Reading, read, refused, overread, overrun, skip}
use certmonger.Json.Strings.RoundTrip.{length-++}
use certmonger.Json.Decode.{
  Level, Aggregate, undefined, in_array, in_object, Action, go, nest, finish, stop, broken, Decoded,
  decoded, failed, bad_access, starved, is_space, no_value, no_string, starts_number, initial,
  with_sub, on_open, on_close_array, on_close_object, on_comma, on_colon, got_string, on_quote,
  token, got_token, on_token, action, loop, decode, skip_space, span_number, is_set,
}
use certmonger.Json.RoundTrip.Loop.{is_nested, resume}
use certmonger.Json.Termination.Strings.{by_if, NearReading, decode_string-Near}

length-skip : (n : ℕ) (t : Text) → length (skip n t) ≡ length t - n
unfolding skip
length-skip zero t = omega arith
length-skip (suc n) [] = omega arith
length-skip (suc n) (c ∷ t) = omega (arith, length-skip n t)

length-skip_space : (t : Text) → length (skip_space t) ≤ length t
unfolding skip_space
length-skip_space [] = omega arith
length-skip_space (c ∷ []) = omega arith
length-skip_space (c ∷ d ∷ t) = ground (arith, length-skip_space (d ∷ t))

length-span_number : (t : Text) → length (span_number t).1 ≤ length t
unfolding span_number
length-span_number [] = omega arith
length-span_number (c ∷ []) = omega arith
length-span_number (c ∷ d ∷ t) = ground (arith, length-span_number (d ∷ t))

span_number-starts :
    (c d : ℕ) (t : Text)
    → starts_number c ≡ true
    → length (span_number (c ∷ d ∷ t)).1 ≤ suc (length t)
unfolding span_number
span_number-starts c d t h = ground (arith, length-span_number (d ∷ t))

module _ {D : Type 0} where
  -- A turn leaves at most `n` bytes; a call for an item is made only inside an array or an object.
  abbrev Moves : ℕ → Bool → Action D → Type 0
  Moves n inside (go lv q) = length q ≤ n
  Moves n inside nest = inside ≡ true
  Moves n inside (finish v q) = length q ≤ n
  Moves n inside (stop q) = Unit
  Moves n inside broken = Unit

  on_open-Moves :
      (lv opened : Level D) (p rest : Text)
      → Moves (length rest) (is_nested lv.agg) (on_open lv opened p rest)
  unfolding on_open
  on_open-Moves lv opened p rest =
      by_if (Moves (length rest) (is_nested lv.agg)) (no_value lv.expect) tt (at lv.agg)
    where
      at :
          (a : Aggregate D)
          → Moves
              (length rest)
              (is_nested a)
              (elim a [ undefined ↦ go opened rest | in_array xs ↦ nest | in_object fs ↦ nest ])
      at undefined = omega arith
      at (in_array xs) = refl
      at (in_object fs) = refl

  on_close_array-Moves :
      (lv : Level D) (b : Bool) (p rest : Text) → Moves (length rest) b (on_close_array lv p rest)
  unfolding on_close_array
  on_close_array-Moves lv b p rest = ground arith

  on_close_object-Moves :
      (lv : Level D) (b : Bool) (p rest : Text) → Moves (length rest) b (on_close_object lv p rest)
  unfolding on_close_object
  on_close_object-Moves lv b p rest = ground arith

  on_comma-Moves :
      (lv : Level D) (b : Bool) (p rest : Text) → Moves (length rest) b (on_comma lv p rest)
  unfolding on_comma
  on_comma-Moves lv b p rest = ground arith

  on_colon-Moves :
      (lv : Level D) (b : Bool) (p rest : Text) → Moves (length rest) b (on_colon lv p rest)
  unfolding on_colon
  on_colon-Moves lv b p rest = ground arith

  got_string-Moves :
      (n : ℕ) (lv : Level D) (b : Bool) (r : Reading Text)
      → NearReading n r
      → Moves n b (got_string lv r)
  got_string-Moves n lv b (read t next) h = ground (arith, h)
  got_string-Moves n lv b (refused t) h = tt
  got_string-Moves n lv b overread h = tt
  got_string-Moves n lv b overrun h = tt

  on_quote-Moves :
      (lv : Level D) (b : Bool) (c : ℕ) (rest : Text)
      → Moves (length rest) b (on_quote lv (c ∷ rest))
  unfolding on_quote
  on_quote-Moves lv b c rest =
      by_if (Moves (length rest) b) (no_string lv.expect) tt
        (got_string-Moves (length rest) lv b _ (decode_string-Near _ c rest))

module _ {D : Type 0} (read_d : Text → D) where
  -- What a token leaves.
  abbrev Leaves : ℕ → Option (Json D × Text) → Type 0
  Leaves n none = Unit
  Leaves n (some (v, q)) = length q ≤ n

  token-Leaves : (c d : ℕ) (t : Text) → Leaves (suc (length t)) (token read_d c (c ∷ d ∷ t))
  unfolding token
  token-Leaves c d t =
      ground (arith, length-skip 4 (c ∷ d ∷ t), length-skip 5 (c ∷ d ∷ t), span_number-starts c d t)

  got_token-Moves :
      (n : ℕ) (lv : Level D) (b : Bool) (p : Text) (o : Option (Json D × Text))
      → Leaves n o
      → Moves n b (got_token lv p o)
  got_token-Moves n lv b p none h = tt
  got_token-Moves n lv b p (some (v, q)) h = ground (arith, h)

  on_token-Moves :
      (lv : Level D) (b : Bool) (c d : ℕ) (t : Text)
      → Moves (suc (length t)) b (on_token read_d lv c (c ∷ d ∷ t))
  unfolding on_token
  on_token-Moves lv b c d t =
      by_if (Moves (suc (length t)) b) (no_value lv.expect || is_set lv.sub) tt
        (got_token-Moves (suc (length t)) lv b (c ∷ d ∷ t) _ (token-Leaves c d t))

  action-Moves :
      (lv : Level D) (c d : ℕ) (t : Text)
      → Moves (suc (length t)) (is_nested lv.agg) (action read_d lv c (d ∷ t) (c ∷ d ∷ t))
  unfolding action
  action-Moves lv c d t =
      let P = Moves (suc (length t)) (is_nested lv.agg) in
      let p = c ∷ d ∷ t in
      let rest = d ∷ t in
      let b = is_nested lv.agg in
      by_if P (is_space c) (omega arith) (
        by_if P (c == b'[') (on_open-Moves lv _ p rest) (
          by_if P (c == b']') (on_close_array-Moves lv b p rest) (
            by_if P (c == b'{') (on_open-Moves lv _ p rest) (
              by_if P (c == b'}') (on_close_object-Moves lv b p rest) (
                by_if P (c == b',') (on_comma-Moves lv b p rest) (
                  by_if P (c == b':') (on_colon-Moves lv b p rest) (
                    by_if P (c == b'"') (on_quote-Moves lv b c rest)
                      (on_token-Moves lv b c d t))))))))

  -- The loop has come to an end, and a value that it found has used up at least a byte.
  abbrev pub Ended : ℕ → Decoded D → Type 0
  Ended n (decoded v q) = length q < n
  Ended n (failed e q) = Unit
  Ended n bad_access = Unit
  Ended n starved = true ≡ false

  abbrev depth : Bool → ℕ
  depth b = if b then 1 else 0

  depth-small : (b : Bool) → depth b ≤ 1
  depth-small true = omega arith
  depth-small false = omega arith

  -- Behind the text of an item.
  after_nested :
      (f n : ℕ) (lv : Level D) (o : Decoded D)
      → Ended n o
      → ((lv' : Level D) (q : Text) → length q < n → Ended n (loop read_d f lv' q))
      → Ended n (elim o [
        | decoded v q ↦ loop read_d f (with_sub lv (ref v)) q
        | failed e q ↦ failed e (skip_space q)
        | bad_access ↦ bad_access
        | starved ↦ starved
      ])
  after_nested f n lv (decoded v q) h on = on (with_sub lv (ref v)) q h
  after_nested f n lv (failed e q) h on = tt
  after_nested f n lv bad_access h on = tt
  after_nested f n lv starved h on = h

  resume-Ended :
      (f : ℕ) (lv : Level D) (p : Text) (n : ℕ) (b : Bool) (a : Action D)
      → length p ≡ suc n
      → Moves n b a
      → ((lv' : Level D) (q : Text) → length q < length p → Ended (length p) (loop read_d f lv' q))
      → (b ≡ true → Ended (length p) (loop read_d f initial p))
      → Ended (length p) (resume read_d f lv p a)
  resume-Ended f lv p n b (go lv' q) size moves on inner = on lv' q (omega (arith, size, moves))
  resume-Ended f lv p n b nest size moves on inner =
      after_nested f (length p) lv (loop read_d f initial p) (inner moves) on
  resume-Ended f lv p n b (finish v q) size moves on inner =
      omega (arith, size, moves, length-skip_space q)
  resume-Ended f lv p n b (stop q) size moves on inner = tt
  resume-Ended f lv p n b broken size moves on inner = tt

  Ended-mono : (m n : ℕ) (o : Decoded D) → m ≤ n → Ended m o → Ended n o
  Ended-mono m n (decoded v q) le h = omega (arith, le, h)
  Ended-mono m n (failed e q) le h = tt
  Ended-mono m n bad_access le h = tt
  Ended-mono m n starved le h = h

  loop-Ended :
      (f : ℕ) (lv : Level D) (p : Text)
      → 1 ≤ f
      → 2 * length p + depth (is_nested lv.agg) ≤ f
      → Ended (length p) (loop read_d f lv p)
  unfolding loop
  loop-Ended zero lv p one room = absurd (omega arith)
  loop-Ended (suc f) lv [] one room = tt
  loop-Ended (suc f) lv (c ∷ []) one room = tt
  loop-Ended (suc f) lv (c ∷ d ∷ t) one room =
      let p = c ∷ d ∷ t in
      resume-Ended f lv p (suc (length t)) (is_nested lv.agg) (action read_d lv c (d ∷ t) p) refl
        (action-Moves lv c d t)
        (λ lv' q lt.
          Ended-mono (length q) (length p) _ (omega arith)
            (loop-Ended f lv' q (omega arith) (omega (arith, depth-small (is_nested lv'.agg)))))
        λ deep. loop-Ended f initial p (omega arith) (ground (arith, room, deep))

  -- However a text is made, its decoding comes to an end.
  pub decode-Ended : (t : Text) → Ended (length t + 1) (decode read_d t)
  unfolding decode
  decode-Ended t =
      let size = length-++ t (0 ∷ []) in
      Ended-mono (length (t ++ (0 ∷ []))) (length t + 1) _ (omega (arith, size))
        (loop-Ended (2 * length t + 2) initial (t ++ (0 ∷ [])) (omega arith) (omega (arith, size)))

  pub decode-halts : (t : Text) → decode read_d t ≢ starved
  decode-halts t e = ground (arith, subst (λ o. Ended (length t + 1) o) e (decode-Ended t))
