-- ===== src/Json/Decode.antt =====
-- src/json.c, `cm_json_decode`. The buffer ends with its NUL, so that `p < encoded + length` is to
-- have two bytes or more.
pub mod Levels
unfoldable pub use Levels.*
use Prim.Native.Nat.{zero, suc}
use certmonger.Prelude.{
  ℕ, ◌+◌, ◌-◌, ◌*◌, Bool, true, false, ◌&&◌, ◌||◌, Option, none, some, [], ◌∷◌, ◌++◌, if◌then◌else◌,
  leb, ◌==◌, Text, text_eq, codes, any, length,
}
use certmonger.Json.Values.{
  Json, Ref, Items, Fields, null, string, numberl, numberd, boolean, object, array, nowhere, ref,
  no_items, no_fields, c_string, json_set, json_append,
}
use certmonger.Json.Strings.{Reading, read, refused, overread, overrun, decode_string, skip, first}
use certmonger.Json.Numbers.{read_number}

module _ {D : Type 0} where
  abbrev pub initial : Level D
  initial = record { agg = undefined; expect = expr; name = none; sub = nowhere }

  -- An item or value has been read.
  abbrev pub with_sub : Level D → Ref D → Level D
  with_sub lv v = record lv { sub = v; expect = comma_or_close }

  -- case '[' and case '{': the level is `opened`, or an item begins
  unfoldable pub on_open : Level D → Level D → Text → Text → Action D
  on_open lv opened p rest =
      if no_value lv.expect
      then stop p
      else elim lv.agg [ undefined ↦ go opened rest | in_array xs ↦ nest | in_object fs ↦ nest ]

  abbrev append_sub : Items D → Ref D → Items D
  append_sub xs nowhere = xs
  append_sub xs (ref v) = json_append xs (ref v)

  abbrev set_sub : Fields D → Option Text → Ref D → Fields D
  set_sub fs (some k) (ref v) = json_set fs (c_string k) (ref v)
  set_sub fs _ _ = fs

  -- case ']'
  unfoldable pub on_close_array : Level D → Text → Text → Action D
  on_close_array lv p rest =
      if no_close lv.expect
      then stop p
      else elim lv.agg [ in_array xs ↦ finish (array (append_sub xs lv.sub)) rest | _ ↦ stop p ]

  -- case '}'
  unfoldable pub on_close_object : Level D → Text → Text → Action D
  on_close_object lv p rest = if no_close lv.expect then stop p else elim lv.agg [
    | in_object fs ↦ finish (object (set_sub fs lv.name lv.sub)) rest
    | _ ↦ stop p
  ]

  abbrev add_field : Level D → Fields D → Text → Text → Option Text → Ref D → Action D
  add_field lv fs p rest (some k) (ref v) =
      go
        (record {
          agg = in_object (json_set fs (c_string k) (ref v));
          expect = key;
          name = none;
          sub = nowhere;
        })
        rest
  add_field lv fs p rest _ _ = stop p

  abbrev add_item : Level D → Items D → Text → Text → Ref D → Action D
  add_item lv xs p rest nowhere = stop p
  add_item lv xs p rest (ref v) =
      go (record lv { agg = in_array (json_append xs (ref v)); expect = expr; sub = nowhere }) rest

  -- case ','
  unfoldable pub on_comma : Level D → Text → Text → Action D
  on_comma lv p rest = elim lv.expect [
    | comma_or_close ↦ elim lv.agg [
      | in_object fs ↦ add_field lv fs p rest lv.name lv.sub
      | in_array xs ↦ add_item lv xs p rest lv.sub
      | undefined ↦ stop p
    ]
    | _ ↦ stop p
  ]

  -- case ':'
  unfoldable pub on_colon : Level D → Text → Text → Action D
  on_colon lv p rest = elim lv.expect [
    | colon ↦ elim lv.agg [ in_object fs ↦ go (record lv { expect = expr }) rest | _ ↦ stop p ]
    | _ ↦ stop p
  ]

  abbrev pub named_or_valued : Level D → Text → Text → Action D
  named_or_valued lv t next = elim (is_key lv.expect) [
    | true ↦ go (record lv { name = some t; expect = colon }) next
    | false ↦ go (with_sub lv (ref (string t))) next
  ]

  abbrev pub got_string : Level D → Reading Text → Action D
  got_string lv (read t next) = elim lv.agg [
    | undefined ↦ finish (string t) next
    | in_array xs ↦ named_or_valued lv t next
    | in_object fs ↦ named_or_valued lv t next
  ]
  got_string lv (refused p) = stop p
  got_string lv overread = broken
  got_string lv overrun = broken

  -- case '"'
  unfoldable pub on_quote : Level D → Text → Action D
  on_quote lv p =
      if no_string lv.expect
      then stop p
      else got_string lv (decode_string (record { left = length p - 1; buffer = p }))

  abbrev pub got_token : Level D → Text → Option (Json D × Text) → Action D
  got_token lv p none = stop p
  got_token lv p (some (v, rest)) = elim lv.agg [
    | undefined ↦ finish v rest
    | in_array xs ↦ go (with_sub lv (ref v)) rest
    | in_object fs ↦ go (with_sub lv (ref v)) rest
  ]

  abbrev pub is_set : Ref D → Bool
  is_set nowhere = false
  is_set (ref v) = true

module _ {D : Type 0} (read_d : Text → D) where
  -- A token at the front of the buffer, and what is behind it.
  unfoldable pub token : ℕ → Text → Option (Json D × Text)
  token c p =
      let left = length p - 1 in
      if leb 4 left && has_words (codes "null") p
      then some (null, skip 4 p)
      else (if leb 4 left && has_words (codes "true") p
          then some (boolean 1, skip 4 p)
          else (if leb 5 left && has_words (codes "fals") p
              then some (boolean 0, skip 5 p)
              else (if starts_number c
                  then (let (tok, rest) = span_number p in
                      let tmp = c_string tok in
                      some (
                        if is_fraction tmp then numberd (read_d tmp) else numberl (read_number tmp),
                        rest,
                      ))
                  else none)))

  -- the default case
  unfoldable pub on_token : Level D → ℕ → Text → Action D
  on_token lv c p =
      if no_value lv.expect || is_set lv.sub then stop p else got_token lv p (token c p)

  -- One turn, at a byte `c` of the buffer `p`, with `rest` behind it.
  unfoldable pub action : Level D → ℕ → Text → Text → Action D
  action lv c rest p =
      if is_space c
      then go lv rest
      else (if c == b'['
          then on_open lv (record lv { agg = in_array no_items; expect = expr_or_close }) p rest
          else (if c == b']'
              then on_close_array lv p rest
              else (if c == b'{'
                  then on_open lv (record lv { agg = in_object no_fields; expect = key_or_close }) p
                      rest
                  else (if c == b'}'
                      then on_close_object lv p rest
                      else (if c == b','
                          then on_comma lv p rest
                          else (if c == b':'
                              then on_colon lv p rest
                              else (if c == b'"' then on_quote lv p else on_token lv c p)))))))

  -- The loop. Fuel is spent by a turn.
  unfoldable pub loop : ℕ → Level D → Text → Decoded D
  loop zero lv p = starved
  loop (suc f) lv [] = failed lv.expect []
  loop (suc f) lv (c ∷ []) = failed lv.expect (c ∷ [])
  loop (suc f) lv (c ∷ d ∷ t) = elim (action lv c (d ∷ t) (c ∷ d ∷ t)) [
    | go lv' p ↦ loop f lv' p
    | nest ↦ elim (loop f initial (c ∷ d ∷ t)) [
      | decoded v p ↦ loop f (with_sub lv (ref v)) p
      | failed e p ↦ failed e (skip_space p)
      | bad_access ↦ bad_access
      | starved ↦ starved
    ]
    | finish v p ↦ decoded v (skip_space p)
    | stop p ↦ failed lv.expect (skip_space p)
    | broken ↦ bad_access
  ]

  -- `cm_json_decode`, of a text with its NUL behind it
  unfoldable pub decode : Text → Decoded D
  decode t = loop (2 * length t + 2) initial (t ++ (0 ∷ []))
