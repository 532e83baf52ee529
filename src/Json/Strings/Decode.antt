-- ===== src/Json/Strings/Decode.antt =====
-- src/json.c, `cm_json_decode_string`: its two passes. The first finds the closing quote and the
-- space that is needed, the second writes.
use Prim.Native.Nat.{zero, suc}
use certmonger.Prelude.{
  ℕ, ◌+◌, ◌-◌, Option, none, some, [], ◌∷◌, ◌++◌, if◌then◌else◌, ◌==◌, Text, length,
}
use certmonger.Json.Utf.{point_to_utf8_length, point_to_utf8}
use certmonger.Json.Strings.Unescape.{
  Reading, read, refused, overread, overrun, Place, Escaped, read_escape,
}

abbrev pub ahead : ℕ → Place → Text → Place
ahead n p rest = record { left = p.left - n; buffer = rest }

-- What the first pass does at one place.
pub data ScanStep : Type 0 where
  closed : ScanStep
  scanned : ℕ → Place → ScanStep
  scan_refused : Text → ScanStep
  scan_overread : ScanStep

unfoldable pub scan_escape : Text → Option Escaped → ScanStep
scan_escape saved none = scan_overread
scan_escape saved (some e) = elim (point_to_utf8_length e.point) [
  | none ↦ scan_refused e.saved
  | some i ↦ scanned i e.place
]

unfoldable pub scan_step : Place → ScanStep
unfolding scan_escape read_escape
scan_step p = elim p.buffer [
  | [] ↦ scan_overread
  | c ∷ cs ↦
      if c == b'"'
      then closed
      else (if c == b'\\'
          then elim cs [
            | [] ↦ scan_overread
            | d ∷ ds ↦
                if d == b'u'
                then scan_escape p.buffer (read_escape 0xdc000 p.buffer (ahead 2 p ds))
                else scanned 1 (ahead 2 p ds)
          ]
          else scanned 1 (ahead 1 p cs))
]

-- The first pass: the place of the closing quote, and `unesc`. Each turn moves on.
unfoldable pub scan : ℕ → ℕ → Place → Reading (ℕ × Place)
scan zero unesc p = refused p.buffer
scan (suc f) unesc p = elim p.left [
  | zero ↦ refused p.buffer
  | suc n ↦ elim (scan_step p) [
    | closed ↦ read (unesc, p) p.buffer
    | scanned i q ↦ scan f (unesc + i) q
    | scan_refused t ↦ refused t
    | scan_overread ↦ overread
  ]
]

-- What an escaped byte stands for.
unfoldable pub unescaped : ℕ → ℕ
unescaped d =
    if d == b'b'
    then 8
    else (if d == b'f'
        then 12
        else (if d == b'n' then 10 else (if d == b'r' then 13 else (if d == b't' then 9 else d))))

-- What the second pass does at one place, with room for `room` bytes.
pub data WriteStep : Type 0 where
  wrote : Text → Place → WriteStep
  write_refused : Text → WriteStep
  write_overread write_overrun : WriteStep

unfoldable pub write_escape : ℕ → Option Escaped → WriteStep
unfolding point_to_utf8
write_escape room none = write_overread
write_escape room (some e) = elim (point_to_utf8 e.point room) [
  | none ↦ write_refused e.saved
  | some out ↦ wrote out e.place
]

unfoldable pub write_byte : ℕ → ℕ → Place → WriteStep
write_byte zero c p = write_overrun
write_byte (suc room) c p = wrote (c ∷ []) p

unfoldable pub write_step : ℕ → Place → WriteStep
unfolding write_escape write_byte unescaped read_escape
write_step room p = elim p.buffer [
  | [] ↦ write_overread
  | c ∷ cs ↦
      if c == b'\\'
      then elim cs [
        | [] ↦ write_overread
        | d ∷ ds ↦
            if d == b'u'
            then write_escape room (read_escape 0xdc00 p.buffer (ahead 2 p ds))
            else write_byte room (unescaped d) (ahead 2 p ds)
      ]
      else write_byte room c (ahead 1 p cs)
]

abbrev pub before : Text → Reading Text → Reading Text
before out (read t next) = read (out ++ t) next
before out (refused t) = refused t
before out overread = overread
before out overrun = overrun

-- The second pass, and the NUL that it writes at the end.
unfoldable pub write : ℕ → ℕ → Place → Reading Text
write zero room p = refused p.buffer
write (suc f) room p = elim p.left [
  | zero ↦ elim room [ zero ↦ overrun | suc r ↦ read [] p.buffer ]
  | suc n ↦ elim (write_step room p) [
    | wrote out q ↦ before out (write f (room - length out) q)
    | write_refused t ↦ refused t
    | write_overread ↦ overread
    | write_overrun ↦ overrun
  ]
]

abbrev pub leaving : Text → Reading Text → Reading Text
leaving next (read t rest) = read t next
leaving next (refused t) = refused t
leaving next overread = overread
leaving next overrun = overrun

-- Both passes, from the place behind the opening quote. `length` becomes the distance of the quotes.
unfoldable pub both_passes : Place → Reading Text
both_passes start = elim (scan (start.left + 1) 0 start) [
  | read (unesc, quote) at ↦
      let content = start.left - quote.left in
      leaving (elim at [ [] ↦ [] | c ∷ cs ↦ cs ])
        (write (content + 1) (unesc + 1) (record start { left = content }))
  | refused t ↦ refused t
  | overread ↦ overread
  | overrun ↦ overrun
]

-- `cm_json_decode_string`
unfoldable pub decode_string : Place → Reading Text
decode_string p = elim p.buffer [
  | [] ↦ overread
  | c ∷ cs ↦ if c == b'"' then both_passes (ahead 1 p cs) else refused p.buffer
]
