-- ===== src/Scenarios/EncodingWitnesses.antt =====
-- Concrete runs of the encodings of src/store-gen.c, which also show that the theorems' conditions can
-- be met.
use certmonger.Prelude.{◌≡◌, refl, [], ◌∷◌, Text, All, codes, arith}
use certmonger.Store.Encoding.{
  hex_from_bin, hex_to_bin, base64_place, base64_from_bin, fitting, base64_loop, base64_to_bin,
  base64_as_bin, base64_from_hex, serial_to_der,
}
use certmonger.Store.Encoding.RoundTrip.{
  IsByte, hex_to_bin-hex_from_bin, base64_as_bin-base64_from_bin, base64_as_bin-base64_from_hex,
}

abbrev bytes : Text
bytes = 0 ∷ 255 ∷ 16 ∷ 171 ∷ []

bytes-IsByte : All IsByte bytes
bytes-IsByte = (omega arith, (omega arith, (omega arith, (omega arith, tt))))

hex_to_bin-hex_from_bin_example : hex_to_bin (hex_from_bin bytes) 4 ≡ bytes
hex_to_bin-hex_from_bin_example = hex_to_bin-hex_from_bin bytes 4 bytes-IsByte (omega arith)

base64_as_bin-base64_from_bin_example : base64_as_bin (base64_from_bin bytes) ≡ bytes
base64_as_bin-base64_from_bin_example = base64_as_bin-base64_from_bin bytes bytes-IsByte

base64_as_bin-base64_from_hex_example : base64_as_bin (base64_from_hex (hex_from_bin bytes)) ≡ bytes
base64_as_bin-base64_from_hex_example = base64_as_bin-base64_from_hex bytes bytes-IsByte

written_base64 : base64_from_bin bytes ≡ codes "AP8Qqw=="
unfolding base64_from_bin
written_base64 = refl

-- What does not belong to the alphabet is passed over.
read_with_break : base64_as_bin (codes "AP8Q\nqw==") ≡ bytes
unfolding base64_as_bin base64_to_bin base64_loop base64_place fitting
read_with_break = refl

written_der : serial_to_der (codes "0A1B") ≡ codes "02020A1B"
unfolding serial_to_der
written_der = refl
