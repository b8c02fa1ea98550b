-- ===== src/Go/Hex/Print.antt =====
-- What hex.Decode reads and what %x prints.
use teleskop.Common.{ℕ, ◌/◌, ◌%◌, ◌<◌, ◌≡◌, refl, List, [], ◌∷◌, ◌++◌, All, arith, length}
use teleskop.Go.Error.{ok, panic}
use teleskop.Go.Hex.{from_hex_char, hex_char, hex_decode, hex_digit, hex_text}

abbrev pub IsByte : ℕ → Type 0
IsByte b = b < 256

pub hex_char-hex_digit : (n : ℕ) → n < 16 → hex_char (hex_digit n) ≡ ok n
unfolding hex_char from_hex_char hex_digit
hex_char-hex_digit n h = ground arith

-- Printed bytes are read back, over the first bytes of the destination.
pub hex_decode-hex_text :
    (bytes old : List ℕ) (rest : List ℕ)
    → All IsByte bytes
    → length old ≡ length bytes
    → hex_decode (old ++ rest) (hex_text bytes) ≡ ok (bytes ++ rest)
unfolding hex_decode hex_text
hex_decode-hex_text [] [] rest all e = refl
hex_decode-hex_text [] (o ∷ old) rest all e = ground arith
hex_decode-hex_text (b ∷ bytes) [] rest all e = ground arith
hex_decode-hex_text (b ∷ bytes) (o ∷ old) rest (h, all) e =
    rw
      (
        hex_char-hex_digit (b / 16) (omega arith),
        hex_char-hex_digit (b % 16) (omega arith),
        hex_decode-hex_text bytes old rest all (omega arith),
      )
      (ground arith)

-- More bytes than the destination has room for.
pub hex_decode_overflow :
    (dst bytes : List ℕ)
    → All IsByte bytes
    → length dst < length bytes
    → hex_decode dst (hex_text bytes) ≡ panic
unfolding hex_decode hex_text
hex_decode_overflow [] [] all long = absurd (omega arith)
hex_decode_overflow (d ∷ dst) [] all long = absurd (omega arith)
hex_decode_overflow [] (b ∷ bytes) (h, all) long =
    rw (hex_char-hex_digit (b / 16) (omega arith), hex_char-hex_digit (b % 16) (omega arith)) refl
hex_decode_overflow (d ∷ dst) (b ∷ bytes) (h, all) long =
    rw
      (
        hex_char-hex_digit (b / 16) (omega arith),
        hex_char-hex_digit (b % 16) (omega arith),
        hex_decode_overflow dst bytes all (omega arith),
      )
      refl
