-- ===== src/Go/Hex.antt =====
-- encoding/hex, and fmt's %x of an array of bytes.
pub mod Print
pub mod Sound
use teleskop.Common.{
  ℕ, ◌+◌, ◌-◌, ◌*◌, ◌/◌, ◌%◌, ◌&&◌, Option, none, some, List, [], ◌∷◌, leb, ltb, if◌then◌else◌,
}
use teleskop.Go.Error.{Outcome, ok, err, panic, convert, odd_length, invalid_byte, ◌>>=◌, ◌>>◌}
use teleskop.Go.Text.{Text}

unfoldable pub from_hex_char : ℕ → Option ℕ
from_hex_char c =
    if leb b'0' c && leb c b'9'
    then some (c - b'0')
    else if leb b'a' c && leb c b'f'
    then some (c - b'a' + 10)
    else if leb b'A' c && leb c b'F'
    then some (c - b'A' + 10)
    else none

unfoldable pub hex_char : ℕ → Outcome ℕ
unfolding from_hex_char
hex_char c = elim (from_hex_char c) [ none ↦ err (convert invalid_byte) | some n ↦ ok n ]

-- The bytes of the destination behind the last written stay as they are; a write past its end
-- panics. A last single byte is an error in any case.
unfoldable pub hex_decode : List ℕ → Text → Outcome (List ℕ)
hex_decode dst [] = ok dst
hex_decode dst (c ∷ []) = do hex_char c; err (convert odd_length)
hex_decode [] (c ∷ d ∷ s) = do hex_char c; hex_char d; panic
hex_decode (b ∷ dst) (c ∷ d ∷ s) = do
  high ← hex_char c
  low ← hex_char d
  rest ← hex_decode dst s
  ok ((16 * high + low) ∷ rest)

unfoldable pub hex_digit : ℕ → ℕ
hex_digit n = if ltb n 10 then b'0' + n else b'a' + (n - 10)

-- fmt.Sprintf("%x", bytes).
unfoldable pub hex_text : List ℕ → Text
hex_text [] = []
hex_text (b ∷ bytes) = hex_digit (b / 16) ∷ hex_digit (b % 16) ∷ hex_text bytes
