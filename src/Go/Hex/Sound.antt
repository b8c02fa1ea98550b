-- ===== src/Go/Hex/Sound.antt =====
-- What hex.Decode accepts.
use teleskop.Common.{
  ℕ, ◌+◌, ◌*◌, ◌/◌, ◌%◌, ◌<◌, ◌≤◌, ◌≡◌, refl, sym, List, [], ◌∷◌, ◌++◌, ◌&&◌, All, arith, length,
  drop, leb, if◌then◌else◌,
}
use teleskop.Go.Error.{ok, err, panic, convert, odd_length, ◌>>=◌}
use teleskop.Go.Hex.{from_hex_char, hex_char, hex_decode, hex_digit, hex_text}
use teleskop.Go.Hex.Print.{IsByte}
use teleskop.Go.Outcome.{bind-ok}
use teleskop.Go.Text.{Text}

-- A to F in lower case.
abbrev pub lower : ℕ → ℕ
lower c = if leb b'A' c && leb c b'F' then c + 32 else c

abbrev pub lower_all : Text → Text
lower_all [] = []
lower_all (c ∷ s) = lower c ∷ lower_all s

-- The digit that a byte stands for is printed as that byte in lower case.
hex_char-ok : (c n : ℕ) → hex_char c ≡ ok n → (n < 16) × (hex_digit n ≡ lower c)
unfolding hex_char from_hex_char hex_digit
hex_char-ok c n h = ground arith

-- The bytes that were read.
pub record Reads (dst : List ℕ) (s : Text) (out : List ℕ) : Type 0 where
  pub bytes : List ℕ
  pub fits : length bytes ≤ length dst
  pub valid : All IsByte bytes
  pub printed : hex_text bytes ≡ lower_all s
  pub result : out ≡ bytes ++ drop (length bytes) dst

pub hex_decode-Reads :
    (dst : List ℕ) (s : Text) (out : List ℕ) → hex_decode dst s ≡ ok out → Reads dst s out
unfolding hex_decode hex_text
hex_decode-Reads dst [] out h = record {
  bytes = [];
  fits = omega arith;
  valid = tt;
  printed = refl;
  result = ground arith;
}
hex_decode-Reads dst (c ∷ []) out h =
    let (n, e, bad) = bind-ok (hex_char c) (λ _. err (convert odd_length)) out h in cc
hex_decode-Reads [] (c ∷ d ∷ s) out h =
    let (n, e, h') = bind-ok (hex_char c) (λ _. hex_char d >>= λ _. panic) out h in
    let (m, e', bad) = bind-ok (hex_char d) (λ _. panic) out h' in cc
hex_decode-Reads (b ∷ dst) (c ∷ d ∷ s) out h =
    let (high, eh, h1) = bind-ok (hex_char c) _ out h in
    let (low, el, h2) = bind-ok (hex_char d) _ out h1 in
    let (rest, er, h3) = bind-ok (hex_decode dst s) _ out h2 in
    let (bound_h, print_h) = hex_char-ok c high eh in
    let (bound_l, print_l) = hex_char-ok d low el in
    let reads = hex_decode-Reads dst s rest er in
    record {
      bytes = (16 * high + low) ∷ reads.bytes;
      fits = omega (arith, reads.fits);
      valid = (omega (arith, bound_h, bound_l), reads.valid);
      printed =
          rw (upper high low bound_l, under high low bound_l, print_h, print_l, reads.printed) refl;
      result = rw (sym reads.result) (ground arith);
    }
  where
    upper : (a b : ℕ) → b < 16 → (16 * a + b) / 16 ≡ a
    upper a b h = omega arith

    under : (a b : ℕ) → b < 16 → (16 * a + b) % 16 ≡ b
    under a b h = omega arith
