-- ===== src/Go/Int.antt =====
-- Signed integers, and strconv.ParseInt(s, 10, 32).
pub mod Print
use teleskop.Common.{
  Bool, false, ℕ, zero, suc, ◌+◌, ◌-◌, ◌*◌, ◌%◌, ◌^◌, ◌||◌, [], ◌∷◌, leb, ltb, ◌==◌, if◌then◌else◌,
}
use teleskop.Go.Error.{syntax, range, convert, Outcome, ok, err, ◌>>=◌}
use teleskop.Go.Text.{Text}

-- `negsuc n` is -(n + 1).
pub data ℤ : Type 0 where
  pos : ℕ → ℤ
  negsuc : ℕ → ℤ

abbrev pub pos_part : ℤ → ℕ
pos_part (pos n) = n
pos_part (negsuc n) = 0

abbrev pub neg_part : ℤ → ℕ
neg_part (pos n) = 0
neg_part (negsuc n) = suc n

unfoldable pub eq_int : ℤ → ℤ → Bool
eq_int (pos a) (pos b) = a == b
eq_int (negsuc a) (negsuc b) = a == b
eq_int _ _ = false

-- i + 1
unfoldable pub next : ℤ → ℤ
next (pos n) = pos (n + 1)
next (negsuc zero) = pos 0
next (negsuc (suc n)) = negsuc n

abbrev pub uint32_mod : ℕ
uint32_mod = 2 ^ 32

abbrev pub max_uint32 : ℕ
max_uint32 = 2 ^ 32 - 1

-- uint32(i)
unfoldable pub uint32 : ℤ → ℕ
uint32 (pos n) = n % uint32_mod
uint32 (negsuc n) = uint32_mod - 1 - n % uint32_mod

-- The loop of strconv.ParseUint(s, 10, 32). A number past 2^32 - 1 is an error at once.
scan : Text → ℕ → Outcome ℕ
scan [] n = ok n
scan (c ∷ s) n =
    if ltb c b'0' || ltb b'9' c
    then err (convert syntax)
    else if ltb max_uint32 (n * 10 + (c - b'0'))
    then err (convert range)
    else scan s (n * 10 + (c - b'0'))

parse_uint : Text → Outcome ℕ
unfolding scan
parse_uint [] = err (convert syntax)
parse_uint (c ∷ s) = scan (c ∷ s) 0

non_negative : ℕ → Outcome ℤ
non_negative n = if leb (2 ^ 31) n then err (convert range) else ok (pos n)

negative : ℕ → Outcome ℤ
negative zero = ok (pos 0)
negative (suc n) = if ltb (2 ^ 31) (suc n) then err (convert range) else ok (negsuc n)

-- strconv.ParseInt(s, 10, 32): an optional sign, then decimal digits, in the range of an int32.
unfoldable pub parse_int : Text → Outcome ℤ
unfolding parse_uint non_negative negative
parse_int [] = err (convert syntax)
parse_int (c ∷ s) =
    if c == b'-'
    then (do n ← parse_uint s; negative n)
    else if c == b'+'
    then (do n ← parse_uint s; non_negative n)
    else do n ← parse_uint (c ∷ s); non_negative n
