-- ===== src/Go/Int/Print.antt =====
-- Reading a printed number.
use native.Mathlib.Decide.{ℕ_discrete}
use teleskop.Common.{
  ℕ, zero, suc, ◌+◌, ◌/◌, ◌%◌, ◌^◌, ◌≤◌, ◌<◌, ◌≡◌, [], ◌∷◌, arith, Bool-cases, inl, inr, ltb, ◌∙◌,
}
use teleskop.Go.Error.{Outcome, ok, err, panic, ◌>>=◌}
use teleskop.Go.Int.{ℤ, pos, max_uint32, scan, parse_uint, non_negative, parse_int}
use teleskop.Go.Text.{Text, digits, decimal}
use teleskop.Go.Text.Split.{Lacks}
use teleskop.Go.Text.Digits.{IsNumber, number, decimal-IsNumber}

scan_last :
    (n : ℕ) (out : Text) → n ≤ max_uint32 → scan ((b'0' + n % 10) ∷ out) (n / 10) ≡ scan out n
unfolding scan
scan_last n out h = ground arith

scan_one : (n : ℕ) (out : Text) → n < 10 → scan ((b'0' + n) ∷ out) 0 ≡ scan out n
unfolding scan
scan_one n out h = ground arith

scan-digits : (f n : ℕ) (out : Text) → n < f → n ≤ max_uint32 → scan (digits f n out) 0 ≡ scan out n
unfolding digits
scan-digits zero n out h fits = absurd (omega arith)
scan-digits (suc f) n out h fits = elim (Bool-cases (ltb n 10)) [
  | inl low ↦ rw low (scan_one n out (ground arith))
  | inr high ↦ rw high (
      scan-digits f (n / 10) ((b'0' + n % 10) ∷ out) (ground arith) (omega arith)
      ∙ scan_last n out fits)
]

parse_number :
    (t : Text) (n : ℕ) → IsNumber t → scan t 0 ≡ ok n → n < 2 ^ 31 → parse_int t ≡ ok (pos n)
unfolding parse_int
parse_number _ n (number c s h all) e fits = ground arith

-- ParseInt reads every number below 2^31 back from its decimal print.
pub parse_int-decimal : (n : ℕ) → n < 2 ^ 31 → parse_int (decimal n) ≡ ok (pos n)
parse_int-decimal n fits =
    parse_number (decimal n) n (decimal-IsNumber n)
      (unfold decimal scan in scan-digits (suc n) n [] (omega arith) (omega arith)) fits

non_negative_bounds :
    (m : Outcome ℕ) (z : ℤ) → (m >>= non_negative) ≡ ok z → (n : ℕ) × (z ≡ pos n) × (n < 2 ^ 31)
unfolding non_negative
non_negative_bounds (ok n) z e = (n, ground arith, ground arith)
non_negative_bounds (err x) z e = cc
non_negative_bounds panic z e = cc

-- A text without a minus sign is read as a number of 0 to 2^31 - 1, or not at all.
pub parse_int_bounds :
    (t : Text) (z : ℤ) → Lacks b'-' t → parse_int t ≡ ok z → (n : ℕ) × (z ≡ pos n) × (n < 2 ^ 31)
unfolding parse_int
parse_int_bounds [] z lacks e = cc
parse_int_bounds (c ∷ t) z (h, _) e = elim (ℕ_discrete c b'+') [
  | yes plus ↦ non_negative_bounds (parse_uint t) z (ground arith)
  | no digit ↦ non_negative_bounds (parse_uint (c ∷ t)) z (ground arith)
]
