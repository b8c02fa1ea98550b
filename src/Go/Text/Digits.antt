-- ===== src/Go/Text/Digits.antt =====
-- The bytes of a printed number.
use teleskop.Common.{
  ℕ, zero, suc, ◌+◌, ◌/◌, ◌%◌, ◌≤◌, ◌<◌, [], ◌∷◌, arith, All, Bool-cases, inl, inr, ltb,
}
use teleskop.Go.Text.{Text, digits, decimal}
use teleskop.Go.Text.Split.{Lacks}

abbrev pub IsDigit : ℕ → Type 0
IsDigit c = (b'0' ≤ c) × (c ≤ b'9')

-- One digit at least, and nothing else.
pub data IsNumber : Text → Type 0 where
  number : (c : ℕ) (s : Text) → IsDigit c → All IsDigit s → IsNumber (c ∷ s)

digits-IsNumber : (f n : ℕ) (out : Text) → n < f → All IsDigit out → IsNumber (digits f n out)
unfolding digits
digits-IsNumber zero n out h all = absurd (omega arith)
digits-IsNumber (suc f) n out h all = elim (Bool-cases (ltb n 10)) [
  | inl low ↦ rw low (number (b'0' + n) out (ground arith) all)
  | inr high ↦
      rw high (digits-IsNumber f (n / 10) ((b'0' + n % 10) ∷ out) (ground arith) (omega arith, all))
]

pub decimal-IsNumber : (n : ℕ) → IsNumber (decimal n)
unfolding decimal
decimal-IsNumber n = digits-IsNumber (suc n) n [] (omega arith) tt

digits_lack : (b : ℕ) (s : Text) → (b < b'0') → All IsDigit s → Lacks b s
digits_lack b [] low all = tt
digits_lack b (c ∷ s) low (h, all) = (omega arith, digits_lack b s low all)

pub decimal-Lacks : (b n : ℕ) → b < b'0' → Lacks b (decimal n)
decimal-Lacks b n low = go (decimal n) (decimal-IsNumber n)
  where
    go : (t : Text) → IsNumber t → Lacks b t
    go _ (number c s h all) = digits_lack b (c ∷ s) low (h, all)
