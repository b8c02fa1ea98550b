-- ===== src/Cpu/CoreId/Range.antt =====
-- The cores that extractCoreID reads from a printed range.
use mathlib.Core.List.{reverse}
use teleskop.Common.{
  ℕ, zero, suc, ◌+◌, ◌^◌, ◌≤◌, ◌<◌, ◌≡◌, refl, true, List, [], ◌∷◌, ◌++◌, append_assoc, arith, All,
  ap, ◌∙◌, length, last_or,
}
use teleskop.Cpu.CoreId.{count_up, extract_parts, extract_core_id}
use teleskop.Go.Error.{ok}
use teleskop.Go.Int.{pos}
use teleskop.Go.Int.Print.{parse_int-decimal}
use teleskop.Go.Space.{is_ascii_space, trim_space}
use teleskop.Go.Space.Trim.{trim_space-append}
use teleskop.Go.Text.{Text, decimal}
use teleskop.Go.Text.Digits.{IsDigit, IsNumber, number, decimal-IsNumber, decimal-Lacks}
use teleskop.Go.Text.Split.{split-Lacks_whole, split-append}

-- a, a + 1, … , n numbers.
unfoldable pub enumerate : ℕ → ℕ → List ℕ
enumerate a zero = []
enumerate a (suc n) = a ∷ enumerate (a + 1) n

-- The kernel's form of a range of cores, a-b.
abbrev pub range_text : ℕ → ℕ → Text
range_text a b = decimal a ++ b'-' ∷ decimal b

pub count_up-enumerate : (n a : ℕ) → a + n ≤ 2 ^ 32 → count_up n (pos a) ≡ enumerate a n
unfolding count_up enumerate
count_up-enumerate zero a h = refl
count_up-enumerate (suc n) a h = ground (arith, count_up-enumerate n (a + 1))

-- The last byte of a number.
number_end :
    (c : ℕ) (s : Text)
    → All IsDigit (c ∷ s)
    → (back : Text) × (d : ℕ) × (c ∷ s ≡ back ++ d ∷ []) × IsDigit d
number_end c [] (h, _) = ([], c, refl, h)
number_end c (b ∷ s) (h, all) =
    let (back, d, e, hd) = number_end b s all in (c ∷ back, d, ap (λ (t : Text). c ∷ t) e, hd)

trim_numbers :
    (s t spaces : Text)
    → IsNumber s
    → IsNumber t
    → All (λ c. is_ascii_space c ≡ true) (reverse spaces)
    → trim_space ((s ++ b'-' ∷ t) ++ spaces) ≡ s ++ b'-' ∷ t
trim_numbers _ _ spaces (number c s hc hs) (number b t hb ht) all =
    let (back, d, e, hd) = number_end b t (hb, ht) in
    trim_space-append c (s ++ b'-' ∷ b ∷ t) (c ∷ s ++ b'-' ∷ back) d spaces (rw (e, append_assoc))
      (omega arith) (omega arith) all

-- extractCoreID reads the printed range of n + 1 cores from a, with white space behind it, as those
-- cores in order.
pub extract_range :
    (a n : ℕ) (spaces : Text)
    → a + n < 2 ^ 31
    → All (λ c. is_ascii_space c ≡ true) (reverse spaces)
    → extract_core_id (range_text a (a + n) ++ spaces) ≡ ok (enumerate a (suc n))
unfolding extract_core_id extract_parts
extract_range a n spaces fits all =
    let b = a + n in
    rw (trim_numbers (decimal a) (decimal b) spaces (decimal-IsNumber a) (decimal-IsNumber b) all) (
      rw (split-append b'-' (decimal a) (decimal b) (decimal-Lacks b'-' a (omega arith))) (
        rw (split-Lacks_whole b'-' (decimal b) (decimal-Lacks b'-' b (omega arith))) (
          rw (parse_int-decimal a (omega arith), parse_int-decimal b fits)
            (ap ok (
              ap (λ (k : ℕ). count_up k (pos a)) (omega arith)
              ∙ count_up-enumerate (suc n) a (omega arith))))))

pub length-enumerate : (n a : ℕ) → length (enumerate a n) ≡ n
unfolding enumerate
length-enumerate zero a = refl
length-enumerate (suc n) a = ap suc (length-enumerate n (a + 1))

pub enumerate_within : (n a hi : ℕ) → a + n ≤ hi + 1 → All (λ c. (a ≤ c) × (c ≤ hi)) (enumerate a n)
unfolding enumerate
enumerate_within zero a hi h = tt
enumerate_within (suc n) a hi h =
    (omega arith, weaken (enumerate (a + 1) n) (enumerate_within n (a + 1) hi (omega arith)))
  where
    weaken : (l : List ℕ) → All (λ c. (a + 1 ≤ c) × (c ≤ hi)) l → All (λ c. (a ≤ c) × (c ≤ hi)) l
    weaken [] h = tt
    weaken (x ∷ l) (h, hs) = (omega arith, weaken l hs)

pub last-enumerate : (n a : ℕ) → last_or a (enumerate (a + 1) n) ≡ a + n
unfolding enumerate
last-enumerate zero a = omega arith
last-enumerate (suc n) a = last-enumerate n (a + 1) ∙ omega arith

-- What holds of all elements holds of the last.
pub All-last {κ} : (P : ℕ → Type κ) (d : ℕ) (l : List ℕ) → P d → All P l → P (last_or d l)
All-last P d [] h all = h
All-last P d (x ∷ l) h (hx, all) = All-last P x l hx all
