-- ===== src/Cpu/CoreId/Loop.antt =====
-- cpu.go, the loop of extractCoreID on an int64 that wraps around, as a relation.
use teleskop.Common.{
  ℕ, zero, suc, ◌+◌, ◌-◌, ◌^◌, ◌≤◌, ◌<◌, ◌≡◌, ap, refl, Bool, true, false, List, [], ◌∷◌, arith,
  leb, ◌==◌, if◌then◌else◌, Bool-cases, inl, inr,
}
use teleskop.Cpu.CoreId.{count_up, rounds_between}
use teleskop.Go.Error.{ok}
use teleskop.Go.Int.{ℤ, pos, negsuc, next, uint32, parse_int}
use teleskop.Go.Int.Print.{parse_int_bounds}
use teleskop.Go.Text.{Text}
use teleskop.Go.Text.Split.{Lacks}

-- i <= end
unfoldable pub le_int : ℤ → ℤ → Bool
le_int (pos a) (pos b) = leb a b
le_int (pos a) (negsuc b) = false
le_int (negsuc a) (pos b) = true
le_int (negsuc a) (negsuc b) = leb b a

-- i++: behind the greatest int64 comes the least.
unfoldable pub next_int64 : ℤ → ℤ
next_int64 (pos n) = if n == 2 ^ 63 - 1 then negsuc (2 ^ 63 - 1) else pos (n + 1)
next_int64 (negsuc zero) = pos 0
next_int64 (negsuc (suc n)) = negsuc n

-- From i on, the loop ends with these cores appended.
pub data Loop (end : ℤ) : ℤ → List ℕ → Type 0 where
  leave : {i : ℤ} → le_int i end ≡ false → Loop end i []
  round :
      {i : ℤ} {ids : List ℕ}
      → le_int i end ≡ true
      → Loop end (next_int64 i) ids
      → Loop end i (uint32 i ∷ ids)

le_int-false : (a b : ℕ) → b < a → le_int (pos a) (pos b) ≡ false
unfolding le_int
le_int-false a b h = ground arith

le_int-true : (a b : ℕ) → a ≤ b → le_int (pos a) (pos b) ≡ true
unfolding le_int
le_int-true a b h = ground arith

next_int64-small : (a : ℕ) → a < 2 ^ 31 → next_int64 (pos a) ≡ pos (a + 1)
unfolding next_int64
next_int64-small a h = ground arith

run_up : (n a b : ℕ) → b + 1 ≡ a + n → a + n ≤ 2 ^ 31 → Loop (pos b) (pos a) (count_up n (pos a))
unfolding count_up next
run_up zero a b e small = Loop.leave (le_int-false a b (omega arith))
run_up (suc n) a b e small =
    Loop.round (le_int-true a b (omega arith))
      (rw (next_int64-small a (omega arith)) (run_up n (a + 1) b (omega arith) (omega arith)))

none_up :
    (a b : ℕ) → b < a → Loop (pos b) (pos a) (count_up (rounds_between (pos a) (pos b)) (pos a))
unfolding count_up
none_up a b h =
    let nothing : rounds_between (pos a) (pos b) ≡ 0 = omega arith in
    rw nothing (Loop.leave (le_int-false a b h))

rounds_up :
    (a b : ℕ)
    → a < 2 ^ 31
    → b < 2 ^ 31
    → Loop (pos b) (pos a) (count_up (rounds_between (pos a) (pos b)) (pos a))
rounds_up a b ha hb = elim (Bool-cases (leb a b)) [
  | inl up ↦ run_up (rounds_between (pos a) (pos b)) a b (ground arith) (ground arith)
  | inr down ↦ none_up a b (ground arith)
]

one_end : {end i : ℤ} {ids ids' : List ℕ} → Loop end i ids → Loop end i ids' → ids' ≡ ids
one_end (leave e) (leave e') = refl
one_end (leave e) (round e' l') = cc
one_end (round e l) (leave e') = cc
one_end {i = i} (round e l) (round e' l') = ap (λ (ids : List ℕ). uint32 i ∷ ids) (one_end l l')

-- Between two numbers that ParseInt has read from parts of a text between dashes, the loop of extractCoreID
-- comes to an end, before its counter wraps around, and appends the counted cores and nothing else.
pub extract_ends :
    (first second : Text) (start end : ℤ)
    → Lacks b'-' first
    → Lacks b'-' second
    → parse_int first ≡ ok start
    → parse_int second ≡ ok end
    → Loop end start (count_up (rounds_between start end) start)
      × ((ids : List ℕ) → Loop end start ids → ids ≡ count_up (rounds_between start end) start)
extract_ends first second start end lacks lacks' h h' =
    let (a, is_a, small) = parse_int_bounds first start lacks h in
    let (b, is_b, small') = parse_int_bounds second end lacks' h' in
    let ends : Loop end start (count_up (rounds_between start end) start) =
      rw (is_a, is_b) (rounds_up a b small small') in
    (ends, λ ids other. one_end ends other)
