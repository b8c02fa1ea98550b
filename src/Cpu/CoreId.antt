-- ===== src/Cpu/CoreId.antt =====
-- cpu.go, extractCoreID.
pub mod Range
pub mod Sound
pub mod Loop
use teleskop.Common.{ℕ, zero, suc, ◌+◌, ◌-◌, List, [], ◌∷◌}
use teleskop.Go.Error.{Outcome, ok, ◌>>=◌}
use teleskop.Go.Int.{ℤ, pos_part, neg_part, next, uint32, parse_int}
use teleskop.Go.Space.{trim_space}
use teleskop.Go.Text.{Text, split}

-- `for i := start; i <= end; i++`, by the number of rounds.
unfoldable pub count_up : ℕ → ℤ → List ℕ
unfolding next uint32
count_up zero i = []
count_up (suc rounds) i = uint32 i ∷ count_up rounds (next i)

-- The rounds of that loop: end - start + 1, or none if end < start.
abbrev pub rounds_between : ℤ → ℤ → ℕ
rounds_between start end = pos_part end + neg_part start + 1 - (pos_part start + neg_part end)

-- What extractCoreID does with the trimmed text and its parts between dashes. Parts after the
-- second are not read.
unfoldable pub extract_parts : Text → List Text → Outcome (List ℕ)
extract_parts s (first ∷ second ∷ _) = do
  start ← parse_int first
  end ← parse_int second
  ok (count_up (rounds_between start end) start)
extract_parts s _ = do n ← parse_int s; ok (uint32 n ∷ [])

unfoldable pub extract_core_id : Text → Outcome (List ℕ)
extract_core_id s = let t = trim_space s in extract_parts t (split t b'-')
