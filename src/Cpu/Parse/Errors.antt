-- ===== src/Cpu/Parse/Errors.antt =====
-- The texts that ParseNodeList refuses.
use teleskop.Common.{ℕ, suc, ◌≤◌, ◌≡◌, refl, List, [], ◌∷◌, arith, length, ◌==◌, if◌then◌else◌}
use teleskop.Cpu.Parse.{invalid_numa_topology, parse_lists, parse_node_list}
use teleskop.Go.Error.{err}
use teleskop.Go.Text.{Text, prepend, split}

-- The number of separators in a text.
unfoldable pub count : ℕ → Text → ℕ
count sep [] = 0
count sep (c ∷ s) = if c == sep then suc (count sep s) else count sep s

length-prepend : (c : ℕ) (ps : List Text) → 1 ≤ length ps → length (prepend c ps) ≡ length ps
unfolding prepend
length-prepend c [] h = absurd (omega arith)
length-prepend c (p ∷ ps) h = refl

length-split : (sep : ℕ) (s : Text) → length (split s sep) ≡ suc (count sep s)
unfolding split count
length-split sep [] = refl
length-split sep (c ∷ s) = ground (arith, length-prepend c (split s sep), length-split sep s)

parse_many : (lists : List Text) → 3 ≤ length lists → parse_lists lists ≡ err invalid_numa_topology
unfolding parse_lists
parse_many [] h = refl
parse_many (a ∷ []) h = absurd (omega arith)
parse_many (a ∷ b ∷ []) h = absurd (omega arith)
parse_many (a ∷ b ∷ c ∷ rest) h = refl

-- A text with two or more commas is an invalid topology, whatever stands between them.
pub parse_too_many :
    (cpulist : Text) → 2 ≤ count b',' cpulist → parse_node_list cpulist ≡ err invalid_numa_topology
unfolding parse_node_list
parse_too_many cpulist h =
    parse_many (split cpulist b',') (omega (arith, length-split b',' cpulist))
