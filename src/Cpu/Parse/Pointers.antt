-- ===== src/Cpu/Parse/Pointers.antt =====
-- The logical bounds of every node with logical cores.
use teleskop.Common.{
  ℕ, zero, suc, ◌+◌, ◌^◌, ◌≤◌, ◌<◌, ◌≡◌, some, List, [], ◌∷◌, arith, length, last_or, ◌==◌, not,
  if◌then◌else◌,
}
use teleskop.Cpu.CoreId.{extract_core_id}
use teleskop.Cpu.CoreId.Range.{enumerate}
use teleskop.Cpu.CoreId.Sound.{IsRun, extract_core_id-IsRun}
use teleskop.Cpu.Node.{NumaNode, new_node}
use teleskop.Cpu.Node.Pointers.{new_node_last}
use teleskop.Cpu.Parse.{parse_two_node_list, invalid_cpu_list}
use teleskop.Go.Error.{Outcome, ok, err, panic, ◌>>=◌}
use teleskop.Go.Int.{max_uint32}
use teleskop.Go.Text.{Text}

run_first : (l : ℕ) (ls : List ℕ) → IsRun (l ∷ ls) → l < max_uint32
unfolding enumerate
run_first l ls run = go run.first run.count run.cores run.fits
  where
    go : (a n : ℕ) → l ∷ ls ≡ enumerate a n → a + n ≤ 2 ^ 31 → l < max_uint32
    go a zero e fits = cc
    go a (suc n) e fits = ground arith

accepted :
    (m n : Outcome (List ℕ)) (ls : List ℕ) {node : NumaNode}
    → n ≡ ok ls
    → (m >>= λ list1. n >>= λ list2.
        if not (length list1 == length list2) then err invalid_cpu_list else new_node list1 list2)
      ≡ ok node
    → (ps : List ℕ) × (new_node ps ls ≡ ok node)
accepted (ok ps) (ok list2) ls e h = (ps, ground arith)
accepted (ok ps) (err x) ls e h = cc
accepted (ok ps) panic ls e h = cc
accepted (err x) n ls e h = cc
accepted panic n ls e h = cc

-- Whatever two lists of cores ParseNodeList accepts, the least and the greatest logical core of the node
-- are one and the same: the last core of the second list, where that is not empty.
pub parse_two_last :
    (line1 line2 : Text) (l : ℕ) (ls : List ℕ) {node : NumaNode}
    → extract_core_id line2 ≡ ok (l ∷ ls)
    → parse_two_node_list (line1 ∷ line2 ∷ []) ≡ ok node
    → (node.logical_core_min ≡ some (last_or l ls)) × (node.logical_core_max ≡ some (last_or l ls))
unfolding parse_two_node_list
parse_two_last line1 line2 l ls {node} second h =
    let (ps, built) = accepted (extract_core_id line1) (extract_core_id line2) (l ∷ ls) second h in
    new_node_last ps l ls (run_first l ls (extract_core_id-IsRun line2 (l ∷ ls) second)) built
