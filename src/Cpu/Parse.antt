-- ===== src/Cpu/Parse.antt =====
-- cpu.go, ParseNodeList and its two cases.
pub mod Kernel
pub mod Errors
pub mod Pointers
use teleskop.Common.{ℕ, none, List, [], ◌∷◌, length, ◌==◌, if◌then◌else◌, not}
use teleskop.Cpu.CoreId.{extract_core_id}
use teleskop.Cpu.Node.{CorePair, NumaNode, empty_node, widen_all, new_node}
use teleskop.Go.Error.{Error, plain, Outcome, ok, err, ◌>>=◌}
use teleskop.Go.Int.{max_uint32}
use teleskop.Go.Text.{Text, split}

abbrev pub invalid_numa_topology : Error
invalid_numa_topology = plain "invalid NUMA topology"

abbrev pub invalid_cpu_list : Error
invalid_cpu_list = plain "invalid cpu list"

unfoldable pub lone_pairs : List ℕ → List CorePair
lone_pairs [] = []
lone_pairs (core ∷ rest) = record { physical_core = core; logical_core = none } ∷ lone_pairs rest

unfoldable pub parse_one_node_line : List Text → Outcome NumaNode
parse_one_node_line (line ∷ []) = do
  list ← extract_core_id line
  ok (record (widen_all list empty_node) { pairs = lone_pairs list })
parse_one_node_line _ = err invalid_numa_topology

unfoldable pub parse_two_node_list : List Text → Outcome NumaNode
parse_two_node_list (line1 ∷ line2 ∷ []) = do
  list1 ← extract_core_id line1
  list2 ← extract_core_id line2
  if not (length list1 == length list2) then err invalid_cpu_list else new_node list1 list2
parse_two_node_list _ = err invalid_numa_topology

-- The switch on the number of lists.
unfoldable pub parse_lists : List Text → Outcome NumaNode
parse_lists (line ∷ []) = parse_one_node_line (line ∷ [])
parse_lists (line1 ∷ line2 ∷ []) = parse_two_node_list (line1 ∷ line2 ∷ [])
parse_lists _ = err invalid_numa_topology

unfoldable pub parse_node_list : Text → Outcome NumaNode
parse_node_list cpulist = parse_lists (split cpulist b',')
