-- ===== src/Cpu/Tests.antt =====
-- Inputs of cpu_test.go, and the theorems at concrete lists.
use teleskop.Common.{List, ℕ, ◌≡◌, ◌≤◌, ◌≢◌, ◌⊎◌, refl, some, none, [], ◌∷◌, ◌++◌, arith, All}
use teleskop.Cpu.CoreId.{count_up, extract_parts, extract_core_id}
use teleskop.Cpu.CoreId.{rounds_between}
use teleskop.Cpu.CoreId.Loop.{Loop, extract_ends}
use teleskop.Cpu.CoreId.Range.{enumerate, range_text, extract_range}
use teleskop.Cpu.CoreId.Sound.{IsRun, extract_core_id-IsRun}
use teleskop.Cpu.Node.{NumaNode, new_node, invalid_core_list}
use teleskop.Cpu.Node.Bounds.{InRange, Holds, new_node_bounds, new_node_pairs}
use teleskop.Cpu.Node.Pointers.{new_node_last}
use teleskop.Cpu.Parse.{
  invalid_numa_topology, lone_pairs, parse_lists, parse_one_node_line, parse_two_node_list,
  parse_node_list,
}
use teleskop.Cpu.Parse.Errors.{count, parse_too_many}
use teleskop.Cpu.Parse.Kernel.{kernel_text, IsNodeOf, parse_kernel_text}
use teleskop.Cpu.Parse.Pointers.{parse_two_last}
use teleskop.Go.Error.{ok, err}
use teleskop.Go.Int.{pos, parse_int}
use teleskop.Go.Space.{is_ascii_space, trim_space}
use teleskop.Go.Text.{codes, split, prepend, decimal}

-- The node of a list of two cores with two other threads.
abbrev small_node : NumaNode
small_node = record {
  pairs =
      record { physical_core = 2; logical_core = some 6 }
      ∷ record { physical_core = 3; logical_core = some 7 }
      ∷ [];
  physical_core_min = 2;
  physical_core_max = 3;
  logical_core_min = some 7;
  logical_core_max = some 7;
}

parse_small : parse_node_list (codes "2-3,6-7") ≡ ok small_node
unfolding parse_node_list parse_lists parse_two_node_list extract_core_id extract_parts count_up
    trim_space split prepend parse_int new_node codes
parse_small = refl

-- cpu_test.go wants an error here.
parse_lone :
    parse_node_list (codes "0-1")
    ≡ ok (record {
      pairs =
          record { physical_core = 0; logical_core = none }
          ∷ record { physical_core = 1; logical_core = none }
          ∷ [];
      physical_core_min = 0;
      physical_core_max = 1;
      logical_core_min = none;
      logical_core_max = none;
    })
unfolding parse_node_list parse_lists parse_one_node_line extract_core_id extract_parts count_up
    trim_space split prepend parse_int lone_pairs new_node codes
parse_lone = refl

kernel_small : kernel_text 0 1 48 49 ≡ codes "0-1,48-49\n"
unfolding decimal codes
kernel_small = refl

new_small : new_node (2 ∷ 3 ∷ []) (6 ∷ 7 ∷ []) ≡ ok small_node
unfolding new_node
new_small = refl

new_node_bounds_example : All (InRange small_node) (2 ∷ 3 ∷ []) × (1 ≤ 2) × (3 ≤ 5)
new_node_bounds_example =
    new_node_bounds (2 ∷ 3 ∷ []) (6 ∷ 7 ∷ []) 1 5 new_small (omega arith) (omega arith)

new_node_pairs_example :
    (◌≢◌ {A = ℕ} 2 1 × (new_node (2 ∷ 3 ∷ []) (6 ∷ []) ≡ err invalid_core_list))
    ⊎ ((node : NumaNode) × (new_node (2 ∷ 3 ∷ []) (6 ∷ []) ≡ ok node)
        × Holds (2 ∷ 3 ∷ []) (6 ∷ []) node.pairs)
new_node_pairs_example = new_node_pairs (2 ∷ 3 ∷ []) (6 ∷ [])

new_node_last_example :
    (small_node.logical_core_min ≡ some 7) × (small_node.logical_core_max ≡ some 7)
new_node_last_example = new_node_last (2 ∷ 3 ∷ []) 6 (7 ∷ []) (omega arith) new_small

extract_range_example : extract_core_id (range_text 4 6 ++ 10 ∷ []) ≡ ok (enumerate 4 3)
unfolding is_ascii_space
extract_range_example = extract_range 4 2 (10 ∷ []) (omega arith) (refl, tt)

-- Text behind a second dash is not read, and an end below the start gives no core.
extract_odd :
    (extract_core_id (codes " 1-2-x ") ≡ ok (1 ∷ 2 ∷ [])) × (extract_core_id (codes "3-2") ≡ ok [])
unfolding extract_core_id extract_parts count_up trim_space split prepend parse_int codes
extract_odd = (refl, refl)

extract_four : extract_core_id (codes "4-5") ≡ ok (4 ∷ 5 ∷ [])
unfolding extract_core_id extract_parts count_up trim_space split prepend parse_int codes
extract_four = refl

extract_core_id-IsRun_example : IsRun (4 ∷ 5 ∷ [])
extract_core_id-IsRun_example = extract_core_id-IsRun (codes "4-5") (4 ∷ 5 ∷ []) extract_four

parse_kernel_text_example :
    (node : NumaNode) × (parse_node_list (kernel_text 0 23 48 71) ≡ ok node) × IsNodeOf 0 48 23 node
parse_kernel_text_example = parse_kernel_text 0 48 23 (omega arith) (omega arith)

parse_too_many_example : parse_node_list (codes "0-3,8,x") ≡ err invalid_numa_topology
parse_too_many_example = parse_too_many (codes "0-3,8,x") (unfold codes count in omega arith)

extract_second : extract_core_id (codes "6-7") ≡ ok (6 ∷ 7 ∷ [])
unfolding extract_core_id extract_parts count_up trim_space split prepend parse_int codes
extract_second = refl

parse_pair_small : parse_two_node_list (codes "2-3" ∷ codes "6-7" ∷ []) ≡ ok small_node
unfolding parse_two_node_list extract_core_id extract_parts count_up trim_space split prepend
    parse_int new_node codes
parse_pair_small = refl

parse_two_last_example :
    (small_node.logical_core_min ≡ some 7) × (small_node.logical_core_max ≡ some 7)
parse_two_last_example =
    parse_two_last (codes "2-3") (codes "6-7") 6 (7 ∷ []) extract_second parse_pair_small

extract_ends_example :
    Loop (pos 5) (pos 4) (count_up (rounds_between (pos 4) (pos 5)) (pos 4))
    × ((ids : List ℕ)
        → Loop (pos 5) (pos 4) ids
        → ids ≡ count_up (rounds_between (pos 4) (pos 5)) (pos 4))
extract_ends_example =
    extract_ends (codes "4") (codes "5") (pos 4) (pos 5) (unfold codes in ground arith)
      (unfold codes in ground arith) (unfold parse_int codes in refl)
      (unfold parse_int codes in refl)
