-- ===== src/Cpu/Node/Pointers.antt =====
-- The pointers of a node to its least and greatest logical core.
use teleskop.Common.{ℕ, ◌<◌, ◌≡◌, some, List, [], ◌∷◌, arith, last_or}
use teleskop.Cpu.Node.{
  Logical, own_variable, loop_variable, deref, NumaNode, visit, visit_all, start_vars, new_node,
}
use teleskop.Go.Int.{max_uint32}
use teleskop.Go.Error.{ok}

-- A pointer that has moved to the loop's variable stays there.
visit_all-min_stays :
    (cores : List ℕ) (vars : Logical)
    → vars.min_target ≡ loop_variable
    → ((visit_all cores vars).min_target ≡ loop_variable)
      × ((visit_all cores vars).lc ≡ last_or vars.lc cores)
unfolding visit_all
visit_all-min_stays [] vars h = ground arith
visit_all-min_stays (core ∷ rest) vars h =
    ground (arith, visit_all-min_stays rest (visit core vars))

visit_all-max_stays :
    (cores : List ℕ) (vars : Logical)
    → vars.max_target ≡ loop_variable
    → deref 0 (visit_all cores vars).lc (visit_all cores vars).max_target ≡ last_or vars.lc cores
unfolding visit_all
visit_all-max_stays [] vars h = ground arith
visit_all-max_stays (core ∷ rest) vars h =
    ground (arith, visit_all-max_stays rest (visit core vars))

visit_all-max :
    (cores : List ℕ) (vars : Logical)
    → vars.max_target ≡ own_variable
    → vars.lc ≡ 0
    → deref 0 (visit_all cores vars).lc (visit_all cores vars).max_target ≡ last_or 0 cores
unfolding visit_all
visit_all-max [] vars h z = ground arith
visit_all-max (core ∷ rest) vars h z =
    ground (arith, visit_all-max rest (visit core vars), visit_all-max_stays rest (visit core vars))

-- When the least logical core is below 2^32 - 1 at the first element, NewNode's pointers to the least and to the greatest logical core both show
-- the last element of the list, whatever the others are: they point to the loop's variable.
pub new_node_last :
    (ps : List ℕ) (first : ℕ) (rest : List ℕ) {node : NumaNode}
    → first < max_uint32
    → new_node ps (first ∷ rest) ≡ ok node
    → (node.logical_core_min ≡ some (last_or first rest))
      × (node.logical_core_max ≡ some (last_or first rest))
unfolding new_node
new_node_last ps first rest fits h = ground (
  arith,
  visit_all-min_stays rest (visit first start_vars),
  visit_all-max (first ∷ rest) start_vars,
)
