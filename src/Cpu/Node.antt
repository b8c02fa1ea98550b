-- ===== src/Cpu/Node.antt =====
-- cpu.go, NewNode and the loops over core numbers.
pub mod Bounds
pub mod Pointers
use teleskop.Common.{
  ℕ, ◌==◌, ◌≡◌, Option, none, some, List, [], ◌∷◌, length, ltb, if◌then◌else◌, not,
}
use teleskop.Go.Error.{Error, plain, Outcome, ok, err}
use teleskop.Go.Int.{max_uint32}

-- pb.CorePair and pb.NumaNode. A pointer that may be nil is an Option of what it points to when
-- the finished node is read.
pub record CorePair : Type 0 where
  pub physical_core : ℕ
  pub logical_core : Option ℕ

pub record NumaNode : Type 0 where
  pub pairs : List CorePair
  pub physical_core_min : ℕ
  pub physical_core_max : ℕ
  pub logical_core_min : Option ℕ
  pub logical_core_max : Option ℕ

-- The node before the loops, without its logical bounds.
abbrev pub empty_node : NumaNode
empty_node = record {
  pairs = [];
  physical_core_min = max_uint32;
  physical_core_max = 0;
  logical_core_min = none;
  logical_core_max = none;
}

-- One round of the loop over the physical cores.
unfoldable pub widen : ℕ → NumaNode → NumaNode
widen core node =
    let lower = if ltb core node.physical_core_min then core else node.physical_core_min in
    let upper = if ltb node.physical_core_max core then core else node.physical_core_max in
    record node { physical_core_min = lower; physical_core_max = upper }

unfoldable pub widen_all : List ℕ → NumaNode → NumaNode
unfolding widen
widen_all [] node = node
widen_all (core ∷ rest) node = widen_all rest (widen core node)

-- What a pointer of the node points to: the variable that it was made with (maxUint32 or zero), or
-- the variable lc of the loop. Go 1.15 has one lc for all rounds.
pub data Target : Type 0 where
  own_variable loop_variable : Target

-- The variables of the loop over the logical cores.
pub record Logical : Type 0 where
  pub lc : ℕ
  pub min_target : Target
  pub max_target : Target

unfoldable pub deref : ℕ → ℕ → Target → ℕ
deref own lc own_variable = own
deref own lc loop_variable = lc

-- A round assigns the shared variable first, so a pointer to it shows the new value in the tests.
unfoldable pub visit : ℕ → Logical → Logical
unfolding deref
visit core vars =
    let min' =
      if ltb core (deref max_uint32 core vars.min_target) then loop_variable else vars.min_target in
    let max' = if ltb (deref 0 core vars.max_target) core then loop_variable else vars.max_target in
    record { lc = core; min_target = min'; max_target = max' }

unfoldable pub visit_all : List ℕ → Logical → Logical
unfolding visit
visit_all [] vars = vars
visit_all (core ∷ rest) vars = visit_all rest (visit core vars)

abbrev pub start_vars : Logical
start_vars = record { lc = 0; min_target = own_variable; max_target = own_variable }

-- The pairs at each index; logical cores are pointed to in the slice.
unfoldable pub pair_up : List ℕ → List ℕ → List CorePair
pair_up (p ∷ ps) (l ∷ ls) = record { physical_core = p; logical_core = some l } ∷ pair_up ps ls
pair_up _ _ = []

abbrev pub invalid_core_list : Error
invalid_core_list = plain "invalid core list"

-- The node that NewNode fills, from lists of one length.
unfoldable pub fill_node : List ℕ → List ℕ → NumaNode
unfolding widen_all visit_all deref pair_up
fill_node physical logical =
    let vars = visit_all logical start_vars in
    record (widen_all physical empty_node) {
      logical_core_min = some (deref max_uint32 vars.lc vars.min_target);
      logical_core_max = some (deref 0 vars.lc vars.max_target);
      pairs = pair_up physical logical;
    }

unfoldable pub new_node : List ℕ → List ℕ → Outcome NumaNode
unfolding fill_node
new_node physical logical =
    if not (length physical == length logical)
    then err invalid_core_list
    else ok (fill_node physical logical)
