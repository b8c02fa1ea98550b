-- ===== src/Cpu/Node/Bounds.antt =====
-- The physical bounds and the pairs of a node.
use native.Mathlib.Decide.{ℕ_discrete}
use teleskop.Common.{
  ℕ, ◌≤◌, ◌≡◌, ◌≢◌, ◌⊎◌, inl, inr, refl, some, List, [], ◌∷◌, map, arith, All, length,
}
use teleskop.Cpu.Node.{
  CorePair, NumaNode, empty_node, widen, widen_all, pair_up, fill_node, new_node, invalid_core_list,
}
use teleskop.Go.Error.{ok, err}
use teleskop.Go.Int.{max_uint32}

-- A node's physical range holds a core.
abbrev pub InRange : NumaNode → ℕ → Type 0
InRange node core = (node.physical_core_min ≤ core) × (core ≤ node.physical_core_max)

widen_all_grows :
    (cores : List ℕ) (node : NumaNode)
    → ((widen_all cores node).physical_core_min ≤ node.physical_core_min)
      × (node.physical_core_max ≤ (widen_all cores node).physical_core_max)
unfolding widen_all
widen_all_grows [] node = omega arith
widen_all_grows (core ∷ rest) node = ground (arith, widen_all_grows rest (widen core node))

pub widen_all-InRange :
    (cores : List ℕ) (node : NumaNode) → All (InRange (widen_all cores node)) cores
unfolding widen_all
widen_all-InRange [] node = tt
widen_all-InRange (core ∷ rest) node = (
  ground (arith, widen_all_grows rest (widen core node)),
  widen_all-InRange rest (widen core node),
)

-- The range is the smallest one.
pub widen_all_tight :
    (cores : List ℕ) (node : NumaNode) (lo hi : ℕ)
    → All (λ core. (lo ≤ core) × (core ≤ hi)) cores
    → lo ≤ node.physical_core_min
    → node.physical_core_max ≤ hi
    → (lo ≤ (widen_all cores node).physical_core_min)
      × ((widen_all cores node).physical_core_max ≤ hi)
unfolding widen_all
widen_all_tight [] node lo hi all p q = (p, q)
widen_all_tight (core ∷ rest) node lo hi (h, all) p q =
    ground (arith, widen_all_tight rest (widen core node) lo hi all)

new_node_fields :
    (ps ls : List ℕ) {node : NumaNode}
    → new_node ps ls ≡ ok node
    → (length ps ≡ length ls)
      × (node.physical_core_min ≡ (widen_all ps empty_node).physical_core_min)
      × (node.physical_core_max ≡ (widen_all ps empty_node).physical_core_max)
      × (node.pairs ≡ pair_up ps ls)
unfolding new_node
new_node_fields ps ls h = ground arith

All-bound :
    (ps : List ℕ) (node w : NumaNode)
    → node.physical_core_min ≡ w.physical_core_min
    → node.physical_core_max ≡ w.physical_core_max
    → All (InRange w) ps
    → All (InRange node) ps
All-bound [] node w p q all = tt
All-bound (x ∷ ps) node w p q (h, all) = (omega arith, All-bound ps node w p q all)

-- The physical bounds of a node that NewNode returns enclose every physical core, and lie within any
-- bounds of uint32 numbers that enclose them all.
pub new_node_bounds :
    (ps ls : List ℕ) (lo hi : ℕ) {node : NumaNode}
    → new_node ps ls ≡ ok node
    → lo ≤ max_uint32
    → All (λ core. (lo ≤ core) × (core ≤ hi)) ps
    → All (InRange node) ps × (lo ≤ node.physical_core_min) × (node.physical_core_max ≤ hi)
new_node_bounds ps ls lo hi {node} h fits all =
    let (_, p, q, _) = new_node_fields ps ls h in
    let (l, u) = widen_all_tight ps empty_node lo hi all fits (omega arith) in
    (
      All-bound ps node (widen_all ps empty_node) p q (widen_all-InRange ps empty_node),
      omega arith,
      omega arith,
    )

-- The pairs hold the two lists, core by core.
abbrev pub Holds : List ℕ → List ℕ → List CorePair → Type 0
Holds ps ls pairs =
    (map (λ (c : CorePair). c.physical_core) pairs ≡ ps)
    × (map (λ (c : CorePair). c.logical_core) pairs ≡ map some ls)

pub pair_up_lem : (ps ls : List ℕ) → length ps ≡ length ls → Holds ps ls (pair_up ps ls)
unfolding pair_up
pair_up_lem [] [] h = (refl, refl)
pair_up_lem [] (l ∷ ls) h = absurd (omega arith)
pair_up_lem (p ∷ ps) [] h = absurd (omega arith)
pair_up_lem (p ∷ ps) (l ∷ ls) h = ground (arith, pair_up_lem ps ls (omega arith))

-- NewNode fails exactly when the lists differ in length. Otherwise its pairs hold the two lists, core
-- by core.
pub new_node_pairs :
    (ps ls : List ℕ)
    → ((length ps ≢ length ls) × (new_node ps ls ≡ err invalid_core_list))
      ⊎ ((node : NumaNode) × (new_node ps ls ≡ ok node) × Holds ps ls node.pairs)
unfolding new_node
new_node_pairs ps ls = elim (ℕ_discrete (length ps) (length ls)) [
  | no differ ↦ inl (differ, ground arith)
  | yes same ↦ inr (fill_node ps ls, ground arith, pair_up_lem ps ls same)
]
