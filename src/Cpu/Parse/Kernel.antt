-- ===== src/Cpu/Parse/Kernel.antt =====
-- The text that the kernel prints for a node with two ranges of cores.
use teleskop.Common.{
  ℕ, suc, ◌+◌, ◌^◌, ◌<◌, ◌≡◌, refl, some, List, [], ◌∷◌, ◌++◌, append-nil, arith, ap, sym, ◌∙◌, inl,
  inr, length,
}
use teleskop.Cpu.CoreId.{extract_core_id}
use teleskop.Cpu.CoreId.Range.{
  enumerate, range_text, extract_range, length-enumerate, enumerate_within, last-enumerate,
  All-last,
}
use teleskop.Cpu.Node.{NumaNode, new_node}
use teleskop.Cpu.Node.Bounds.{InRange, Holds, new_node_bounds, new_node_pairs}
use teleskop.Cpu.Node.Pointers.{new_node_last}
use teleskop.Cpu.Parse.{parse_lists, parse_two_node_list, parse_node_list}
use teleskop.Go.Error.{ok}
use teleskop.Go.Space.{is_ascii_space}
use teleskop.Go.Text.{Text, decimal}
use teleskop.Go.Text.Digits.{decimal-Lacks}
use teleskop.Go.Text.Split.{Lacks, Lacks-append, split-Lacks_whole, split-append}

-- a-b,c-d and a line feed, as in /sys/devices/system/node/node0/cpulist.
abbrev pub kernel_text : ℕ → ℕ → ℕ → ℕ → Text
kernel_text a b c d = range_text a b ++ b',' ∷ (range_text c d ++ 10 ∷ [])

range_text-Lacks : (a b : ℕ) → Lacks b',' (range_text a b)
range_text-Lacks a b =
    Lacks-append b',' (decimal a) (b'-' ∷ decimal b) (decimal-Lacks b',' a (omega arith))
      (omega arith, decimal-Lacks b',' b (omega arith))

parse_pair :
    (s t : Text) {list1 list2 : List ℕ}
    → extract_core_id s ≡ ok list1
    → extract_core_id t ≡ ok list2
    → length list1 ≡ length list2
    → parse_lists (s ∷ t ∷ []) ≡ new_node list1 list2
unfolding parse_lists parse_two_node_list
parse_pair s t p q same = rw (p, q) (ground arith)

-- The node that NewNode makes of two ranges of n + 1 cores, which begin at a and at c. The least
-- logical core that it reports is the greatest one.
pub record IsNodeOf (a c n : ℕ) (node : NumaNode) : Type 0 where
  pub cores : Holds (enumerate a (suc n)) (enumerate c (suc n)) node.pairs
  pub physical_least : node.physical_core_min ≡ a
  pub physical_greatest : node.physical_core_max ≡ a + n
  pub logical_least : node.logical_core_min ≡ some (c + n)
  pub logical_greatest : node.logical_core_max ≡ some (c + n)

module _ (a c n : ℕ) (fits : a + n < 2 ^ 31) (fits' : c + n < 2 ^ 31) where
  describe :
      (node : NumaNode)
      → new_node (enumerate a (suc n)) (enumerate c (suc n)) ≡ ok node
      → Holds (enumerate a (suc n)) (enumerate c (suc n)) node.pairs
      → IsNodeOf a c n node
  unfolding enumerate
  describe node e holds =
      let (within, lo, hi) =
        new_node_bounds (enumerate a (suc n)) (enumerate c (suc n)) a (a + n) e (omega arith)
          (enumerate_within (suc n) a (a + n) (omega arith)) in
      let (_, top) = All-last (InRange node) a (enumerate (a + 1) n) within.0 within.1 in
      let (l, g) = new_node_last (enumerate a (suc n)) c (enumerate (c + 1) n) (omega arith) e in
      record {
        cores = holds;
        physical_least = omega arith;
        physical_greatest = omega (arith, last-enumerate n a);
        logical_least = l ∙ ap some (last-enumerate n c);
        logical_greatest = g ∙ ap some (last-enumerate n c);
      }

  IsNodeOf-ranges :
      (node : NumaNode) × (new_node (enumerate a (suc n)) (enumerate c (suc n)) ≡ ok node)
      × IsNodeOf a c n node
  IsNodeOf-ranges = elim (new_node_pairs (enumerate a (suc n)) (enumerate c (suc n))) [
    | inl (differ, _) ↦
        absurd (differ (length-enumerate (suc n) a ∙ sym (length-enumerate (suc n) c)))
    | inr (node, e, holds) ↦ (node, e, describe node e holds)
  ]

  parse_ranges :
      parse_node_list (kernel_text a (a + n) c (c + n))
      ≡ new_node (enumerate a (suc n)) (enumerate c (suc n))
  unfolding parse_node_list is_ascii_space
  parse_ranges =
      rw
        (split-append b',' (range_text a (a + n)) (range_text c (c + n) ++ 10 ∷ [])
          (range_text-Lacks a (a + n)))
        (rw
          (split-Lacks_whole b',' (range_text c (c + n) ++ 10 ∷ []) (
            Lacks-append b',' (range_text c (c + n)) (10 ∷ []) (range_text-Lacks c (c + n))
              (omega arith)))
          (parse_pair (range_text a (a + n)) (range_text c (c + n) ++ 10 ∷ [])
            (rw append-nil at (extract_range a n [] fits tt))
            (extract_range c n (10 ∷ []) fits' (refl, tt))
            (length-enumerate (suc n) a ∙ sym (length-enumerate (suc n) c))))

  -- ParseNodeList reads the kernel's text for two ranges of n + 1 cores, below 2^31, as a node whose
  -- pairs hold the ranges core by core, with the exact physical bounds. The node's least and greatest
  -- logical core are both the last core of the second range.
  pub parse_kernel_text :
      (node : NumaNode) × (parse_node_list (kernel_text a (a + n) c (c + n)) ≡ ok node)
      × IsNodeOf a c n node
  parse_kernel_text = let (node, e, is_node) = IsNodeOf-ranges in (node, parse_ranges ∙ e, is_node)
