-- ===== src/Vm/Pinning.antt =====
-- virtual_machine.go: the cpuset text of a pinning group, read word by word.
use teleskop.Common.{◌≡◌, refl, List, [], ◌∷◌, ◌++◌, arith, eq_bytes, false}
use teleskop.Go.Text.{Text, codes, decimal, join, split}
use teleskop.Go.Text.Digits.{IsNumber, number, decimal-IsNumber, decimal-Lacks}
use teleskop.Go.Text.Split.{split-append, split-Lacks_whole}
use teleskop.Vm.Libvirt.{PinnedPair}
use teleskop.Vm.Handlers.{pin_pair, pin_pairs}

-- The cores of the pairs, the last pair first, in front of other words.
abbrev pub core_words : List PinnedPair → List Text → List Text
core_words [] words = words
core_words (pair ∷ pairs) words =
    core_words pairs (decimal pair.physical_core ∷ decimal pair.logical_core ∷ words)

number_ne : (s t : Text) → IsNumber s → eq_bytes (s ++ t) [] ≡ false
unfolding eq_bytes
number_ne _ t (number c s h all) = refl

pin_pair_ne : (cpuset : Text) (pair : PinnedPair) → eq_bytes (pin_pair cpuset pair) [] ≡ false
unfolding pin_pair join eq_bytes
pin_pair_ne [] pair = number_ne (decimal pair.physical_core) _ (decimal-IsNumber pair.physical_core)
pin_pair_ne (c ∷ s) pair =
    number_ne (decimal pair.physical_core) _ (decimal-IsNumber pair.physical_core)

split-pin_pair_first :
    (pair : PinnedPair)
    → split (pin_pair [] pair) b',' ≡ decimal pair.physical_core ∷ decimal pair.logical_core ∷ []
unfolding pin_pair join codes eq_bytes
split-pin_pair_first pair =
    rw
      (
        split-append b',' (decimal pair.physical_core) (decimal pair.logical_core)
            (decimal-Lacks b',' pair.physical_core (omega arith)),
        split-Lacks_whole b',' (decimal pair.logical_core)
            (decimal-Lacks b',' pair.logical_core (omega arith)),
      )
      refl

split-pin_pair :
    (cpuset : Text) (pair : PinnedPair)
    → eq_bytes cpuset [] ≡ false
    → split (pin_pair cpuset pair) b','
      ≡ decimal pair.physical_core ∷ decimal pair.logical_core ∷ split cpuset b','
unfolding pin_pair join codes
split-pin_pair cpuset pair some_words =
    rw
      (
        some_words,
        split-append b',' (decimal pair.physical_core) (decimal pair.logical_core ++ b',' ∷ cpuset)
            (decimal-Lacks b',' pair.physical_core (omega arith)),
        split-append b',' (decimal pair.logical_core) cpuset
            (decimal-Lacks b',' pair.logical_core (omega arith)),
      )
      refl

split-pin_pairs :
    (pairs : List PinnedPair) (cpuset : Text)
    → eq_bytes cpuset [] ≡ false
    → split (pin_pairs cpuset pairs) b',' ≡ core_words pairs (split cpuset b',')
unfolding pin_pairs
split-pin_pairs [] cpuset h = refl
split-pin_pairs (pair ∷ pairs) cpuset h =
    rw
      (
        split-pin_pairs pairs (pin_pair cpuset pair) (pin_pair_ne cpuset pair),
        split-pin_pair cpuset pair h,
      )
      refl

-- The cpuset of a pinning group with a pair is, between its commas, the number of each physical core
-- and the address of that of its logical core, the last pair first.
pub pin_pairs_words :
    (pair : PinnedPair) (pairs : List PinnedPair)
    → split (pin_pairs [] (pair ∷ pairs)) b',' ≡ core_words (pair ∷ pairs) []
unfolding pin_pairs
pin_pairs_words pair pairs =
    rw (split-pin_pairs pairs (pin_pair [] pair) (pin_pair_ne [] pair), split-pin_pair_first pair)
      refl
