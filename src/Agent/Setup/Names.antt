-- ===== src/Agent/Setup/Names.antt =====
-- The names of VLAN interfaces and of their parents.
use teleskop.Agent.Setup.{trim_vlan_id}
use teleskop.Common.{ℕ, ◌≡◌, refl, true, [], ◌∷◌, ◌++◌, arith}
use teleskop.Go.Text.{Text, contains, decimal}
use teleskop.Go.Text.Split.{Lacks, split-append}
use teleskop.Network.Handlers.{vlan_name}

contains-middle : (b : ℕ) (s t : Text) → contains (s ++ b ∷ t) b ≡ true
unfolding contains
contains-middle b [] t = ground arith
contains-middle b (c ∷ s) t = ground (arith, contains-middle b s t)

-- trimVlanID takes off what "%s.%d" has put behind the name of a parent without a dot.
pub trim_vlan_id-vlan_name :
    (parent : Text) (id : ℕ) → Lacks b'.' parent → trim_vlan_id (vlan_name parent id) ≡ parent
unfolding trim_vlan_id vlan_name
trim_vlan_id-vlan_name parent id lacks =
    rw (contains-middle b'.' parent (decimal id), split-append b'.' parent (decimal id) lacks) refl
