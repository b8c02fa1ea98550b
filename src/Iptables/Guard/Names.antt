-- ===== src/Iptables/Guard/Names.antt =====
-- iptables.go: the names that the agent's calls are about.
use teleskop.Common.{◌≡◌, refl, false, ◌++◌, eq_bytes, arith, length, ◌≤◌}
use teleskop.Go.Text.{Text, codes, has_prefix}
use teleskop.Iptables.Chain.{
  chain_input, chain_forward, chain_callisto_sg_fallback, chain_callisto_sg, chain_callisto_input,
  chain_callisto_forward, get_valid_chain_name,
}
use teleskop.Iptables.Chain.Names.{get_valid_chain_name_lem}
use teleskop.Iptables.Guard.{IsForeign, IsOwn, differs}
use teleskop.Iptables.Rules.{
  Link, get_input_chain_name, get_output_chain_name, get_source_chain_name,
}

abbrev pub IsKnown : Text → Type 0
IsKnown name = (k : Text) → IsForeign k → eq_bytes k name ≡ false

-- The names of an interface's chains are the agent's.
IsOwn-prefix :
    (prefix val : Text)
    → length prefix ≤ 29
    → ((t : Text) → IsOwn (prefix ++ t))
    → IsOwn (get_valid_chain_name prefix val)
IsOwn-prefix prefix val fits own = rw (get_valid_chain_name_lem prefix val fits) (own _)

pub IsOwn-input : (intf : Link) → IsOwn (get_input_chain_name intf)
unfolding get_input_chain_name codes has_prefix
IsOwn-input intf = IsOwn-prefix _ intf.name (omega arith) (λ t. refl)

pub IsOwn-output : (intf : Link) → IsOwn (get_output_chain_name intf)
unfolding get_output_chain_name codes has_prefix
IsOwn-output intf = IsOwn-prefix _ intf.name (omega arith) (λ t. refl)

pub IsOwn-source : (intf : Link) → IsOwn (get_source_chain_name intf)
unfolding get_source_chain_name codes has_prefix
IsOwn-source intf = IsOwn-prefix _ intf.name (omega arith) (λ t. refl)

pub IsOwn-sg : IsOwn chain_callisto_sg
unfolding codes has_prefix
IsOwn-sg = refl

pub IsOwn-forward : IsOwn chain_callisto_forward
unfolding codes has_prefix
IsOwn-forward = refl

pub IsOwn-callisto_input : IsOwn chain_callisto_input
unfolding codes has_prefix
IsOwn-callisto_input = refl

pub IsOwn-fallback : IsOwn chain_callisto_sg_fallback
unfolding codes has_prefix
IsOwn-fallback = refl

pub IsKnown-own : (name : Text) → IsOwn name → IsKnown name
IsKnown-own name own k f = differs k name f.not_own own

pub IsKnown-input : IsKnown chain_input
IsKnown-input k f = f.not_input

pub IsKnown-forward : IsKnown chain_forward
IsKnown-forward k f = f.not_forward
