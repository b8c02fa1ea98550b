-- ===== src/Network/Netlink.antt =====
-- The functions of github.com/vishvananda/netlink, and the networks of the libvirt client, as
-- bridge.go, vlan.go and main.go call them.
use teleskop.Common.{ℕ, ⊤, Bool, List}
use teleskop.Go.Action.{Action}
use teleskop.Go.Error.{Outcome}
use teleskop.Go.Int.{ℤ}
use teleskop.Go.Text.{Text}

pub record Netlink (Host : Type 0) : Type 1 where
  -- netlink.Link, with what Attrs returns of it.
  pub Link : Type 0
  pub name : Link → Text
  pub index : Link → ℤ
  pub master_index : Link → ℤ
  -- The type assertion to *netlink.Veth.
  pub is_veth : Link → Bool
  -- &netlink.Veth of a name and the peer's name, and &netlink.Vlan (802.1Q) of a name, the parent's
  -- index and an id.
  pub new_veth : Text → Text → Link
  pub new_vlan : Text → ℤ → ℕ → Link
  pub link_list : Action Host (List Link)
  pub link_by_name : Text → Action Host Link
  pub link_by_index : ℤ → Action Host Link
  -- LinkAdd fills in the link that it is given: the result is that link.
  pub link_add : Link → Action Host Link
  pub link_del : Link → Action Host ⊤
  pub link_set_up : Link → Action Host ⊤
  pub link_set_down : Link → Action Host ⊤
  pub link_set_master : Link → Link → Action Host ⊤
  pub link_set_no_master : Link → Action Host ⊤
  pub veth_peer_index : Link → Action Host ℤ
  -- netlink.Addr, with the bytes of its IP. AddrList is called for FAMILY_V4.
  pub Addr : Type 0
  pub addr_ip : Addr → List ℕ
  pub parse_addr : Text → Outcome Addr
  pub addr_list : Link → Action Host (List Addr)
  pub addr_add : Link → Addr → Action Host ⊤
  pub addr_del : Link → Addr → Action Host ⊤

pub record Networks (Host : Type 0) : Type 1 where
  pub Network : Type 0
  pub network_lookup_by_name : Text → Action Host Network
  pub network_define_xml : Text → Action Host Network
  pub network_create : Network → Action Host ⊤
  pub network_destroy : Network → Action Host ⊤
  pub network_undefine : Network → Action Host ⊤
