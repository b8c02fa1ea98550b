-- ===== src/Agent/Setup.antt =====
-- setup.go, and of main.go the function setup with the functions it calls: what the agent does before
-- it serves.
pub mod Names
pub mod Grows
pub mod Joined
mod Tests
use teleskop.Agent.OsBrick.{OsBrick}
use teleskop.Agent.Service.{Services}
use teleskop.Api.Requests.{AddBridgeRequest, AddVlanInterfaceRequest, AddInterfaceToBridgeRequest}
use teleskop.Common.{
  ℕ, ⊤, Bool, true, false, Option, none, some, List, [], ◌∷◌, ◌++◌, eq_bytes, not, if◌then◌else◌,
}
use teleskop.Cpu.Host.{Files, get_local_numa_nodes}
use teleskop.Cpu.Node.{NumaNode}
use teleskop.Go.Action.{Action, pure, raise, lift, ◌>>=◌, ◌>>◌}
use teleskop.Go.Error.{plain}
use teleskop.Go.Net.To4.{to4}
use teleskop.Go.Text.{Text, codes, contains, split}
use teleskop.Network.Handlers.{add_bridge, add_vlan_interface, add_interface_to_bridge, vlan_name}
use teleskop.Network.Netlink.{Netlink}

-- A Bridge of the datastore, and the calls of the datastore's client.
pub record Bridge : Type 0 where
  pub name : Text
  pub metadata_cidr : Text
  pub internal_only : Bool
  pub vlan_id : ℕ

pub record Datastore (Host : Type 0) : Type 0 where
  pub list_bridge : Action Host (List Bridge)
  -- RegisterTeleskopAgent: hostname, endpoint, iSCSI name and nodes.
  pub register_teleskop_agent : Text → Text → Text → List NumaNode → Action Host ⊤

abbrev pub bridge_request : Bridge → AddBridgeRequest
bridge_request bridge = record {
  name = bridge.name;
  metadata_cidr = bridge.metadata_cidr;
  internal_only = bridge.internal_only;
}

abbrev pub vlan_request : Text → Bridge → AddVlanInterfaceRequest
vlan_request parent bridge = record { vlan_id = bridge.vlan_id; parent_interface = parent }

abbrev pub member_request : Text → Bridge → AddInterfaceToBridgeRequest
member_request parent bridge = record {
  bridge = bridge.name;
  interface = vlan_name parent bridge.vlan_id;
}

unfoldable pub trim_vlan_id : Text → Text
trim_vlan_id interface_name =
    if not (contains interface_name b'.')
    then interface_name
    else elim (split interface_name b'.') [ [] ↦ [] | s ∷ _ ↦ s ]

module _ {Host : Type 0} (netlink : Netlink Host) where
  unfoldable pub is_valid_link_name : List netlink.Link → Text → Bool
  is_valid_link_name [] name = false
  is_valid_link_name (link ∷ links) name =
      if eq_bytes (netlink.name link) name then true else is_valid_link_name links name

module _ (s : Services) where
  -- One round of the loop over the bridges.
  unfoldable pub setup_bridge : Text → Bridge → Action s.iptables.Host ⊤
  setup_bridge parent bridge = do
    add_bridge s.netlink s.networks s.net (bridge_request bridge)
    if bridge.internal_only then pure tt else do
      add_vlan_interface s.netlink (vlan_request parent bridge)
      add_interface_to_bridge s.netlink (member_request parent bridge)

  unfoldable pub setup_bridges : Text → List Bridge → Action s.iptables.Host ⊤
  setup_bridges parent [] = pure tt
  setup_bridges parent (bridge ∷ bridges) = do
    setup_bridge parent bridge
    setup_bridges parent bridges

  module _ (datastore : Datastore s.iptables.Host) (files : Files) where
    unfoldable pub agent_setup : Text → Text → Text → Action s.iptables.Host ⊤
    agent_setup hostname endpoint parent = do
      bridges ← datastore.list_bridge
      setup_bridges parent bridges
      nodes ← lift (get_local_numa_nodes files)
      iqn ← s.osbrick.get_iqn
      datastore.register_teleskop_agent hostname endpoint iqn nodes

    -- The loop over the addresses: the first one of IPv4 is taken.
    unfoldable pub setup_at : Text → Text → List s.netlink.Addr → Action s.iptables.Host ⊤
    setup_at teleskop_interface hostname [] =
        raise (plain "failed to find valid address on interface=%s")
    setup_at teleskop_interface hostname (addr ∷ addrs) = elim (to4 (s.netlink.addr_ip addr)) [
      | some ip ↦
          agent_setup hostname (s.net.ip_string ip ++ codes ":5000")
            (trim_vlan_id teleskop_interface)
      | none ↦ setup_at teleskop_interface hostname addrs
    ]

    unfoldable pub setup : Text → Action s.iptables.Host ⊤
    setup teleskop_interface = do
      hostname ← s.libvirt.hostname
      link ← s.netlink.link_by_name teleskop_interface
      addrs ← s.netlink.addr_list link
      setup_at teleskop_interface hostname addrs
