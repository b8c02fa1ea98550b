-- ===== src/Network/Preserves.antt =====
-- The handlers of networks, and a relation between hosts that the calls of netlink and of the networks keep
-- to.
use teleskop.Api.Requests.{
  AddBridgeRequest, AddInterfaceToBridgeRequest, AddVlanInterfaceRequest, DeleteBridgeRequest,
  DeleteInterfaceFromBridgeRequest, DeleteVlanInterfaceRequest,
}
use teleskop.Common.{ℕ, List, Option, none, some, [], ◌∷◌}
use teleskop.Go.Error.{Error}
use teleskop.Go.Int.{ℤ}
use teleskop.Go.Moves.{IsPreorder, Moves, Moves-pure, Moves-wrap, Moves-on_error, moving}
use teleskop.Go.Net.{Net}
use teleskop.Go.Text.{Text}
use teleskop.Network.Handlers.{
  add_interface_to_bridge, delete_interface_from_bridge, create_vlan, add_vlan_interface,
  delete_vlan_interface, add_metadata_interface, create_bridge, add_bridge, remove_bridge,
  delete_bridge,
}
use teleskop.Network.Netlink.{Netlink, Networks}
use teleskop.Network.Veth.{
  add_veth, find_peer, create_veth_peer_if_not_exists, add_teleskop_interface, delete_addrs,
  delete_pair, delete_teleskop_interface_if_exists,
}

pub record LinkPrimitives {Host : Type 0} (netlink : Netlink Host) (R : Host → Host → Type 0)
    : Type 0 where
  pub link_by_name : (name : Text) → Moves R (netlink.link_by_name name)
  pub link_by_index : (index : ℤ) → Moves R (netlink.link_by_index index)
  pub link_add : (link : netlink.Link) → Moves R (netlink.link_add link)
  pub link_del : (link : netlink.Link) → Moves R (netlink.link_del link)
  pub link_set_up : (link : netlink.Link) → Moves R (netlink.link_set_up link)
  pub link_set_down : (link : netlink.Link) → Moves R (netlink.link_set_down link)
  pub link_set_master : (link bridge : netlink.Link) → Moves R (netlink.link_set_master link bridge)
  pub link_set_no_master : (link : netlink.Link) → Moves R (netlink.link_set_no_master link)
  pub veth_peer_index : (link : netlink.Link) → Moves R (netlink.veth_peer_index link)
  pub addr_list : (link : netlink.Link) → Moves R (netlink.addr_list link)
  pub addr_add : (link : netlink.Link) (addr : netlink.Addr) → Moves R (netlink.addr_add link addr)
  pub addr_del : (link : netlink.Link) (addr : netlink.Addr) → Moves R (netlink.addr_del link addr)

pub record NetworkPrimitives {Host : Type 0} (networks : Networks Host) (R : Host → Host → Type 0)
    : Type 0 where
  pub lookup : (name : Text) → Moves R (networks.network_lookup_by_name name)
  pub define : (xml : Text) → Moves R (networks.network_define_xml xml)
  pub create : (network : networks.Network) → Moves R (networks.network_create network)
  pub destroy : (network : networks.Network) → Moves R (networks.network_destroy network)
  pub undefine : (network : networks.Network) → Moves R (networks.network_undefine network)

module _ {Host : Type 0} (netlink : Netlink Host) (R : Host → Host → Type 0) (order : IsPreorder R)
    (links : LinkPrimitives netlink R) where
  pub add_interface_to_bridge-Moves :
      (req : AddInterfaceToBridgeRequest) → Moves R (add_interface_to_bridge netlink req)
  unfolding add_interface_to_bridge
  add_interface_to_bridge-Moves req =
      search (moving, order, links.link_by_name, links.link_set_master)

  pub delete_interface-Moves :
      (req : DeleteInterfaceFromBridgeRequest) → Moves R (delete_interface_from_bridge netlink req)
  unfolding delete_interface_from_bridge
  delete_interface-Moves req = search (moving, order, links.link_by_name, links.link_set_no_master)

  create_vlan-Moves : (req : AddVlanInterfaceRequest) → Moves R (create_vlan netlink req)
  unfolding create_vlan
  create_vlan-Moves req =
      search (moving, order, links.link_by_name, links.link_add, links.link_set_up)

  pub add_vlan_interface-Moves :
      (req : AddVlanInterfaceRequest) → Moves R (add_vlan_interface netlink req)
  unfolding add_vlan_interface
  add_vlan_interface-Moves req = search (moving, order, links.link_by_name, create_vlan-Moves)

  pub delete_vlan_interface-Moves :
      (req : DeleteVlanInterfaceRequest) → Moves R (delete_vlan_interface netlink req)
  unfolding delete_vlan_interface
  delete_vlan_interface-Moves req =
      search (moving, order, links.link_by_name, links.link_set_down, links.link_del)

  add_veth-Moves : (name : Text) (e : Error) → Moves R (add_veth netlink name e)
  unfolding add_veth
  add_veth-Moves name e = search (moving, order, links.link_add)

  find_peer-Moves : (veth : netlink.Link) → Moves R (find_peer netlink veth)
  unfolding find_peer
  find_peer-Moves veth = search (moving, order, links.veth_peer_index, links.link_by_index)

  create_pair-Moves : (name : Text) → Moves R (create_veth_peer_if_not_exists netlink name)
  unfolding create_veth_peer_if_not_exists
  create_pair-Moves name =
      search (moving, order, links.link_by_name, add_veth-Moves, find_peer-Moves)

  add_teleskop_interface-Moves :
      (net : Net) (name : Text) (ip mask : List ℕ)
      → Moves R (add_teleskop_interface netlink net name ip mask)
  unfolding add_teleskop_interface
  add_teleskop_interface-Moves net name ip mask =
      search
        (
          moving, order, create_pair-Moves, links.link_by_name, links.link_set_master,
          links.addr_add, links.link_set_up,
        )
        depth 12

  delete_addrs-Moves :
      (peer : netlink.Link) (addrs : List netlink.Addr) → Moves R (delete_addrs netlink peer addrs)
  unfolding delete_addrs
  delete_addrs-Moves peer [] = Moves-pure R order _
  delete_addrs-Moves peer (addr ∷ addrs) =
      Moves-on_error R order _ _ _ (links.addr_del peer addr) (λ _. delete_addrs-Moves peer addrs)
        λ _. delete_addrs-Moves peer addrs

  delete_pair-Moves : (pair : netlink.Link × netlink.Link) → Moves R (delete_pair netlink pair)
  unfolding delete_pair
  delete_pair-Moves pair =
      search
        (
          moving, order, links.link_set_down, links.addr_list, delete_addrs-Moves,
          links.link_set_no_master, links.link_del,
        )
        depth 12

  delete_if_exists-Moves :
      (name : Text) → Moves R (delete_teleskop_interface_if_exists netlink name)
  unfolding delete_teleskop_interface_if_exists
  delete_if_exists-Moves name = search (moving, order, create_pair-Moves, delete_pair-Moves)

  module _ (networks : Networks Host) (net : Net) where
    pub add_metadata-Moves :
        (req : AddBridgeRequest) (address : Option (List ℕ × List ℕ))
        → Moves R (add_metadata_interface netlink networks net req address)
    unfolding add_metadata_interface
    add_metadata-Moves req none = Moves-pure R order tt
    add_metadata-Moves req (some (ip, mask)) =
        Moves-wrap R order _ _ (add_teleskop_interface-Moves net req.name ip mask)

  module _ (networks : Networks Host) (ops : NetworkPrimitives networks R) where
    module _ (net : Net) where
      create_bridge-Moves :
          (req : AddBridgeRequest) (address : Option (List ℕ × List ℕ))
          → Moves R (create_bridge netlink networks net req address)
      unfolding create_bridge
      create_bridge-Moves req address =
          search (moving, order, ops.define, ops.create, add_metadata-Moves networks net)

      pub add_bridge-Moves :
          (req : AddBridgeRequest) → Moves R (add_bridge netlink networks net req)
      unfolding add_bridge
      add_bridge-Moves req = search (moving, order, ops.lookup, create_bridge-Moves)

    remove_bridge-Moves :
        (req : DeleteBridgeRequest) (network : networks.Network)
        → Moves R (remove_bridge netlink networks req network)
    unfolding remove_bridge
    remove_bridge-Moves req network =
        search (moving, order, ops.destroy, ops.undefine, delete_if_exists-Moves)

    pub delete_bridge-Moves :
        (req : DeleteBridgeRequest) → Moves R (delete_bridge netlink networks req)
    unfolding delete_bridge
    delete_bridge-Moves req = search (moving, order, ops.lookup, remove_bridge-Moves)
