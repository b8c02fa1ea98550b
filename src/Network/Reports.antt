-- ===== src/Network/Reports.antt =====
-- The errors of the network handlers, by their gRPC codes.
use teleskop.Api.Requests.{
  AddBridgeRequest, DeleteBridgeRequest, AddInterfaceToBridgeRequest,
  DeleteInterfaceFromBridgeRequest, AddVlanInterfaceRequest, DeleteVlanInterfaceRequest,
}
use teleskop.Common.{ℕ, Option, none, some, List}
use teleskop.Go.Action.{lift}
use teleskop.Go.Net.{Net}
use teleskop.Go.Reports.{Reports, reporting}
use teleskop.Go.Reports.Pure.{reporting_pure}
use teleskop.Network.Address.{metadata_address}
use teleskop.Network.Handlers.{
  add_interface_to_bridge, delete_interface_from_bridge, create_vlan, add_vlan_interface,
  delete_vlan_interface, add_metadata_interface, create_bridge, add_bridge, remove_bridge,
  delete_bridge,
}
use teleskop.Network.Netlink.{Netlink, Networks}

module _ {Host : Type 0} (netlink : Netlink Host) where
  pub add_interface_to_bridge-Reports :
      (req : AddInterfaceToBridgeRequest) → Reports (add_interface_to_bridge netlink req)
  unfolding add_interface_to_bridge
  add_interface_to_bridge-Reports req = search reporting

  pub delete_interface_from_bridge-Reports :
      (req : DeleteInterfaceFromBridgeRequest) → Reports (delete_interface_from_bridge netlink req)
  unfolding delete_interface_from_bridge
  delete_interface_from_bridge-Reports req = search reporting

  pub add_vlan_interface-Reports :
      (req : AddVlanInterfaceRequest) → Reports (add_vlan_interface netlink req)
  unfolding add_vlan_interface create_vlan
  add_vlan_interface-Reports req = search reporting

  pub delete_vlan_interface-Reports :
      (req : DeleteVlanInterfaceRequest) → Reports (delete_vlan_interface netlink req)
  unfolding delete_vlan_interface
  delete_vlan_interface-Reports req = search reporting

  module _ (networks : Networks Host) where
    module _ (net : Net) where
      metadata_address-Reports :
          (req : AddBridgeRequest) → Reports {W = Host} (lift (metadata_address net req))
      unfolding metadata_address
      metadata_address-Reports req = search (reporting, reporting_pure)

      add_metadata_interface-Reports :
          (req : AddBridgeRequest) (address : Option (List ℕ × List ℕ))
          → Reports (add_metadata_interface netlink networks net req address)
      unfolding add_metadata_interface
      add_metadata_interface-Reports req none = search reporting
      add_metadata_interface-Reports req (some (ip, mask)) = search reporting

      create_bridge-Reports :
          (req : AddBridgeRequest) (address : Option (List ℕ × List ℕ))
          → Reports (create_bridge netlink networks net req address)
      unfolding create_bridge
      create_bridge-Reports req address = search (reporting, add_metadata_interface-Reports)

      pub add_bridge-Reports :
          (req : AddBridgeRequest) → Reports (add_bridge netlink networks net req)
      unfolding add_bridge
      add_bridge-Reports req = search (reporting, metadata_address-Reports, create_bridge-Reports)

    remove_bridge-Reports :
        (req : DeleteBridgeRequest) (network : networks.Network)
        → Reports (remove_bridge netlink networks req network)
    unfolding remove_bridge
    remove_bridge-Reports req network = search reporting

    pub delete_bridge-Reports :
        (req : DeleteBridgeRequest) → Reports (delete_bridge netlink networks req)
    unfolding delete_bridge
    delete_bridge-Reports req = search (reporting, remove_bridge-Reports)
