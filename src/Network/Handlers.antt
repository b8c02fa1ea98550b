-- ===== src/Network/Handlers.antt =====
-- bridge.go and vlan.go: the gRPC handlers.
use teleskop.Api.Requests.{
  AddBridgeRequest, DeleteBridgeRequest, AddInterfaceToBridgeRequest,
  DeleteInterfaceFromBridgeRequest, AddVlanInterfaceRequest, DeleteVlanInterfaceRequest,
}
use teleskop.Api.Responses.{GetInterfaceNameResponse}
use teleskop.Common.{ℕ, ⊤, Option, none, some, List, [], ◌∷◌, ◌++◌, if◌then◌else◌, not}
use teleskop.Go.Action.{Action, pure, lift, on_error, wrap_error, ◌>>=◌, ◌>>◌}
use teleskop.Go.Error.{status, invalid_argument, not_found, internal}
use teleskop.Go.Int.{pos, eq_int}
use teleskop.Go.Net.{Net}
use teleskop.Go.Template.{Piece, words, field, execute}
use teleskop.Go.Text.{Text, codes, decimal}
use teleskop.Network.Address.{metadata_address}
use teleskop.Network.Netlink.{Netlink, Networks}
use teleskop.Network.Veth.{add_teleskop_interface, delete_teleskop_interface_if_exists}

unfoldable pub network_tmpl : List (Piece AddBridgeRequest)
network_tmpl =
    words (codes "\n<network>\n  <name>")
    ∷ field (λ p. p.name)
    ∷ words (codes "</name>\n  <bridge name='")
    ∷ field (λ p. p.name)
    ∷ words (codes "' stp='off' delay='0'/>\n</network>\n")
    ∷ []

-- fmt.Sprintf("%s.%d", parent, id).
unfoldable pub vlan_name : Text → ℕ → Text
vlan_name parent id = parent ++ b'.' ∷ decimal id

-- The interface's name is a field of the agent.
unfoldable pub get_interface_name : {Host : Type 0} → Text → Action Host GetInterfaceNameResponse
get_interface_name interface_name = pure (record { interface_name = interface_name })

module _ {Host : Type 0} (netlink : Netlink Host) where
  unfoldable pub add_interface_to_bridge : AddInterfaceToBridgeRequest → Action Host ⊤
  add_interface_to_bridge req = do
    bridge ←
        wrap_error (netlink.link_by_name req.bridge) (status not_found "failed to find bridge: %+v")
    link ←
        wrap_error (netlink.link_by_name req.interface)
          (status not_found "failed to find interface: %+v")
    if not (eq_int (netlink.master_index link) (pos 0))
        then pure tt
        else wrap_error (netlink.link_set_master link bridge)
            (status internal "failed to add interface to bridge: %+v")

  unfoldable pub delete_interface_from_bridge : DeleteInterfaceFromBridgeRequest → Action Host ⊤
  delete_interface_from_bridge req = do
    link ←
        wrap_error (netlink.link_by_name req.interface)
          (status not_found "failed to find interface: %+v")
    wrap_error (netlink.link_set_no_master link)
        (status internal "failed to delete interface from bridge: %+v")

  -- What AddVLANInterface does where the interface is not found.
  unfoldable pub create_vlan : AddVlanInterfaceRequest → Action Host ⊤
  create_vlan req = do
    parent_link ←
        wrap_error (netlink.link_by_name req.parent_interface)
          (status not_found "failed to find parent interface: %+v\n")
    vlan ←
        wrap_error
          (netlink.link_add (
            netlink.new_vlan (vlan_name (netlink.name parent_link) req.vlan_id)
              (netlink.index parent_link) req.vlan_id))
          (status internal "failed to create vlan interface: %+v")
    wrap_error (netlink.link_set_up vlan) (status internal "failed to set up vlan interface: %+v")

  unfoldable pub add_vlan_interface : AddVlanInterfaceRequest → Action Host ⊤
  add_vlan_interface req =
      on_error (netlink.link_by_name (vlan_name req.parent_interface req.vlan_id))
        (λ _. create_vlan req) λ _. pure tt

  unfoldable pub delete_vlan_interface : DeleteVlanInterfaceRequest → Action Host ⊤
  delete_vlan_interface req = do
    link ←
        wrap_error (netlink.link_by_name (vlan_name req.parent_interface req.vlan_id))
          (status not_found "failed to find vlan interface: %+v\n")
    wrap_error (netlink.link_set_down link)
        (status internal "failed to set down vlan interface: %+v")
    wrap_error (netlink.link_del link) (status internal "failed to delete vlan interface: %+v")

  module _ (networks : Networks Host) where
    module _ (net : Net) where
      unfoldable pub add_metadata_interface :
          AddBridgeRequest → Option (List ℕ × List ℕ) → Action Host ⊤
      add_metadata_interface req none = pure tt
      add_metadata_interface req (some (ip, mask)) =
          wrap_error (add_teleskop_interface netlink net req.name ip mask)
            (status internal "failed to add dhcp interface: %+v")

      -- What AddBridge does where the network is not found.
      unfoldable pub create_bridge : AddBridgeRequest → Option (List ℕ × List ℕ) → Action Host ⊤
      create_bridge req address = do
        network ←
            wrap_error (networks.network_define_xml (execute network_tmpl req))
              (status invalid_argument "failed to define network: %+v")
        wrap_error (networks.network_create network)
            (status internal "failed to start network: %+v")
        add_metadata_interface req address

      unfoldable pub add_bridge : AddBridgeRequest → Action Host ⊤
      add_bridge req = do
        address ← lift (metadata_address net req)
        on_error (networks.network_lookup_by_name req.name) (λ _. create_bridge req address)
            λ _. pure tt

    -- What DeleteBridge does where the network is found.
    unfoldable pub remove_bridge : DeleteBridgeRequest → networks.Network → Action Host ⊤
    remove_bridge req network = do
      wrap_error (networks.network_destroy network) (status internal "failed to stop network: %+v")
      wrap_error (networks.network_undefine network)
          (status internal "failed to undefine network: %+v")
      wrap_error (delete_teleskop_interface_if_exists netlink req.name)
          (status internal "failed to delete teleskop interface: %+v")

    unfoldable pub delete_bridge : DeleteBridgeRequest → Action Host ⊤
    delete_bridge req =
        on_error (networks.network_lookup_by_name req.name) (λ _. pure tt) (remove_bridge req)
