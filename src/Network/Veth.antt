-- ===== src/Network/Veth.antt =====
-- bridge.go: the pair of interfaces that joins a bridge to the DHCP server.
use teleskop.Common.{ℕ, ⊤, List, [], ◌∷◌, ◌++◌, not, if◌then◌else◌}
use teleskop.Go.Action.{Action, pure, raise, lift, on_error, wrap_error, ◌>>=◌, ◌>>◌}
use teleskop.Go.Error.{Error, or_else, plain, wrapped}
use teleskop.Go.Net.{Net}
use teleskop.Go.Text.{Text, codes, decimal}
use teleskop.Network.Netlink.{Netlink}

unfoldable pub veth_name : Text → Text
veth_name name = name ++ codes "-dhcp"

unfoldable pub veth_peer_name : Text → Text
veth_peer_name name = codes "dhcp-" ++ name

module _ {Host : Type 0} (netlink : Netlink Host) where
  open netlink use {Link, Addr}

  -- The error of LinkByName is wrapped, where that of LinkAdd is reported.
  unfoldable pub add_veth : Text → Error → Action Host Link
  add_veth name not_found =
      wrap_error (netlink.link_add (netlink.new_veth (veth_name name) (veth_peer_name name)))
        λ _. wrapped "failed to add new link name=%s: %w" not_found

  unfoldable pub find_peer : Link → Action Host (Link × Link)
  find_peer veth = if not (netlink.is_veth veth) then raise (plain "invalid link name=%s") else do
    peer_index ←
        wrap_error (netlink.veth_peer_index veth)
          (wrapped "failed to find veth peer index name=%s: %w")
    veth_peer ←
        wrap_error (netlink.link_by_index peer_index)
          (wrapped "failed to find veth peer link by index=%d: %w")
    pure (veth, veth_peer)

  unfoldable pub create_veth_peer_if_not_exists : Text → Action Host (Link × Link)
  create_veth_peer_if_not_exists name = do
    veth ← on_error (netlink.link_by_name (veth_name name)) (add_veth name) pure
    find_peer veth

  module _ (net : Net) where
    -- ip and the mask are what ParseCIDR returned.
    unfoldable pub add_teleskop_interface : Text → List ℕ → List ℕ → Action Host ⊤
    add_teleskop_interface name ip mask = do
      pair ← create_veth_peer_if_not_exists name
      bridge ← wrap_error (netlink.link_by_name name) (wrapped "failed to find bridge name=%s: %w")
      wrap_error (netlink.link_set_master pair.0 bridge)
          (wrapped "failed to set link master link=%s bridge=%s: %w")
      addr ← lift (
          or_else (netlink.parse_addr (net.ip_string ip ++ b'/' ∷ decimal (net.mask_size mask)))
            (wrapped "failed to parse addr=\"%s/%d\": %w"))
      wrap_error (netlink.addr_add pair.1 addr) (wrapped "failed to addr add link=%s, addr=%s: %w")
      wrap_error (netlink.link_set_up pair.0) (wrapped "failed to set up link=%s: %w")
      wrap_error (netlink.link_set_up pair.1) (wrapped "failed to set up link=%s: %w")

  -- The loop over the peer's addresses: an error is printed and the loop goes on.
  unfoldable pub delete_addrs : Link → List Addr → Action Host ⊤
  delete_addrs veth_peer [] = pure tt
  delete_addrs veth_peer (addr ∷ addrs) =
      on_error (netlink.addr_del veth_peer addr) (λ _. delete_addrs veth_peer addrs)
        λ _. delete_addrs veth_peer addrs

  unfoldable pub delete_pair : Link × Link → Action Host ⊤
  delete_pair pair = do
    wrap_error (netlink.link_set_down pair.0) (wrapped "failed to set down link=%s: %w")
    wrap_error (netlink.link_set_down pair.1) (wrapped "failed to set down link=%s: %w")
    addrs ← wrap_error (netlink.addr_list pair.1) (wrapped "failed to get addr list link=%s: %w")
    delete_addrs pair.1 addrs
    wrap_error (netlink.link_set_no_master pair.0)
        (wrapped "failed to set link no master link=%s: %w")
    wrap_error (netlink.link_del pair.0) (wrapped "failed to delete link link=%s: %w")

  -- An error of the first call is dropped.
  unfoldable pub delete_teleskop_interface_if_exists : Text → Action Host ⊤
  delete_teleskop_interface_if_exists name =
      on_error (create_veth_peer_if_not_exists name) (λ _. pure tt) delete_pair
