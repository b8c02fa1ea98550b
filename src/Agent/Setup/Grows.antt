-- ===== src/Agent/Setup/Grows.antt =====
-- The interfaces of the host while the agent sets up its bridges: none goes, and none loses its master.
use teleskop.Agent.Service.{Services}
use teleskop.Agent.Setup.{Bridge, setup_bridge, setup_bridges}
use teleskop.Api.Requests.{AddBridgeRequest}
use teleskop.Common.{◌≡◌, Bool, true, List, [], ◌∷◌}
use teleskop.Go.Action.{raise}
use teleskop.Go.Error.{Error, plain}
use teleskop.Go.Int.{ℤ}
use teleskop.Go.Moves.{IsPreorder, Moves, Moves-pure, Moves-bind, Moves-if}
use teleskop.Go.Text.{Text}
use teleskop.Network.Handlers.{
  add_metadata_interface, create_bridge, add_bridge, create_vlan, add_vlan_interface,
  add_interface_to_bridge,
}
use teleskop.Network.Netlink.{Netlink, Networks}
use teleskop.Network.Veth.{
  add_veth, find_peer, create_veth_peer_if_not_exists, add_teleskop_interface,
}
use teleskop.Network.Preserves.{
  LinkPrimitives, NetworkPrimitives, add_bridge-Moves, add_vlan_interface-Moves,
  add_interface_to_bridge-Moves,
}

-- `there` tells whether an interface of a name is there, `mastered` whether it has a master.
module _ {Host : Type 0} (there mastered : Host → Text → Bool) where
  pub record Grows (u v : Host) : Type 0 where
    pub stays_there : (n : Text) → there u n ≡ true → there v n ≡ true
    pub stays_mastered : (n : Text) → mastered u n ≡ true → mastered v n ≡ true

  pub Grows-order : IsPreorder Grows
  Grows-order = record {
    stay = λ w. record { stays_there = λ n h. h; stays_mastered = λ n h. h };
    go_on = λ u v w h k. record {
      stays_there = λ n p. k.stays_there n (h.stays_there n p);
      stays_mastered = λ n p. k.stays_mastered n (h.stays_mastered n p);
    };
  }

  -- No call but those that delete takes an interface or its master away.
  pub record IsAdditive (netlink : Netlink Host) (networks : Networks Host) : Type 0 where
    pub link_by_name : (name : Text) → Moves Grows (netlink.link_by_name name)
    pub link_by_index : (index : ℤ) → Moves Grows (netlink.link_by_index index)
    pub link_add : (link : netlink.Link) → Moves Grows (netlink.link_add link)
    pub link_set_up : (link : netlink.Link) → Moves Grows (netlink.link_set_up link)
    pub link_set_master :
        (link bridge : netlink.Link) → Moves Grows (netlink.link_set_master link bridge)
    pub veth_peer_index : (link : netlink.Link) → Moves Grows (netlink.veth_peer_index link)
    pub addr_list : (link : netlink.Link) → Moves Grows (netlink.addr_list link)
    pub addr_add :
        (link : netlink.Link) (addr : netlink.Addr) → Moves Grows (netlink.addr_add link addr)
    pub lookup : (name : Text) → Moves Grows (networks.network_lookup_by_name name)
    pub define : (xml : Text) → Moves Grows (networks.network_define_xml xml)
    pub create : (network : networks.Network) → Moves Grows (networks.network_create network)

  left_out : Error
  left_out = plain "not called"

  -- The calls that delete, which the setup does not use, put out of the way.
  abbrev adding_links : Netlink Host → Netlink Host
  adding_links netlink = record netlink {
    link_del = λ link. raise left_out;
    link_set_down = λ link. raise left_out;
    link_set_no_master = λ link. raise left_out;
    addr_del = λ link addr. raise left_out;
  }

  abbrev adding_networks : Networks Host → Networks Host
  adding_networks networks = record networks {
    network_destroy = λ network. raise left_out;
    network_undefine = λ network. raise left_out;
  }

  module _ (netlink : Netlink Host) (networks : Networks Host)
      (laws : IsAdditive netlink networks) where
    adding_link_calls : LinkPrimitives (adding_links netlink) Grows
    adding_link_calls = record {
      link_by_name = laws.link_by_name;
      link_by_index = laws.link_by_index;
      link_add = laws.link_add;
      link_del = λ link. record { at = Grows-order.stay };
      link_set_up = laws.link_set_up;
      link_set_down = λ link. record { at = Grows-order.stay };
      link_set_master = laws.link_set_master;
      link_set_no_master = λ link. record { at = Grows-order.stay };
      veth_peer_index = laws.veth_peer_index;
      addr_list = laws.addr_list;
      addr_add = laws.addr_add;
      addr_del = λ link addr. record { at = Grows-order.stay };
    }

    adding_network_calls : NetworkPrimitives (adding_networks networks) Grows
    adding_network_calls = record {
      lookup = laws.lookup;
      define = laws.define;
      create = laws.create;
      destroy = λ network. record { at = Grows-order.stay };
      undefine = λ network. record { at = Grows-order.stay };
    }

module _ (s : Services) (there mastered : s.iptables.Host → Text → Bool)
    (laws : IsAdditive there mastered s.netlink s.networks) where
  abbrev links : Netlink s.iptables.Host
  links = adding_links there mastered s.netlink

  add_bridge-Grows :
      (req : AddBridgeRequest)
      → Moves (Grows there mastered) (add_bridge s.netlink s.networks s.net req)
  unfolding add_bridge create_bridge add_metadata_interface add_teleskop_interface
      create_veth_peer_if_not_exists add_veth find_peer
  add_bridge-Grows req =
      add_bridge-Moves links (Grows there mastered) (Grows-order there mastered)
        (adding_link_calls there mastered s.netlink s.networks laws)
        (adding_networks there mastered s.networks)
        (adding_network_calls there mastered s.netlink s.networks laws) s.net req

  pub setup_bridge-Grows :
      (parent : Text) (bridge : Bridge)
      → Moves (Grows there mastered) (setup_bridge s parent bridge)
  unfolding setup_bridge add_vlan_interface create_vlan add_interface_to_bridge
  setup_bridge-Grows parent bridge =
      Moves-bind _ (Grows-order there mastered) _ _ (add_bridge-Grows _) λ _.
        Moves-if _ (Grows-order there mastered) _ _ _ (Moves-pure _ (Grows-order there mastered) tt)
          (Moves-bind _ (Grows-order there mastered) _ _
            (add_vlan_interface-Moves links (Grows there mastered) (Grows-order there mastered)
              (adding_link_calls there mastered s.netlink s.networks laws) _)
            λ _.
              add_interface_to_bridge-Moves links (Grows there mastered)
                (Grows-order there mastered)
                (adding_link_calls there mastered s.netlink s.networks laws) _)

  pub setup_bridges-Grows :
      (parent : Text) (bridges : List Bridge)
      → Moves (Grows there mastered) (setup_bridges s parent bridges)
  unfolding setup_bridges
  setup_bridges-Grows parent [] = Moves-pure _ (Grows-order there mastered) tt
  setup_bridges-Grows parent (bridge ∷ bridges) =
      Moves-bind _ (Grows-order there mastered) _ _ (setup_bridge-Grows parent bridge)
        λ _. setup_bridges-Grows parent bridges
