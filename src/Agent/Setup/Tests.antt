-- ===== src/Agent/Setup/Tests.antt =====
-- The setup of two bridges on a host whose state tells whether its interfaces have masters.
use teleskop.Agent.Service.{Services}
use teleskop.Agent.Setup.{Bridge, setup_bridge, setup_bridges}
use teleskop.Agent.Setup.Grows.{Grows, IsAdditive}
use teleskop.Agent.Setup.Joined.{IsLawful, IsJoined, setup_bridges_lem}
use teleskop.Agent.Tests.{
  no_iptables, no_libvirt, no_networks, no_netlink, no_osbrick, no_net, down,
}
use teleskop.Common.{◌≡◌, refl, sym, ap, ◌∙◌, Bool, true, false, not, if◌then◌else◌, [], ◌∷◌, List}
use teleskop.Go.Action.{pure, raise}
use teleskop.Go.Error.{ok}
use teleskop.Go.Int.{pos, eq_int}
use teleskop.Go.Net.{Net}
use teleskop.Go.Outcome.{ok_inj}
use teleskop.Go.Text.{Text, codes}
use teleskop.Network.Address.{metadata_address}
use teleskop.Network.Handlers.{add_bridge, add_vlan_interface, add_interface_to_bridge, vlan_name}
use teleskop.Network.Netlink.{Netlink, Networks}

-- Every interface is there; none has a master before LinkSetMaster.
abbrev netlink : Netlink Bool
netlink = record no_netlink {
  Link = Text × Bool;
  name = λ link. link.0;
  index = λ link. pos 1;
  master_index = λ link. pos (if link.1 then 2 else 0);
  is_veth = λ link. true;
  new_veth = λ name peer. (name, false);
  new_vlan = λ name parent id. (name, false);
  link_list = raise down;
  link_by_name = λ name w. (ok (name, w), w);
  link_by_index = λ index. raise down;
  link_add = λ link. raise down;
  link_del = λ link. raise down;
  link_set_up = λ link. raise down;
  link_set_down = λ link. raise down;
  link_set_master = λ link bridge w. (ok tt, true);
  link_set_no_master = λ link. raise down;
  veth_peer_index = λ link. raise down;
  addr_list = λ link. raise down;
  addr_add = λ link addr. raise down;
  addr_del = λ link addr. raise down;
}

abbrev networks : Networks Bool
networks = record no_networks { network_lookup_by_name = λ name. pure tt }

abbrev net : Net
net = record no_net { parse_cidr = λ s. ok (s, s, s) }

abbrev services : Services
services = record {
  iptables = no_iptables Bool;
  libvirt = no_libvirt;
  networks = networks;
  netlink = netlink;
  osbrick = no_osbrick;
  net = net;
  interface_name = codes "bond0.1000";
}

abbrev there : Bool → Text → Bool
there w n = true

abbrev mastered : Bool → Text → Bool
mastered w n = w

index_told : (w : Bool) → w ≡ not (eq_int (pos (if w then 2 else 0)) (pos 0))
unfolding eq_int
index_told true = refl
index_told false = refl

lawful : IsLawful there mastered netlink
lawful = record {
  finds = λ n w link h. refl;
  finds_name = λ n w link h. ap (λ l. l.0) (sym (ok_inj (n, w) link h));
  finds_master = λ n w link h.
      index_told w
      ∙ ap (λ l. not (eq_int (pos (if l.1 then 2 else 0)) (pos 0))) (ok_inj (n, w) link h);
  joins = λ link bridge w h. refl;
}

stays : (w : Bool) → Grows there mastered w w
stays w = record { stays_there = λ n h. h; stays_mastered = λ n h. h }

additive : IsAdditive there mastered netlink networks
additive = record {
  link_by_name = λ name. record { at = stays };
  link_by_index = λ index. record { at = stays };
  link_add = λ link. record { at = stays };
  link_set_up = λ link. record { at = stays };
  link_set_master = λ link bridge. record {
    at = λ w. record { stays_there = λ n h. h; stays_mastered = λ n h. refl };
  };
  veth_peer_index = λ link. record { at = stays };
  addr_list = λ link. record { at = stays };
  addr_add = λ link addr. record { at = stays };
  lookup = λ name. record { at = stays };
  define = λ xml. record { at = stays };
  create = λ network. record { at = stays };
}

abbrev internal : Bridge
internal = record { name = codes "br1"; metadata_cidr = []; internal_only = true; vlan_id = 0 }

abbrev external : Bridge
external = record {
  name = codes "br0";
  metadata_cidr = codes "192.0.2.1/24";
  internal_only = false;
  vlan_id = 1000;
}

abbrev bridges : List Bridge
bridges = internal ∷ external ∷ []

sets_up : (setup_bridges services (codes "bond0") bridges false).0 ≡ ok tt
unfolding setup_bridges setup_bridge add_bridge metadata_address add_vlan_interface
    add_interface_to_bridge eq_int
sets_up = refl

setup_bridges_lem_example :
    IsJoined there mastered
      (codes "br0")
      (vlan_name (codes "bond0") 1000)
      (setup_bridges services (codes "bond0") bridges false).1
setup_bridges_lem_example =
    setup_bridges_lem services there mastered lawful additive (codes "bond0") (internal ∷ []) []
      external false refl sets_up
