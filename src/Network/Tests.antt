-- ===== src/Network/Tests.antt =====
-- A small netlink: a host with its parent interface, and at most the VLAN interface of one name.
use teleskop.Api.Requests.{AddVlanInterfaceRequest}
use teleskop.Common.{
  ℕ, ◌≡◌, refl, sym, Bool, true, false, List, [], ◌∷◌, eq_bytes, eq_bytes_iff, if◌then◌else◌,
}
use teleskop.Go.Action.{pure, raise}
use teleskop.Go.Error.{Outcome, ok, err, external}
use teleskop.Go.Int.{pos}
use teleskop.Go.Outcome.{ok_inj}
use teleskop.Go.Text.{Text, codes}
use teleskop.Network.Handlers.{add_vlan_interface, create_vlan, vlan_name}
use teleskop.Network.Lawful.{IsLawful}
use teleskop.Network.Netlink.{Netlink}
use teleskop.Network.Vlan.{add_vlan_interface_lem}

abbrev pub holds : List Text → Text → Bool
holds [] n = false
holds (m ∷ names) n = if eq_bytes m n then true else holds names n

abbrev pub look : Bool → Text → Outcome Text
look true n = ok n
look false n = err (external "Link not found")

-- The host is the list of the names of its interfaces; an interface is its name.
abbrev small : Netlink (List Text)
small = record {
  Link = Text;
  name = λ link. link;
  index = λ link. pos 1;
  master_index = λ link. pos 0;
  is_veth = λ link. true;
  new_veth = λ name peer. name;
  new_vlan = λ name parent id. name;
  link_list = λ w. (ok w, w);
  link_by_name = λ n w. (look (holds w n) n, w);
  link_by_index = λ index. raise (external "not there");
  link_add = λ link w. (ok link, link ∷ w);
  link_del = λ link. pure tt;
  link_set_up = λ link. pure tt;
  link_set_down = λ link. pure tt;
  link_set_master = λ link bridge. pure tt;
  link_set_no_master = λ link. pure tt;
  veth_peer_index = λ link. raise (external "not there");
  Addr = List ℕ;
  addr_ip = λ addr. addr;
  parse_addr = λ text. ok text;
  addr_list = λ link. pure [];
  addr_add = λ link addr. pure tt;
  addr_del = λ link addr. pure tt;
}

look-true : (b : Bool) (n link : Text) → look b n ≡ ok link → b ≡ true
look-true true n link h = refl
look-true false n link h = cc

look-name : (b : Bool) (n link : Text) → look b n ≡ ok link → link ≡ n
look-name true n link h = sym (ok_inj n link h)
look-name false n link h = cc

small-IsLawful : IsLawful small holds
small-IsLawful = record {
  finds = λ n w link h. look-true (holds w n) n link h;
  finds_name = λ n w link h. look-name (holds w n) n link h;
  lookup_keeps = λ n. record { at = λ w. refl };
  adds = λ link w added h. rw ((eq_bytes_iff link link).1 refl) refl;
  vlan_named = λ n index id. refl;
  set_up_keeps = λ link. record { at = λ w. refl };
}

abbrev request : AddVlanInterfaceRequest
request = record { vlan_id = 100; parent_interface = codes "bond0" }

abbrev start : List Text
start = codes "bond0" ∷ []

adds_vlan : (add_vlan_interface small request start).0 ≡ ok tt
unfolding add_vlan_interface create_vlan codes eq_bytes vlan_name
adds_vlan = refl

add_vlan_interface_lem_example :
    holds (add_vlan_interface small request start).1 (vlan_name (codes "bond0") 100) ≡ true
add_vlan_interface_lem_example =
    add_vlan_interface_lem small holds small-IsLawful request start adds_vlan
