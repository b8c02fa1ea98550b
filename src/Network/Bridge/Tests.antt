-- ===== src/Network/Bridge/Tests.antt =====
-- Networks that are the list of their names, on a host whose netlink always fails.
use mathlib.Core.Option.{some-injective}
use teleskop.Agent.Tests.{no_netlink, down}
use teleskop.Api.Requests.{AddBridgeRequest}
use teleskop.Common.{
  ◌≡◌, refl, Bool, true, false, some, List, [], ◌∷◌, ◌==◌, drop, eq_bytes_iff, if◌then◌else◌,
}
use teleskop.Go.Action.{pure, raise}
use teleskop.Go.Error.{ok, external}
use teleskop.Go.Net.{Net}
use teleskop.Go.Template.{execute, piece_text}
use teleskop.Go.Text.{Text, codes}
use teleskop.Network.Address.{metadata_address}
use teleskop.Network.Preserves.{LinkPrimitives}
use teleskop.Go.Moves.{Moves, Same}
use teleskop.Network.Bridge.{IsLawful, add_bridge_again}
use teleskop.Network.Handlers.{network_tmpl, add_bridge}
use teleskop.Network.Netlink.{Networks}
use teleskop.Network.Tests.{holds, look}

-- The text before the next tag; the name is behind 19 bytes.
abbrev before_tag : Text → Text
before_tag [] = []
before_tag (c ∷ s) = if c == b'<' then [] else c ∷ before_tag s

abbrev name_in : Text → Text
name_in xml = before_tag (drop 19 xml)

abbrev named : Networks (List Text)
named = record {
  Network = Text;
  network_lookup_by_name = λ n w. (look (holds w n) n, w);
  network_define_xml = λ xml w. (ok (name_in xml), name_in xml ∷ w);
  network_create = λ network. pure tt;
  network_destroy = λ network. pure tt;
  network_undefine = λ network. pure tt;
}

looks : (b : Bool) (n : Text) → b ≡ true → (network : Text) × (look b n ≡ ok network)
looks true n h = (n, refl)
looks false n h = cc

named-IsLawful : IsLawful named holds (λ xml. some (name_in xml))
named-IsLawful = record {
  defines =
      λ xml n w network e h. rw ((eq_bytes_iff (name_in xml) n).1 (some-injective _ _ e)) refl;
  create_keeps = λ network. record { at = λ w. refl };
  finds = λ n w h. looks (holds w n) n h;
}

fails : {A : Type 0} → Moves {A = A} (Same holds) (raise down)
fails = record { at = λ w. refl }

apart : LinkPrimitives {Host = List Text} no_netlink (Same holds)
apart = record {
  link_by_name = λ name. fails;
  link_by_index = λ index. fails;
  link_add = λ link. fails;
  link_del = λ link. fails;
  link_set_down = λ link. fails;
  link_set_no_master = λ link. fails;
  addr_list = λ link. fails;
  addr_del = λ link addr. fails;
  link_set_up = λ link. fails;
  link_set_master = λ link bridge. fails;
  veth_peer_index = λ link. fails;
  addr_add = λ link addr. fails;
}

abbrev net : Net
net = record {
  parse_ip = λ s. some s;
  ip_string = λ ip. ip;
  parse_mac = λ s. ok s;
  mac_string = λ mac. mac;
  parse_cidr = λ s. ok (s, s, s);
  mask_size = λ mask. 24;
}

abbrev request : AddBridgeRequest
request = record { name = codes "br0"; metadata_cidr = codes "192.0.2.1/24"; internal_only = false }

add_bridge_again_example :
    add_bridge no_netlink named net request (add_bridge no_netlink named net request []).1
    ≡ (ok tt, (add_bridge no_netlink named net request []).1)
add_bridge_again_example =
    add_bridge_again no_netlink named net holds (λ xml. some (name_in xml)) named-IsLawful apart
      request (some (codes "192.0.2.1/24", codes "192.0.2.1/24")) [] (external "Link not found")
      (codes "br0") (unfold metadata_address in refl) refl
      (unfold execute piece_text network_tmpl codes in refl)
      (unfold execute piece_text network_tmpl codes in refl)
