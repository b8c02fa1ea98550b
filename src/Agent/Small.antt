-- ===== src/Agent/Small.antt =====
-- A small host on which the agent starts: its state is what the datastore was told.
use teleskop.Agent.Registered
use teleskop.Agent.Registered.{Registration}
use teleskop.Agent.Run.{Daemon}
use teleskop.Agent.Service.{Services}
use teleskop.Agent.Setup.{Datastore}
use teleskop.Agent.Started.{IsSilent, IsRefused, IsStarted, run_lem}
use teleskop.Agent.Tests.{
  no_iptables, no_libvirt, no_networks, no_netlink, no_osbrick, no_net, down,
}
use teleskop.Common.{◌⊎◌, refl, List, [], ◌∷◌, ◌++◌}
use teleskop.Cpu.Host.{Files}
use teleskop.Go.Moves.{Moves, Same}
use teleskop.Dhcp.Packet.{Wire}
use teleskop.Dhcp.Tests.{constants}
use teleskop.Go.Action.{pure, raise}
use teleskop.Go.Error.{ok, err}
use teleskop.Go.Keeps.{Keeps}
use teleskop.Go.Text.{Text, codes}

abbrev Told : Type 0
Told = List Registration

abbrev bond : Text
bond = codes "bond0.1000"

abbrev services : Services
services = record {
  iptables = no_iptables Told;
  libvirt = record no_libvirt { hostname = pure (codes "hv0") };
  networks = no_networks;
  netlink = record no_netlink {
    link_list = pure (bond ∷ []);
    link_by_name = pure;
    addr_list = λ link. pure ((192 ∷ 0 ∷ 2 ∷ 1 ∷ []) ∷ []);
  };
  osbrick = record no_osbrick { get_iqn = pure (codes "iqn.1993-08.org.debian:01:hv0") };
  net = no_net;
  interface_name = bond;
}

abbrev datastore : Datastore Told
datastore = record {
  list_bridge = pure [];
  register_teleskop_agent = λ hostname endpoint iqn nodes told. (
    ok tt,
    told ++ record { hostname = hostname; endpoint = endpoint; iqn = iqn; nodes = nodes } ∷ [],
  );
}

abbrev files : Files
files = record { glob = λ pattern. ok []; read_file = λ name. err down }

abbrev wire : Wire Told
wire = record {
  new_conn = λ address. raise down;
  close = pure tt;
  recv_dhcp = raise down;
  send_dhcp = λ resp to. raise down;
  get_dhcp_lease = λ mac. raise down;
}

-- The servers end at once.
abbrev daemon : Daemon Told
daemon = record {
  init_logger = pure tt;
  dial_libvirt = λ address. pure tt;
  connect_libvirt = pure tt;
  lib_version = pure 6000;
  listen = λ address. pure tt;
  dial_satelit = λ endpoint. pure tt;
  serve_agent = raise down;
  serve_metadata = λ address. raise down;
  group = λ servers. raise down;
}

abbrev told : Told → Told
told w = w

same : {A : Type 0} (a : A) → Keeps told (pure a)
same a = record { at = λ w. refl }

fails : {A : Type 0} → Moves {A = A} (Same told) (raise down)
fails = record { at = λ w. refl }

abbrev lawful : Registered.IsLawful services datastore told
lawful = record {
  registers = λ hostname endpoint iqn nodes w a h. refl;
  lists = same [];
  link = record {
    link_by_name = λ name. record { at = λ w. refl };
    link_by_index = λ index. fails;
    link_add = λ link. fails;
    link_del = λ link. fails;
    link_set_down = λ link. fails;
    link_set_no_master = λ link. fails;
    addr_list = λ link. record { at = λ w. refl };
    addr_del = λ link addr. fails;
    link_set_up = λ link. fails;
    link_set_master = λ link bridge. fails;
    veth_peer_index = λ link. fails;
    addr_add = λ link addr. fails;
  };
  network = record {
    lookup = λ name. fails;
    define = λ xml. fails;
    create = λ network. fails;
    destroy = λ network. fails;
    undefine = λ network. fails;
  };
  hostname = same _;
  iqn = same _;
}

silent : IsSilent daemon told
silent = record {
  init_logger = same tt;
  dial_libvirt = λ address. same tt;
  connect_libvirt = same tt;
  lib_version = same 6000;
  listen = λ address. same tt;
  dial_satelit = λ endpoint. same tt;
}

run_lem_example :
    IsRefused services datastore files constants wire daemon 3 (codes "127.0.0.1:9263") bond []
    ⊎ IsStarted services datastore files constants wire daemon told lawful 3
        (codes "127.0.0.1:9263")
        bond
        []
run_lem_example =
    run_lem services datastore files constants wire daemon told lawful (same (bond ∷ [])) silent 3
      (codes "127.0.0.1:9263") bond []
