-- ===== src/Agent/Preserves/Tests.antt =====
-- Two calls on a host that is nothing but whether its one domain is defined.
use teleskop.Agent.Preserves.{AllPrimitives, IsKept, Kept, Serving, Serving-IsKept}
use teleskop.Agent.Service.{Services, serve, add_virtual_machine_call, get_ip_tables_call}
use teleskop.Agent.Tests.{no_libvirt, no_networks, no_netlink, no_osbrick, no_net, down}
use teleskop.Api.Requests.{AddVirtualMachineRequest}
use teleskop.Common.{ℕ, Bool, true, false, Option, none, some, List, [], eq_bytes, if◌then◌else◌}
use teleskop.Go.Action.{raise}
use teleskop.Go.Error.{ok}
use teleskop.Go.Moves.{Moves}
use teleskop.Go.Text.{codes}
use teleskop.Iptables.Client.{IpTables}
use teleskop.Vm.Libvirt.{Domain}
use teleskop.Vm.Tests.{vm}

abbrev one : Bool → List ℕ → Option Domain
one true uuid = if eq_bytes uuid vm.uuid then some vm else none
one false uuid = none

abbrev no_tables : IpTables
no_tables = record {
  Host = Bool;
  new = raise down;
  new_chain = λ table chain. raise down;
  append_unique = λ table chain rule. raise down;
  insert = λ table chain pos rule. raise down;
  clear_chain = λ table chain. raise down;
  delete_chain = λ table chain. raise down;
}

abbrev services : Services
services = record {
  iptables = no_tables;
  libvirt = record no_libvirt { domain_define_xml = λ xml w. (ok vm, true) };
  networks = no_networks;
  netlink = no_netlink;
  osbrick = no_osbrick;
  net = no_net;
  interface_name = codes "bond0.1000";
}

none-IsKept : (v : List ℕ → Option Domain) → IsKept (λ uuid. none) v
none-IsKept v = record { at = λ uuid domain h. cc }

defines : (w : Bool) → IsKept (one w) (one true)
defines true = record { at = λ uuid domain h. h }
defines false = none-IsKept (one true)

fails : {A : Type 0} → Moves {A = A} (Kept services one) (raise down)
fails = record { at = λ w. record { at = λ uuid domain h. h } }

primitives : AllPrimitives services (Kept services one)
primitives = record {
  chains = record {
    new = fails;
    new_chain = λ table chain. fails;
    append_unique = λ table chain rule. fails;
    insert = λ table chain pos rule. fails;
    clear_chain = λ table chain. fails;
    delete_chain = λ table chain. fails;
  };
  domains = record {
    define = λ xml. record { at = defines };
    lookup = λ uuid. fails;
    create = λ domain. fails;
    destroy = λ domain. fails;
    attach = λ domain xml flags. fails;
    detach = λ domain xml flags. fails;
    state = λ domain. fails;
    list = λ flags. fails;
    pinning = λ hostname group. fails;
    host = fails;
  };
  links = record {
    link_by_name = λ name. fails;
    link_by_index = λ index. fails;
    link_add = λ link. fails;
    link_del = λ link. fails;
    link_set_up = λ link. fails;
    link_set_down = λ link. fails;
    link_set_master = λ link bridge. fails;
    link_set_no_master = λ link. fails;
    veth_peer_index = λ link. fails;
    addr_list = λ link. fails;
    addr_add = λ link addr. fails;
    addr_del = λ link addr. fails;
  };
  networks = record {
    lookup = λ name. fails;
    define = λ xml. fails;
    create = λ network. fails;
    destroy = λ network. fails;
    undefine = λ network. fails;
  };
  disks = record {
    connect_single = λ address lun. fails;
    connect_many = λ addresses lun. fails;
    disconnect_single = λ address lun. fails;
    disconnect_many = λ addresses lun. fails;
    iqn = fails;
  };
}

abbrev request : AddVirtualMachineRequest
request = record {
  name = codes "vm";
  vcpus = 1;
  memory_kib = 1024;
  boot_device = codes "/dev/loop2";
  read_bytes_sec = 0;
  write_bytes_sec = 0;
  read_iops_sec = 0;
  write_iops_sec = 0;
  pinning_group_name = [];
}

abbrev served : Bool
served =
    (serve services (add_virtual_machine_call request) (serve services get_ip_tables_call true).1).1

Serving-IsKept_example : IsKept (one true) (one served)
Serving-IsKept_example = Serving-IsKept services one primitives (
    Serving.call_next (Serving.call_next Serving.here get_ip_tables_call tt)
      (add_virtual_machine_call request) tt)
