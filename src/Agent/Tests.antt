-- ===== src/Agent/Tests.antt =====
-- The agent on a host where every call outside fails.
use teleskop.Agent.OsBrick.{OsBrick, get_iscsi_qualified_name}
use teleskop.Agent.Reports.{serve_known}
use teleskop.Agent.Service.{Services, serve, Response, get_iscsi_qualified_name_call}
use teleskop.Agent.Setup.{trim_vlan_id}
use teleskop.Agent.Setup.Names.{trim_vlan_id-vlan_name}
use teleskop.Common.{ℕ, ⊤, ◌≡◌, ◌≢◌, refl, true, none, List, [], arith}
use teleskop.Go.Action.{raise}
use teleskop.Go.Error.{Error, err, external, status, internal, code_of, unknown}
use teleskop.Go.Int.{pos}
use teleskop.Go.Net.{Net}
use teleskop.Go.Text.{Text, codes}
use teleskop.Iptables.Client.{IpTables}
use teleskop.Network.Handlers.{vlan_name}
use teleskop.Network.Netlink.{Netlink, Networks}
use teleskop.Vm.Libvirt.{Libvirt}

abbrev pub down : Error
down = external "down"

abbrev pub no_iptables : Type 0 → IpTables
no_iptables Host = record {
  Host = Host;
  new = raise down;
  new_chain = λ table chain. raise down;
  append_unique = λ table chain rule. raise down;
  insert = λ table chain pos rule. raise down;
  clear_chain = λ table chain. raise down;
  delete_chain = λ table chain. raise down;
}

abbrev pub no_libvirt : {Host : Type 0} → Libvirt Host
no_libvirt = record {
  domain_define_xml = λ xml. raise down;
  domain_lookup_by_uuid = λ uuid. raise down;
  domain_create = λ domain. raise down;
  domain_undefine = λ domain. raise down;
  domain_destroy = λ domain. raise down;
  domain_attach_device_flags = λ domain xml flags. raise down;
  domain_detach_device_flags = λ domain xml flags. raise down;
  domain_get_state = λ domain. raise down;
  connect_list_all_domains = λ flags. raise down;
  get_cpu_core_by_pinning_group = λ hostname group. raise down;
  hostname = raise down;
  domain_running = pos 1;
  domain_shutoff = pos 5;
  modify_config = 2;
  modify_live = 1;
  modify_force = 4;
  list_domains_active = 1;
  list_domains_inactive = 2;
}

abbrev pub no_networks : {Host : Type 0} → Networks Host
no_networks = record {
  Network = ⊤;
  network_lookup_by_name = λ name. raise down;
  network_define_xml = λ xml. raise down;
  network_create = λ network. raise down;
  network_destroy = λ network. raise down;
  network_undefine = λ network. raise down;
}

abbrev pub no_netlink : {Host : Type 0} → Netlink Host
no_netlink = record {
  Link = Text;
  name = λ link. link;
  index = λ link. pos 1;
  master_index = λ link. pos 0;
  is_veth = λ link. true;
  new_veth = λ name peer. name;
  new_vlan = λ name parent id. name;
  link_list = raise down;
  link_by_name = λ name. raise down;
  link_by_index = λ index. raise down;
  link_add = λ link. raise down;
  link_del = λ link. raise down;
  link_set_up = λ link. raise down;
  link_set_down = λ link. raise down;
  link_set_master = λ link bridge. raise down;
  link_set_no_master = λ link. raise down;
  veth_peer_index = λ link. raise down;
  Addr = List ℕ;
  addr_ip = λ addr. addr;
  parse_addr = λ text. err down;
  addr_list = λ link. raise down;
  addr_add = λ link addr. raise down;
  addr_del = λ link addr. raise down;
}

abbrev pub no_osbrick : {Host : Type 0} → OsBrick Host
no_osbrick = record {
  connect_single_path_volume = λ address lun. raise down;
  connect_multipath_volume = λ addresses lun. raise down;
  disconnect_single_path_volume = λ address lun. raise down;
  disconnect_volume = λ addresses lun. raise down;
  get_iqn = raise down;
}

abbrev pub no_net : Net
no_net = record {
  parse_ip = λ s. none;
  ip_string = λ ip. [];
  parse_mac = λ s. err down;
  mac_string = λ mac. [];
  parse_cidr = λ s. err down;
  mask_size = λ mask. 0;
}

abbrev services : Services
services = record {
  iptables = no_iptables ⊤;
  libvirt = no_libvirt;
  networks = no_networks;
  netlink = no_netlink;
  osbrick = no_osbrick;
  net = no_net;
  interface_name = codes "bond0.1000";
}

serve_known_example : code_of (status internal "failed to get iqn: %+v" down) ≢ unknown
serve_known_example =
    serve_known services get_iscsi_qualified_name_call tt
      (status internal "failed to get iqn: %+v" down)
      (unfold serve Response get_iscsi_qualified_name in refl)

trim_vlan_id-vlan_name_example : trim_vlan_id (vlan_name (codes "bond0") 1000) ≡ codes "bond0"
trim_vlan_id-vlan_name_example =
    trim_vlan_id-vlan_name (codes "bond0") 1000 (unfold codes in ground arith)
