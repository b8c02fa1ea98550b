-- ===== src/Example/Tests.antt =====
-- The example programs against an agent on a small host.
use teleskop.Agent.Service.{Services, serve, Response}
use teleskop.Agent.Tests.{no_libvirt, no_networks, no_netlink, no_osbrick}
use teleskop.Common.{◌≡◌, ◌≢◌, refl, eq_bytes}
use teleskop.Example.Client.{setup_client, setup_compute_node, create_virtual_machine}
use teleskop.Example.Node.{reach, setup_compute_node_fails}
use teleskop.Example.Secured.{IsSecured, create_virtual_machine-IsSecured}
use teleskop.Go.Action.{pure}
use teleskop.Go.Error.{ok}
use teleskop.Go.Int.{pos}
use teleskop.Go.Keeps.{Keeps}
use teleskop.Go.Text.{codes}
use teleskop.Iptables.Chain.{table_filter}
use teleskop.Iptables.Handlers.{setup_default_security_group_handler}
use teleskop.Iptables.Memory.{Memory, memory_client, memory_client-IsLawful}
use teleskop.Iptables.Tests.{fresh, net}
use teleskop.Network.Preserves.{LinkPrimitives}
use teleskop.Network.Netlink.{Netlink}
use teleskop.Iptables.Handlers.{new_client, required, add_security_group_handler}
use teleskop.Iptables.Client.{
  put, eq_rule, holds_rule, insert_at, after_new_chain, after_append_unique, after_insert,
}
use teleskop.Iptables.Chain.{get_valid_chain_name}
use teleskop.Iptables.Memory.{perform}
use teleskop.Iptables.Rules.{
  get_input_chain_name, get_output_chain_name, get_source_chain_name, source_rules, input_sg_rules,
  output_sg_rules, sg_rules, input_rules, forward_rules,
}
use teleskop.Iptables.Add.{
  new_chain_with, insert_from, insert_rules, add_source_sg_rules, add_output_sg_rules,
  add_input_sg_rules, add_sg_rules, add_input_rules, add_forward_rules, add_security_group,
}
use teleskop.Iptables.Setup.{
  setup_chain, setup_with, setup_sg_fallback_chain, setup_sg_chain, setup_input, setup_forward,
  run_all, setup_default_security_group,
}
use teleskop.Go.Hex.{hex_text, hex_digit, hex_decode, hex_char, from_hex_char}
use teleskop.Go.Text.{remove_all}
use teleskop.Vm.Uuid.{parse_uuid, lookup_domain}
use teleskop.Vm.Handlers.{
  cpu_sets, get_domain_state, modify_flags, attach_block_device, attach_interface,
  attach_boot_device, add_virtual_machine, start_virtual_machine,
}
use teleskop.Vm.Preserves.{DomainPrimitives}
use teleskop.Go.Moves.{Same}
use teleskop.Vm.Libvirt.{Libvirt}
use teleskop.Vm.Tests.{vm}

-- Every interface is there, and the only domain.
abbrev some_netlink : Netlink Memory
some_netlink = record no_netlink { link_by_name = pure }

abbrev one_domain : Libvirt Memory
one_domain = record no_libvirt {
  domain_define_xml = λ xml. pure vm;
  domain_lookup_by_uuid = λ uuid. pure vm;
  domain_create = λ domain. pure tt;
  domain_attach_device_flags = λ domain xml flags. pure tt;
  domain_get_state = λ domain. pure (pos 5);
}

abbrev services : Services
services = record {
  iptables = memory_client;
  libvirt = one_domain;
  networks = no_networks;
  netlink = some_netlink;
  osbrick = no_osbrick;
  net = net;
  interface_name = codes "bond0.1000";
}

apart_links : LinkPrimitives some_netlink (Same (memory_client-IsLawful table_filter).view)
apart_links = record {
  link_by_name = λ name. record { at = λ w. refl };
  link_by_index = λ index. record { at = λ w. refl };
  link_add = λ link. record { at = λ w. refl };
  link_del = λ link. record { at = λ w. refl };
  link_set_up = λ link. record { at = λ w. refl };
  link_set_down = λ link. record { at = λ w. refl };
  link_set_master = λ link bridge. record { at = λ w. refl };
  link_set_no_master = λ link. record { at = λ w. refl };
  veth_peer_index = λ link. record { at = λ w. refl };
  addr_list = λ link. record { at = λ w. refl };
  addr_add = λ link addr. record { at = λ w. refl };
  addr_del = λ link addr. record { at = λ w. refl };
}

setup_compute_node_fails_example :
    ((setup_compute_node (reach services) (codes "127.0.0.1:5000") fresh).0 ≢ ok tt)
    × ((memory_client-IsLawful table_filter).view
          (setup_compute_node (reach services) (codes "127.0.0.1:5000") fresh).1
        ≡ (memory_client-IsLawful table_filter).view fresh)
setup_compute_node_fails_example =
    setup_compute_node_fails services (memory_client-IsLawful table_filter).view apart_links
      (codes "127.0.0.1:5000") _ fresh refl

abbrev ready : Memory
ready = (setup_default_security_group_handler memory_client fresh).1

opens : Keeps (memory_client-IsLawful table_filter).view memory_client.new
opens = record { at = λ w. refl }

apart : DomainPrimitives one_domain (Same (memory_client-IsLawful table_filter).view)
apart = record {
  define = λ xml. record { at = λ w. refl };
  lookup = λ uuid. record { at = λ w. refl };
  create = λ domain. record { at = λ w. refl };
  attach = λ domain xml flags. record { at = λ w. refl };
  destroy = λ domain. record { at = λ w. refl };
  detach = λ domain xml flags. record { at = λ w. refl };
  list = λ flags. record { at = λ w. refl };
  state = λ domain. record { at = λ w. refl };
  pinning = λ hostname group. record { at = λ w. refl };
  host = record { at = λ w. refl };
}

sets_up : (setup_default_security_group_handler memory_client fresh).0 ≡ ok tt
unfolding setup_default_security_group_handler new_client setup_default_security_group run_all
    setup_sg_fallback_chain setup_sg_chain setup_input setup_forward setup_with setup_chain perform
    after_new_chain after_append_unique put codes eq_bytes holds_rule eq_rule
sets_up = refl

creates : (create_virtual_machine (reach services) (codes "127.0.0.1:5000") ready).0 ≡ ok tt
unfolding create_virtual_machine setup_client serve Response add_virtual_machine cpu_sets
    attach_boot_device attach_block_device attach_interface lookup_domain parse_uuid remove_all
    hex_text hex_digit hex_decode hex_char from_hex_char get_domain_state modify_flags
    start_virtual_machine add_security_group_handler required setup_default_security_group_handler
    new_client setup_default_security_group setup_sg_fallback_chain setup_sg_chain setup_input
    setup_forward setup_with after_append_unique holds_rule eq_rule add_security_group run_all
    add_source_sg_rules add_output_sg_rules add_input_sg_rules add_sg_rules add_input_rules
    add_forward_rules new_chain_with insert_rules insert_from setup_chain perform after_new_chain
    after_insert insert_at put codes eq_bytes get_source_chain_name get_output_chain_name
    get_input_chain_name get_valid_chain_name source_rules output_sg_rules input_sg_rules sg_rules
    input_rules forward_rules
creates = refl

create_virtual_machine-IsSecured_example :
    IsSecured services
      (create_virtual_machine (reach services) (codes "127.0.0.1:5000") ready).1.chains
create_virtual_machine-IsSecured_example =
    create_virtual_machine-IsSecured services (memory_client-IsLawful table_filter) opens apart
      (codes "127.0.0.1:5000") fresh ready sets_up refl creates
