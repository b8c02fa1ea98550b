-- ===== src/Agent/Reports.antt =====
-- The errors of the whole service, by their gRPC codes.
use teleskop.Agent.OsBrick.{
  OsBrick, connect_block_device, disconnect_block_device, get_iscsi_qualified_name,
}
use teleskop.Agent.Service.{
  add_bridge_call, add_interface_to_bridge_call, add_security_group_call, add_virtual_machine_call,
  add_vlan_interface_call, attach_block_device_call, attach_interface_call,
  connect_block_device_call, delete_bridge_call, delete_interface_from_bridge_call,
  delete_virtual_machine_call, delete_vlan_interface_call, detach_block_device_call,
  detach_interface_call, disconnect_block_device_call, get_interface_name_call, get_ip_tables_call,
  get_iscsi_qualified_name_call, get_virtual_machine_state_call, list_virtual_machine_state_call,
  setup_default_security_group_call, start_virtual_machine_call, stop_virtual_machine_call, Call,
  Response, Services, serve,
}
use teleskop.Api.Requests.{ConnectBlockDeviceRequest, DisconnectBlockDeviceRequest}
use teleskop.Common.{◌≡◌, ◌≢◌}
use teleskop.Go.Error.{Error, err, code_of, unknown}
use teleskop.Go.Reports.{Reports, reporting}
use teleskop.Iptables.Reports.{
  get_ip_tables-Reports, setup_default_security_group_handler-Reports,
  add_security_group_handler-Reports,
}
use teleskop.Network.Handlers.{get_interface_name}
use teleskop.Network.Reports.{
  add_interface_to_bridge-Reports, delete_interface_from_bridge-Reports, add_vlan_interface-Reports,
  delete_vlan_interface-Reports, add_bridge-Reports, delete_bridge-Reports,
}
use teleskop.Vm.Reports.{
  add_virtual_machine-Reports, start_virtual_machine-Reports, stop_virtual_machine-Reports,
  delete_virtual_machine-Reports, attach_block_device-Reports, attach_interface-Reports,
  detach_block_device-Reports, detach_interface-Reports, get_virtual_machine_state-Reports,
  list_virtual_machine_state-Reports,
}

module _ {Host : Type 0} (osbrick : OsBrick Host) where
  connect_block_device-Reports :
      (req : ConnectBlockDeviceRequest) → Reports (connect_block_device osbrick req)
  unfolding connect_block_device
  connect_block_device-Reports req = search reporting

  disconnect_block_device-Reports :
      (req : DisconnectBlockDeviceRequest) → Reports (disconnect_block_device osbrick req)
  unfolding disconnect_block_device
  disconnect_block_device-Reports req = search reporting

  get_iscsi_qualified_name-Reports : Reports (get_iscsi_qualified_name osbrick)
  unfolding get_iscsi_qualified_name
  get_iscsi_qualified_name-Reports = search reporting

module _ (s : Services) where
  get_interface_name-Reports :
      Reports (get_interface_name {Host = s.iptables.Host} s.interface_name)
  unfolding get_interface_name
  get_interface_name-Reports = search reporting

  serve-Reports : (call : Call) → Reports (serve s call)
  unfolding serve Response
  serve-Reports get_iscsi_qualified_name_call = get_iscsi_qualified_name-Reports s.osbrick
  serve-Reports get_ip_tables_call = get_ip_tables-Reports s.iptables
  serve-Reports setup_default_security_group_call =
      setup_default_security_group_handler-Reports s.iptables
  serve-Reports (add_security_group_call req) =
      add_security_group_handler-Reports s.iptables s.net req
  serve-Reports get_interface_name_call = get_interface_name-Reports
  serve-Reports (add_bridge_call req) = add_bridge-Reports s.netlink s.networks s.net req
  serve-Reports (add_vlan_interface_call req) = add_vlan_interface-Reports s.netlink req
  serve-Reports (add_interface_to_bridge_call req) = add_interface_to_bridge-Reports s.netlink req
  serve-Reports (add_virtual_machine_call req) = add_virtual_machine-Reports s.libvirt req
  serve-Reports (connect_block_device_call req) = connect_block_device-Reports s.osbrick req
  serve-Reports (get_virtual_machine_state_call req) =
      get_virtual_machine_state-Reports s.libvirt req
  serve-Reports list_virtual_machine_state_call = list_virtual_machine_state-Reports s.libvirt
  serve-Reports (start_virtual_machine_call req) = start_virtual_machine-Reports s.libvirt req
  serve-Reports (attach_block_device_call req) = attach_block_device-Reports s.libvirt req
  serve-Reports (attach_interface_call req) = attach_interface-Reports s.libvirt req
  serve-Reports (delete_bridge_call req) = delete_bridge-Reports s.netlink s.networks req
  serve-Reports (delete_vlan_interface_call req) = delete_vlan_interface-Reports s.netlink req
  serve-Reports (delete_interface_from_bridge_call req) =
      delete_interface_from_bridge-Reports s.netlink req
  serve-Reports (delete_virtual_machine_call req) = delete_virtual_machine-Reports s.libvirt req
  serve-Reports (disconnect_block_device_call req) = disconnect_block_device-Reports s.osbrick req
  serve-Reports (stop_virtual_machine_call req) = stop_virtual_machine-Reports s.libvirt req
  serve-Reports (detach_block_device_call req) = detach_block_device-Reports s.libvirt req
  serve-Reports (detach_interface_call req) = detach_interface-Reports s.libvirt req

  -- Every error that a method of the agent returns carries a code of its own: a client never sees
  -- Unknown.
  pub serve_known :
      (call : Call) (w : s.iptables.Host) (e : Error)
      → (serve s call w).0 ≡ err e
      → code_of e ≢ unknown
  serve_known call w e failed = (serve-Reports call).at w e failed
