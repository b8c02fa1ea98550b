-- ===== src/Agent/Service.antt =====
-- The gRPC service of protoc/agent/agent.pb.go, with the agent as its server.
use teleskop.Agent.OsBrick.{
  OsBrick, connect_block_device, disconnect_block_device, get_iscsi_qualified_name,
}
use teleskop.Api.Requests.{
  AddBridgeRequest, AddInterfaceToBridgeRequest, AddSecurityGroupRequest, AddVirtualMachineRequest,
  AddVlanInterfaceRequest, AttachBlockDeviceRequest, AttachInterfaceRequest,
  ConnectBlockDeviceRequest, DeleteBridgeRequest, DeleteInterfaceFromBridgeRequest,
  DeleteVirtualMachineRequest, DeleteVlanInterfaceRequest, DetachBlockDeviceRequest,
  DetachInterfaceRequest, DisconnectBlockDeviceRequest, GetVirtualMachineStateRequest,
  StartVirtualMachineRequest, StopVirtualMachineRequest,
}
use teleskop.Api.Responses.{
  AddVirtualMachineResponse, AttachBlockDeviceResponse, AttachInterfaceResponse,
  ConnectBlockDeviceResponse, GetInterfaceNameResponse, GetIscsiQualifiedNameResponse,
  GetVirtualMachineStateResponse, ListVirtualMachineStateResponse, StartVirtualMachineResponse,
}
use teleskop.Common.{⊤}
use teleskop.Go.Action.{Action}
use teleskop.Go.Net.{Net}
use teleskop.Go.Text.{Text}
use teleskop.Iptables.Client.{IpTables}
use teleskop.Iptables.Handlers.{
  get_ip_tables, setup_default_security_group_handler, add_security_group_handler,
}
use teleskop.Network.Handlers.{
  get_interface_name, add_bridge, delete_bridge, add_interface_to_bridge,
  delete_interface_from_bridge, add_vlan_interface, delete_vlan_interface,
}
use teleskop.Network.Netlink.{Netlink, Networks}
use teleskop.Vm.Handlers.{
  add_virtual_machine, start_virtual_machine, stop_virtual_machine, delete_virtual_machine,
  attach_block_device, attach_interface, detach_block_device, detach_interface,
  get_virtual_machine_state, list_virtual_machine_state,
}
use teleskop.Vm.Libvirt.{Libvirt}

-- The methods of AgentServer, with their requests.
pub data Call : Type 0 where
  get_iscsi_qualified_name_call : Call
  get_ip_tables_call : Call
  setup_default_security_group_call : Call
  add_security_group_call : AddSecurityGroupRequest → Call
  get_interface_name_call : Call
  add_bridge_call : AddBridgeRequest → Call
  add_vlan_interface_call : AddVlanInterfaceRequest → Call
  add_interface_to_bridge_call : AddInterfaceToBridgeRequest → Call
  add_virtual_machine_call : AddVirtualMachineRequest → Call
  connect_block_device_call : ConnectBlockDeviceRequest → Call
  get_virtual_machine_state_call : GetVirtualMachineStateRequest → Call
  list_virtual_machine_state_call : Call
  start_virtual_machine_call : StartVirtualMachineRequest → Call
  attach_block_device_call : AttachBlockDeviceRequest → Call
  attach_interface_call : AttachInterfaceRequest → Call
  delete_bridge_call : DeleteBridgeRequest → Call
  delete_vlan_interface_call : DeleteVlanInterfaceRequest → Call
  delete_interface_from_bridge_call : DeleteInterfaceFromBridgeRequest → Call
  delete_virtual_machine_call : DeleteVirtualMachineRequest → Call
  disconnect_block_device_call : DisconnectBlockDeviceRequest → Call
  stop_virtual_machine_call : StopVirtualMachineRequest → Call
  detach_block_device_call : DetachBlockDeviceRequest → Call
  detach_interface_call : DetachInterfaceRequest → Call

-- The type of the response of a method.
unfoldable pub Response : Call → Type 0
Response get_iscsi_qualified_name_call = GetIscsiQualifiedNameResponse
Response get_interface_name_call = GetInterfaceNameResponse
Response (add_virtual_machine_call _) = AddVirtualMachineResponse
Response (connect_block_device_call _) = ConnectBlockDeviceResponse
Response (get_virtual_machine_state_call _) = GetVirtualMachineStateResponse
Response list_virtual_machine_state_call = ListVirtualMachineStateResponse
Response (start_virtual_machine_call _) = StartVirtualMachineResponse
Response (attach_block_device_call _) = AttachBlockDeviceResponse
Response (attach_interface_call _) = AttachInterfaceResponse
Response _ = ⊤

-- What the agent's methods call. The state of the host is that of the iptables client.
pub record Services : Type 1 where
  pub iptables : IpTables
  pub libvirt : Libvirt iptables.Host
  pub networks : Networks iptables.Host
  pub netlink : Netlink iptables.Host
  pub osbrick : OsBrick iptables.Host
  pub net : Net
  -- The agent's field interfaceName.
  pub interface_name : Text

module _ (s : Services) where
  -- The dispatch of a decoded request, where there is no interceptor.
  unfoldable pub serve : (call : Call) → Action s.iptables.Host (Response call)
  unfolding Response
  serve get_iscsi_qualified_name_call = get_iscsi_qualified_name s.osbrick
  serve get_ip_tables_call = get_ip_tables s.iptables
  serve setup_default_security_group_call = setup_default_security_group_handler s.iptables
  serve (add_security_group_call req) = add_security_group_handler s.iptables s.net req
  serve get_interface_name_call = get_interface_name s.interface_name
  serve (add_bridge_call req) = add_bridge s.netlink s.networks s.net req
  serve (add_vlan_interface_call req) = add_vlan_interface s.netlink req
  serve (add_interface_to_bridge_call req) = add_interface_to_bridge s.netlink req
  serve (add_virtual_machine_call req) = add_virtual_machine s.libvirt req
  serve (connect_block_device_call req) = connect_block_device s.osbrick req
  serve (get_virtual_machine_state_call req) = get_virtual_machine_state s.libvirt req
  serve list_virtual_machine_state_call = list_virtual_machine_state s.libvirt
  serve (start_virtual_machine_call req) = start_virtual_machine s.libvirt req
  serve (attach_block_device_call req) = attach_block_device s.libvirt req
  serve (attach_interface_call req) = attach_interface s.libvirt req
  serve (delete_bridge_call req) = delete_bridge s.netlink s.networks req
  serve (delete_vlan_interface_call req) = delete_vlan_interface s.netlink req
  serve (delete_interface_from_bridge_call req) = delete_interface_from_bridge s.netlink req
  serve (delete_virtual_machine_call req) = delete_virtual_machine s.libvirt req
  serve (disconnect_block_device_call req) = disconnect_block_device s.osbrick req
  serve (stop_virtual_machine_call req) = stop_virtual_machine s.libvirt req
  serve (detach_block_device_call req) = detach_block_device s.libvirt req
  serve (detach_interface_call req) = detach_interface s.libvirt req
