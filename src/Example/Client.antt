-- ===== src/Example/Client.antt =====
-- example/util.go, example/setup_compute_node/main.go and example/create_virtual_machine/main.go.
use teleskop.Agent.Service.{
  Call, Response, add_vlan_interface_call, add_bridge_call, add_interface_to_bridge_call,
  setup_default_security_group_call, add_virtual_machine_call, attach_interface_call,
  add_security_group_call, start_virtual_machine_call,
}
use teleskop.Api.Requests.{
  AddVlanInterfaceRequest, AddBridgeRequest, AddInterfaceToBridgeRequest, AddVirtualMachineRequest,
  AttachInterfaceRequest, AddSecurityGroupRequest,
}
use teleskop.Common.{ℕ, ⊤, false, []}
use teleskop.Go.Action.{Action, pure, wrap_error, ◌>>=◌, ◌>>◌}
use teleskop.Go.Error.{wrapped}
use teleskop.Go.Text.{Text, codes}
use teleskop.Network.Handlers.{vlan_name}

-- pb.AgentClient: a call of a method, and its response.
abbrev pub AgentClient : Type 0 → Type 0
AgentClient Host = (call : Call) → Action Host (Response call)

abbrev pub bridge_name : Text
bridge_name = codes "br1000"

abbrev pub vlan_id : ℕ
vlan_id = 1000

abbrev pub parent_interface : Text
parent_interface = codes "bond0"

abbrev pub node_vlan : AddVlanInterfaceRequest
node_vlan = record { vlan_id = vlan_id; parent_interface = parent_interface }

-- A field that a request does not set has its zero value.
abbrev pub node_bridge : AddBridgeRequest
node_bridge = record { name = bridge_name; metadata_cidr = []; internal_only = false }

abbrev pub node_member : AddInterfaceToBridgeRequest
node_member = record { bridge = bridge_name; interface = vlan_name parent_interface vlan_id }

abbrev pub instance_interface : Text
instance_interface = codes "tap001"

abbrev pub instance_interface_mac : Text
instance_interface_mac = codes "ca:61:85:97:93:e2"

abbrev pub bandwidth_limit : ℕ
bandwidth_limit = 128000

abbrev pub instance : AddVirtualMachineRequest
instance = record {
  name = codes "yjuba-instance001";
  vcpus = 1;
  memory_kib = 10004480;
  boot_device = codes "/dev/loop2";
  read_bytes_sec = 0;
  write_bytes_sec = 0;
  read_iops_sec = 0;
  write_iops_sec = 0;
  pinning_group_name = [];
}

abbrev pub instance_attachment : Text → AttachInterfaceRequest
instance_attachment uuid = record {
  uuid = uuid;
  bridge = bridge_name;
  inbound_average = bandwidth_limit;
  outbound_average = bandwidth_limit;
  name = instance_interface;
  mac_address = instance_interface_mac;
}

abbrev pub instance_security : AddSecurityGroupRequest
instance_security = record {
  interface = instance_interface;
  ip_address = codes "10.192.0.100";
  mac_address = instance_interface_mac;
}

-- grpc.DialContext and NewAgentClient on the connection, by the address.
module _ {Host : Type 0} (dial_context : Text → Action Host (AgentClient Host)) where
  unfoldable pub setup_client : Text → Action Host (AgentClient Host)
  setup_client addr =
      wrap_error (dial_context addr) (wrapped "failed to dial to teleskop agent: %w")

  -- run of setup_compute_node, with the flag addr.
  unfoldable pub setup_compute_node : Text → Action Host ⊤
  unfolding Response
  setup_compute_node addr = do
    client ← setup_client addr
    wrap_error (client (add_vlan_interface_call node_vlan))
        (wrapped "failed to add VLAN interface: %w")
    wrap_error (client (add_bridge_call node_bridge)) (wrapped "failed to add bridge: %w")
    wrap_error (client (add_interface_to_bridge_call node_member))
        (wrapped "failed to add interface to bridge: %w")
    wrap_error (client setup_default_security_group_call)
        (wrapped "failed to setup default security group: %w")
    pure tt

  -- run of create_virtual_machine.
  unfoldable pub create_virtual_machine : Text → Action Host ⊤
  unfolding Response
  create_virtual_machine addr = do
    client ← setup_client addr
    resp ←
        wrap_error (client (add_virtual_machine_call instance))
          (wrapped "failed to add virtual machine: %w")
    wrap_error (client (attach_interface_call (instance_attachment resp.uuid)))
        (wrapped "failed to attach interfce: %w")
    wrap_error (client (add_security_group_call instance_security))
        (wrapped "failed to add security group: %w")
    wrap_error (client (start_virtual_machine_call (record { uuid = resp.uuid })))
        (wrapped "failed to start virtual machine: %w")
    pure tt
