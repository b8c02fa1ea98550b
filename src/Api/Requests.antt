-- ===== src/Api/Requests.antt =====
-- protoc/agent/agent.pb.go: the requests. A string is the list of its bytes, an unsigned number a ℕ.
-- A message with no field has no record: it is ⊤.
use teleskop.Common.{ℕ, Bool, List}
use teleskop.Go.Text.{Text}

pub record AddSecurityGroupRequest : Type 0 where
  pub interface : Text
  pub ip_address : Text
  pub mac_address : Text

pub record AddBridgeRequest : Type 0 where
  pub name : Text
  pub metadata_cidr : Text
  pub internal_only : Bool

pub record AddVlanInterfaceRequest : Type 0 where
  pub vlan_id : ℕ
  pub parent_interface : Text

pub record AddInterfaceToBridgeRequest : Type 0 where
  pub bridge : Text
  pub interface : Text

pub record AddVirtualMachineRequest : Type 0 where
  pub name : Text
  pub vcpus : ℕ
  pub memory_kib : ℕ
  pub boot_device : Text
  pub read_bytes_sec : ℕ
  pub write_bytes_sec : ℕ
  pub read_iops_sec : ℕ
  pub write_iops_sec : ℕ
  pub pinning_group_name : Text

pub record ConnectBlockDeviceRequest : Type 0 where
  pub portal_addresses : List Text
  pub host_lun_id : ℕ

pub record AttachBlockDeviceRequest : Type 0 where
  pub uuid : Text
  pub source_device : Text
  pub target_device : Text
  pub read_bytes_sec : ℕ
  pub write_bytes_sec : ℕ
  pub read_iops_sec : ℕ
  pub write_iops_sec : ℕ

pub record AttachInterfaceRequest : Type 0 where
  pub uuid : Text
  pub bridge : Text
  pub inbound_average : ℕ
  pub outbound_average : ℕ
  pub name : Text
  pub mac_address : Text

pub record StartVirtualMachineRequest : Type 0 where
  pub uuid : Text

pub record GetVirtualMachineStateRequest : Type 0 where
  pub uuid : Text

pub record DeleteBridgeRequest : Type 0 where
  pub name : Text

pub record DeleteVlanInterfaceRequest : Type 0 where
  pub vlan_id : ℕ
  pub parent_interface : Text

pub record DeleteInterfaceFromBridgeRequest : Type 0 where
  pub bridge : Text
  pub interface : Text

pub record DeleteVirtualMachineRequest : Type 0 where
  pub uuid : Text

pub record DisconnectBlockDeviceRequest : Type 0 where
  pub portal_addresses : List Text
  pub host_lun_id : ℕ

pub record StopVirtualMachineRequest : Type 0 where
  pub uuid : Text

pub record DetachBlockDeviceRequest : Type 0 where
  pub uuid : Text
  pub source_device : Text
  pub target_device : Text

pub record DetachInterfaceRequest : Type 0 where
  pub uuid : Text
  pub bridge : Text
  pub inbound_average : ℕ
  pub outbound_average : ℕ
  pub name : Text
  pub mac_address : Text
