-- ===== src/Api/Responses.antt =====
-- protoc/agent/agent.pb.go: the responses, and the state of a virtual machine. A string is the list of its bytes, an unsigned number a ℕ.
-- A message with no field has no record: it is ⊤.
use teleskop.Common.{List}
use teleskop.Go.Int.{ℤ}
use teleskop.Go.Text.{Text}

pub record VirtualMachineState : Type 0 where
  pub uuid : Text
  pub name : Text
  pub state : ℤ

pub record GetIscsiQualifiedNameResponse : Type 0 where
  pub iqn : Text

pub record GetInterfaceNameResponse : Type 0 where
  pub interface_name : Text

pub record AddVirtualMachineResponse : Type 0 where
  pub uuid : Text
  pub name : Text

pub record ConnectBlockDeviceResponse : Type 0 where
  pub device_name : Text

pub record StartVirtualMachineResponse : Type 0 where
  pub uuid : Text
  pub name : Text

pub record GetVirtualMachineStateResponse : Type 0 where
  pub state : VirtualMachineState

pub record ListVirtualMachineStateResponse : Type 0 where
  pub states : List VirtualMachineState

pub record AttachBlockDeviceResponse : Type 0 where
  pub uuid : Text
  pub name : Text

pub record AttachInterfaceResponse : Type 0 where
  pub uuid : Text
  pub name : Text
