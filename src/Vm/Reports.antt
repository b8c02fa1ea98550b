-- ===== src/Vm/Reports.antt =====
-- The errors of the virtual machine handlers, by their gRPC codes.
use teleskop.Api.Requests.{
  AddVirtualMachineRequest, AttachBlockDeviceRequest, AttachInterfaceRequest,
  DetachBlockDeviceRequest, DetachInterfaceRequest, StartVirtualMachineRequest,
  StopVirtualMachineRequest, DeleteVirtualMachineRequest, GetVirtualMachineStateRequest,
}
use teleskop.Common.{List, [], ◌∷◌}
use teleskop.Go.Error.{internal}
use teleskop.Go.Reports.{Reports, Reports-bind, Reports-status, internal-ne, reporting}
use teleskop.Go.Text.{Text}
use teleskop.Vm.Libvirt.{Libvirt, Domain}
use teleskop.Vm.Uuid.{parse_uuid, lookup_domain}
use teleskop.Vm.Handlers.{
  add_virtual_machine, start_virtual_machine, stop_virtual_machine, delete_virtual_machine,
  attach_block_device, attach_interface, detach_block_device, detach_interface,
  get_virtual_machine_state, list_virtual_machine_state, get_domain_state, cpu_sets, states_of,
  attach_boot_device,
}

module _ {Host : Type 0} (libvirt : Libvirt Host) where
  pub lookup_domain-Reports : (uuid : Text) → Reports (lookup_domain libvirt uuid)
  unfolding lookup_domain parse_uuid
  lookup_domain-Reports uuid = search reporting

  get_domain_state-Reports : (domain : Domain) → Reports (get_domain_state libvirt domain)
  unfolding get_domain_state
  get_domain_state-Reports domain = search reporting

  ruleset finding = (reporting, lookup_domain-Reports, get_domain_state-Reports)

  pub attach_block_device-Reports :
      (req : AttachBlockDeviceRequest) → Reports (attach_block_device libvirt req)
  unfolding attach_block_device
  attach_block_device-Reports req = search finding

  pub attach_interface-Reports :
      (req : AttachInterfaceRequest) → Reports (attach_interface libvirt req)
  unfolding attach_interface
  attach_interface-Reports req = search finding

  pub detach_block_device-Reports :
      (req : DetachBlockDeviceRequest) → Reports (detach_block_device libvirt req)
  unfolding detach_block_device
  detach_block_device-Reports req = search finding

  pub detach_interface-Reports :
      (req : DetachInterfaceRequest) → Reports (detach_interface libvirt req)
  unfolding detach_interface
  detach_interface-Reports req = search finding

  pub start_virtual_machine-Reports :
      (req : StartVirtualMachineRequest) → Reports (start_virtual_machine libvirt req)
  unfolding start_virtual_machine
  start_virtual_machine-Reports req = search finding

  pub stop_virtual_machine-Reports :
      (req : StopVirtualMachineRequest) → Reports (stop_virtual_machine libvirt req)
  unfolding stop_virtual_machine
  stop_virtual_machine-Reports req = search finding

  pub delete_virtual_machine-Reports :
      (req : DeleteVirtualMachineRequest) → Reports (delete_virtual_machine libvirt req)
  unfolding delete_virtual_machine
  delete_virtual_machine-Reports req = search finding

  pub get_virtual_machine_state-Reports :
      (req : GetVirtualMachineStateRequest) → Reports (get_virtual_machine_state libvirt req)
  unfolding get_virtual_machine_state
  get_virtual_machine_state-Reports req = search finding

  cpu_sets-Reports : (req : AddVirtualMachineRequest) → Reports (cpu_sets libvirt req)
  unfolding cpu_sets
  cpu_sets-Reports req = search reporting

  attach_boot_device-Reports :
      (req : AddVirtualMachineRequest) (domain : Domain)
      → Reports (attach_boot_device libvirt req domain)
  unfolding attach_boot_device
  attach_boot_device-Reports req domain = search reporting

  pub add_virtual_machine-Reports :
      (req : AddVirtualMachineRequest) → Reports (add_virtual_machine libvirt req)
  unfolding add_virtual_machine
  add_virtual_machine-Reports req = search (reporting, cpu_sets-Reports, attach_boot_device-Reports)

  states_of-Reports : (domains : List Domain) → Reports (states_of libvirt domains)
  unfolding states_of
  states_of-Reports [] = search reporting
  states_of-Reports (domain ∷ domains) =
      Reports-bind _ _ (Reports-status (libvirt.domain_get_state domain) internal _ internal-ne)
        λ state. Reports-bind _ _ (states_of-Reports domains) λ rest. search reporting

  pub list_virtual_machine_state-Reports : Reports (list_virtual_machine_state libvirt)
  unfolding list_virtual_machine_state
  list_virtual_machine_state-Reports = search (reporting, states_of-Reports)
