-- ===== src/Vm/Preserves.antt =====
-- The handlers of virtual machines, and a relation between hosts that the calls of libvirt keep to, but for
-- DomainUndefine.
use teleskop.Api.Requests.{
  AddVirtualMachineRequest, AttachBlockDeviceRequest, AttachInterfaceRequest,
  DetachBlockDeviceRequest, DetachInterfaceRequest, GetVirtualMachineStateRequest,
  StartVirtualMachineRequest, StopVirtualMachineRequest,
}
use teleskop.Common.{ℕ, List, [], ◌∷◌}
use teleskop.Go.Moves.{IsPreorder, Moves, Moves-if, Moves-pure, Moves-wrap, Moves-bind, moving}
use teleskop.Go.Text.{Text}
use teleskop.Vm.Handlers.{
  cpu_sets, get_domain_state, attach_block_device, attach_interface, detach_block_device,
  detach_interface, attach_boot_device, add_virtual_machine, start_virtual_machine,
  stop_virtual_machine, get_virtual_machine_state, states_of, list_virtual_machine_state,
}
use teleskop.Vm.Libvirt.{Libvirt, Domain}
use teleskop.Vm.Uuid.{lookup_domain}

pub record DomainPrimitives {Host : Type 0} (libvirt : Libvirt Host) (R : Host → Host → Type 0)
    : Type 0 where
  pub define : (xml : Text) → Moves R (libvirt.domain_define_xml xml)
  pub lookup : (uuid : List ℕ) → Moves R (libvirt.domain_lookup_by_uuid uuid)
  pub create : (domain : Domain) → Moves R (libvirt.domain_create domain)
  pub destroy : (domain : Domain) → Moves R (libvirt.domain_destroy domain)
  pub attach :
      (domain : Domain) (xml : Text) (flags : ℕ)
      → Moves R (libvirt.domain_attach_device_flags domain xml flags)
  pub detach :
      (domain : Domain) (xml : Text) (flags : ℕ)
      → Moves R (libvirt.domain_detach_device_flags domain xml flags)
  pub state : (domain : Domain) → Moves R (libvirt.domain_get_state domain)
  pub list : (flags : ℕ) → Moves R (libvirt.connect_list_all_domains flags)
  pub pinning :
      (hostname group : Text) → Moves R (libvirt.get_cpu_core_by_pinning_group hostname group)
  pub host : Moves R libvirt.hostname

module _ {Host : Type 0} (libvirt : Libvirt Host) (R : Host → Host → Type 0) (order : IsPreorder R)
    (ops : DomainPrimitives libvirt R) where
  lookup_domain-Moves : (uuid : Text) → Moves R (lookup_domain libvirt uuid)
  unfolding lookup_domain
  lookup_domain-Moves uuid = search (moving, order, ops.lookup)

  get_domain_state-Moves : (domain : Domain) → Moves R (get_domain_state libvirt domain)
  unfolding get_domain_state
  get_domain_state-Moves domain = search (moving, order, ops.state)

  cpu_sets-Moves : (req : AddVirtualMachineRequest) → Moves R (cpu_sets libvirt req)
  unfolding cpu_sets
  cpu_sets-Moves req = Moves-if R order _ _ _ (Moves-pure R order _) (
      Moves-bind R order _ _ (Moves-wrap R order _ _ ops.host) λ hostname.
        Moves-bind R order _ _ (Moves-wrap R order _ _ (ops.pinning _ _))
          λ pairs. Moves-pure R order _)

  pub attach_block_device-Moves :
      (req : AttachBlockDeviceRequest) → Moves R (attach_block_device libvirt req)
  unfolding attach_block_device
  attach_block_device-Moves req =
      search (moving, order, lookup_domain-Moves, get_domain_state-Moves, ops.attach)

  pub attach_interface-Moves :
      (req : AttachInterfaceRequest) → Moves R (attach_interface libvirt req)
  unfolding attach_interface
  attach_interface-Moves req =
      search (moving, order, lookup_domain-Moves, get_domain_state-Moves, ops.attach)

  pub detach_block_device-Moves :
      (req : DetachBlockDeviceRequest) → Moves R (detach_block_device libvirt req)
  unfolding detach_block_device
  detach_block_device-Moves req =
      search (moving, order, lookup_domain-Moves, get_domain_state-Moves, ops.detach)

  pub detach_interface-Moves :
      (req : DetachInterfaceRequest) → Moves R (detach_interface libvirt req)
  unfolding detach_interface
  detach_interface-Moves req =
      search (moving, order, lookup_domain-Moves, get_domain_state-Moves, ops.detach)

  attach_boot_device-Moves :
      (req : AddVirtualMachineRequest) (domain : Domain)
      → Moves R (attach_boot_device libvirt req domain)
  unfolding attach_boot_device
  attach_boot_device-Moves req domain = search (moving, order, attach_block_device-Moves)

  pub add_virtual_machine-Moves :
      (req : AddVirtualMachineRequest) → Moves R (add_virtual_machine libvirt req)
  unfolding add_virtual_machine
  add_virtual_machine-Moves req =
      search (moving, order, cpu_sets-Moves, ops.define, attach_boot_device-Moves)

  pub start_virtual_machine-Moves :
      (req : StartVirtualMachineRequest) → Moves R (start_virtual_machine libvirt req)
  unfolding start_virtual_machine
  start_virtual_machine-Moves req = search (moving, order, lookup_domain-Moves, ops.create)

  pub stop_virtual_machine-Moves :
      (req : StopVirtualMachineRequest) → Moves R (stop_virtual_machine libvirt req)
  unfolding stop_virtual_machine
  stop_virtual_machine-Moves req = search (moving, order, lookup_domain-Moves, ops.destroy)

  pub get_state-Moves :
      (req : GetVirtualMachineStateRequest) → Moves R (get_virtual_machine_state libvirt req)
  unfolding get_virtual_machine_state
  get_state-Moves req = search (moving, order, lookup_domain-Moves, ops.state)

  states_of-Moves : (domains : List Domain) → Moves R (states_of libvirt domains)
  unfolding states_of
  states_of-Moves [] = Moves-pure R order _
  states_of-Moves (domain ∷ domains) =
      Moves-bind R order _ _ (Moves-wrap R order _ _ (ops.state domain))
        λ state. Moves-bind R order _ _ (states_of-Moves domains) λ rest. Moves-pure R order _

  pub list_state-Moves : Moves R (list_virtual_machine_state libvirt)
  unfolding list_virtual_machine_state
  list_state-Moves = search (moving, order, ops.list, states_of-Moves)
