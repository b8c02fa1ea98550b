-- ===== src/Vm/Handlers.antt =====
-- virtual_machine.go: the gRPC handlers.
use teleskop.Api.Requests.{
  AddVirtualMachineRequest, StartVirtualMachineRequest, AttachBlockDeviceRequest,
  AttachInterfaceRequest, DeleteVirtualMachineRequest, StopVirtualMachineRequest,
  DetachBlockDeviceRequest, DetachInterfaceRequest, GetVirtualMachineStateRequest,
}
use teleskop.Api.Responses.{
  VirtualMachineState, AddVirtualMachineResponse, StartVirtualMachineResponse,
  AttachBlockDeviceResponse, AttachInterfaceResponse, GetVirtualMachineStateResponse,
  ListVirtualMachineStateResponse,
}
use teleskop.Common.{ℕ, ⊤, List, [], ◌∷◌, ◌++◌, replicate, if◌then◌else◌, eq_bytes}
use teleskop.Go.Action.{Action, pure, wrap_error, ◌>>=◌, ◌>>◌}
use teleskop.Go.Bits.{bit_or}
use teleskop.Go.Error.{status, invalid_argument, internal}
use teleskop.Go.Hex.{hex_text}
use teleskop.Go.Int.{ℤ, eq_int}
use teleskop.Go.Template.{execute}
use teleskop.Go.Text.{Text, codes, decimal, join}
use teleskop.Vm.Libvirt.{Libvirt, Domain, PinnedPair}
use teleskop.Vm.Templates.{
  domain_tmpl, attach_disk_tmpl, detach_disk_tmpl, attach_interface_tmpl, detach_interface_tmpl,
}
use teleskop.Vm.Uuid.{lookup_domain}

-- One round of the loop over the pairs of a pinning group.
unfoldable pub pin_pair : Text → PinnedPair → Text
pin_pair cpuset pair =
    let words = decimal pair.physical_core ∷ decimal pair.logical_core ∷ [] in
    join (if eq_bytes cpuset [] then words else words ++ cpuset ∷ []) (codes ",")

unfoldable pub pin_pairs : Text → List PinnedPair → Text
pin_pairs cpuset [] = cpuset
pin_pairs cpuset (pair ∷ pairs) = pin_pairs (pin_pair cpuset pair) pairs

unfoldable pub state_of : Domain → ℤ → VirtualMachineState
state_of domain state = record { uuid = hex_text domain.uuid; name = domain.name; state = state }

module _ {Host : Type 0} (libvirt : Libvirt Host) where
  -- CPUSets, one for each vcpu; none without a pinning group.
  unfoldable pub cpu_sets : AddVirtualMachineRequest → Action Host (List Text)
  cpu_sets req = if eq_bytes req.pinning_group_name [] then pure [] else do
    hostname ← wrap_error libvirt.hostname (status internal "failed to get hostname: %+v")
    pairs ←
        wrap_error (libvirt.get_cpu_core_by_pinning_group hostname req.pinning_group_name)
          (status internal "failed to get pinning group: %+v")
    pure (replicate req.vcpus (pin_pairs [] pairs))

  unfoldable pub get_domain_state : Domain → Action Host ℤ
  get_domain_state domain =
      wrap_error (libvirt.domain_get_state domain)
        (status internal "failed to get domain stat: %+v")

  -- The switch on the state, for attaching and detaching.
  unfoldable pub modify_flags : ℤ → ℕ
  modify_flags state =
      if eq_int state libvirt.domain_running
      then bit_or libvirt.modify_config libvirt.modify_live
      else if eq_int state libvirt.domain_shutoff
      then libvirt.modify_config
      else bit_or libvirt.modify_config libvirt.modify_force

  unfoldable pub attach_block_device :
      AttachBlockDeviceRequest → Action Host AttachBlockDeviceResponse
  attach_block_device req = do
    domain ← lookup_domain libvirt req.uuid
    state ← get_domain_state domain
    wrap_error
        (libvirt.domain_attach_device_flags domain (execute attach_disk_tmpl req)
          (modify_flags state))
        (status internal "failed to attach block device: %+v")
    pure (record { uuid = hex_text domain.uuid; name = domain.name })

  unfoldable pub attach_interface : AttachInterfaceRequest → Action Host AttachInterfaceResponse
  attach_interface req = do
    domain ← lookup_domain libvirt req.uuid
    state ← get_domain_state domain
    wrap_error
        (libvirt.domain_attach_device_flags domain (execute attach_interface_tmpl req)
          (modify_flags state))
        (status internal "failed to attach interface: %+v")
    pure (record { uuid = hex_text domain.uuid; name = domain.name })

  unfoldable pub detach_block_device : DetachBlockDeviceRequest → Action Host ⊤
  detach_block_device req = do
    domain ← lookup_domain libvirt req.uuid
    state ← get_domain_state domain
    wrap_error
        (libvirt.domain_detach_device_flags domain (execute detach_disk_tmpl req)
          (modify_flags state))
        (status internal "failed to detach block device: %+v")

  unfoldable pub detach_interface : DetachInterfaceRequest → Action Host ⊤
  detach_interface req = do
    domain ← lookup_domain libvirt req.uuid
    state ← get_domain_state domain
    wrap_error
        (libvirt.domain_detach_device_flags domain (execute detach_interface_tmpl req)
          (modify_flags state))
        (status internal "failed to detach interface: %+v")

  abbrev pub boot_disk : AddVirtualMachineRequest → Domain → AttachBlockDeviceRequest
  boot_disk req domain = record {
    uuid = hex_text domain.uuid;
    source_device = req.boot_device;
    target_device = codes "vda";
    read_bytes_sec = req.read_bytes_sec;
    write_bytes_sec = req.write_bytes_sec;
    read_iops_sec = req.read_iops_sec;
    write_iops_sec = req.write_iops_sec;
  }

  unfoldable pub attach_boot_device : AddVirtualMachineRequest → Domain → Action Host ⊤
  attach_boot_device req domain = if eq_bytes req.boot_device [] then pure tt else do
    wrap_error (attach_block_device (boot_disk req domain))
        (status invalid_argument "failed to attach boot device: %+v")
    pure tt

  unfoldable pub add_virtual_machine :
      AddVirtualMachineRequest → Action Host AddVirtualMachineResponse
  add_virtual_machine req = do
    sets ← cpu_sets req
    domain ←
        wrap_error
          (libvirt.domain_define_xml
            (execute domain_tmpl (record { request = req; cpu_sets = sets })))
          (status invalid_argument "failed to define domain: %+v xml=%s")
    attach_boot_device req domain
    pure (record { uuid = hex_text domain.uuid; name = domain.name })

  unfoldable pub start_virtual_machine :
      StartVirtualMachineRequest → Action Host StartVirtualMachineResponse
  start_virtual_machine req = do
    domain ← lookup_domain libvirt req.uuid
    wrap_error (libvirt.domain_create domain) (status internal "failed to start domain: %+v")
    pure (record { uuid = hex_text domain.uuid; name = domain.name })

  unfoldable pub delete_virtual_machine : DeleteVirtualMachineRequest → Action Host ⊤
  delete_virtual_machine req = do
    domain ← lookup_domain libvirt req.uuid
    wrap_error (libvirt.domain_undefine domain) (status internal "failed to undefine domain: %+v")

  unfoldable pub stop_virtual_machine : StopVirtualMachineRequest → Action Host ⊤
  stop_virtual_machine req = do
    domain ← lookup_domain libvirt req.uuid
    wrap_error (libvirt.domain_destroy domain) (status internal "failed to destory domain: %+v")

  unfoldable pub get_virtual_machine_state :
      GetVirtualMachineStateRequest → Action Host GetVirtualMachineStateResponse
  get_virtual_machine_state req = do
    domain ← lookup_domain libvirt req.uuid
    state ←
        wrap_error (libvirt.domain_get_state domain)
          (status internal "failed to get domain state: %+v")
    pure (record { state = state_of domain state })

  -- The loop over the domains.
  unfoldable pub states_of : List Domain → Action Host (List VirtualMachineState)
  states_of [] = pure []
  states_of (domain ∷ domains) = do
    state ←
        wrap_error (libvirt.domain_get_state domain)
          (status internal "failed to get domain state: %+v")
    rest ← states_of domains
    pure (state_of domain state ∷ rest)

  unfoldable pub list_virtual_machine_state : Action Host ListVirtualMachineStateResponse
  list_virtual_machine_state = do
    domains ←
        wrap_error
          (libvirt.connect_list_all_domains
            (bit_or libvirt.list_domains_active libvirt.list_domains_inactive))
          (status internal "failed to get domain list: %+v")
    states ← states_of domains
    pure (record { states = states })
