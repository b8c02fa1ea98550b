-- ===== src/Vm/Libvirt.antt =====
-- The client of github.com/digitalocean/go-libvirt, the datastore's client and os.Hostname, as
-- virtual_machine.go and util.go call them.
use teleskop.Common.{ℕ, ⊤, List}
use teleskop.Go.Action.{Action}
use teleskop.Go.Int.{ℤ}
use teleskop.Go.Text.{Text}

-- libvirt.Domain, as far as the agent reads it. The UUID is an array of 16 bytes.
pub record Domain : Type 0 where
  pub name : Text
  pub uuid : List ℕ

-- A CorePair of the datastore: the number of the physical core, and the pointer to that of the
-- logical core, which is an address, 0 for nil.
pub record PinnedPair : Type 0 where
  pub physical_core : ℕ
  pub logical_core : ℕ

-- The methods act on the state of the host.
pub record Libvirt (Host : Type 0) : Type 0 where
  pub domain_define_xml : Text → Action Host Domain
  pub domain_lookup_by_uuid : List ℕ → Action Host Domain
  pub domain_create : Domain → Action Host ⊤
  pub domain_undefine : Domain → Action Host ⊤
  pub domain_destroy : Domain → Action Host ⊤
  pub domain_attach_device_flags : Domain → Text → ℕ → Action Host ⊤
  pub domain_detach_device_flags : Domain → Text → ℕ → Action Host ⊤
  pub domain_get_state : Domain → Action Host ℤ
  pub connect_list_all_domains : ℕ → Action Host (List Domain)
  -- GetCPUCoreByPinningGroup: the pairs, by hostname and name of the group.
  pub get_cpu_core_by_pinning_group : Text → Text → Action Host (List PinnedPair)
  pub hostname : Action Host Text
  -- Constants.
  pub domain_running : ℤ
  pub domain_shutoff : ℤ
  pub modify_config : ℕ
  pub modify_live : ℕ
  pub modify_force : ℕ
  pub list_domains_active : ℕ
  pub list_domains_inactive : ℕ
