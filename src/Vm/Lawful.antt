-- ===== src/Vm/Lawful.antt =====
-- What libvirt is documented to do with the domains that are defined.
use teleskop.Common.{ℕ, ◌≡◌, Option, some, List, All, length}
use teleskop.Go.Error.{ok}
use teleskop.Go.Hex.Print.{IsByte}
use teleskop.Go.Keeps.{Keeps}
use teleskop.Go.Text.{Text}
use teleskop.Vm.Libvirt.{Libvirt, Domain}

module _ {Host : Type 0} (libvirt : Libvirt Host) where
  -- `domains` is the domain that a UUID names, where one is defined. A UUID is 16 bytes.
  pub record IsLawful (domains : Host → List ℕ → Option Domain) : Type 0 where
    -- DomainDefineXML defines the domain that it returns.
    pub defines :
        (xml : Text) (w : Host) (domain : Domain)
        → (libvirt.domain_define_xml xml w).0 ≡ ok domain
        → domains (libvirt.domain_define_xml xml w).1 domain.uuid ≡ some domain
    pub uuid_size :
        (xml : Text) (w : Host) (domain : Domain)
        → (libvirt.domain_define_xml xml w).0 ≡ ok domain
        → length domain.uuid ≡ 16
    pub uuid_bytes :
        (xml : Text) (w : Host) (domain : Domain)
        → (libvirt.domain_define_xml xml w).0 ≡ ok domain
        → All IsByte domain.uuid
    -- DomainLookupByUUID returns the domain that the UUID names.
    pub looks_up :
        (uuid : List ℕ) (w : Host) (domain : Domain)
        → (libvirt.domain_lookup_by_uuid uuid w).0 ≡ ok domain
        → domains w uuid ≡ some domain
    -- These calls define and undefine no domain.
    pub lookup_keeps : (uuid : List ℕ) → Keeps domains (libvirt.domain_lookup_by_uuid uuid)
    pub state_keeps : (domain : Domain) → Keeps domains (libvirt.domain_get_state domain)
    pub attach_keeps :
        (domain : Domain) (xml : Text) (flags : ℕ)
        → Keeps domains (libvirt.domain_attach_device_flags domain xml flags)
