-- ===== src/Vm/Added.antt =====
-- A virtual machine that was added, and the handlers that are given its UUID.
use teleskop.Api.Requests.{
  AddVirtualMachineRequest, AttachBlockDeviceRequest, StartVirtualMachineRequest,
}
use teleskop.Api.Responses.{AddVirtualMachineResponse, StartVirtualMachineResponse}
use teleskop.Common.{ℕ, ⊤, ◌≡◌, refl, sym, ◌∙◌, ap, Option, some, List, All, length}
use teleskop.Go.Error.{ok, or_else, status, internal}
use teleskop.Go.Hex.{hex_text}
use teleskop.Go.Hex.Print.{IsByte}
use teleskop.Go.Keeps.{Keeps, Keeps-bind, Keeps-pure, keeping, or_else-ok}
use teleskop.Go.Triple.{Triple, Triple-any, Triple-pure, Triple-wrap, Triple-bind}
use teleskop.Go.Template.{execute}
use teleskop.Go.Text.{Text, remove_all}
use teleskop.Vm.Handlers.{
  get_domain_state, attach_block_device, attach_boot_device, add_virtual_machine, cpu_sets,
  start_virtual_machine,
}
use teleskop.Vm.Lawful.{IsLawful}
use teleskop.Vm.Libvirt.{Libvirt, Domain}
use teleskop.Vm.Templates.{domain_tmpl}
use teleskop.Vm.Uuid.{lookup_domain, parse_uuid}
use teleskop.Vm.Uuid.RoundTrip.{parse_uuid_print}

module _ {Host : Type 0} (libvirt : Libvirt Host) (domains : Host → List ℕ → Option Domain)
    (laws : IsLawful libvirt domains) where
  lookup_domain-Keeps : (uuid : Text) → Keeps domains (lookup_domain libvirt uuid)
  unfolding lookup_domain
  lookup_domain-Keeps uuid = search (keeping, laws.lookup_keeps)

  get_domain_state-Keeps : (domain : Domain) → Keeps domains (get_domain_state libvirt domain)
  unfolding get_domain_state
  get_domain_state-Keeps domain = search (keeping, laws.state_keeps)

  attach_block_device-Keeps :
      (req : AttachBlockDeviceRequest) → Keeps domains (attach_block_device libvirt req)
  unfolding attach_block_device
  attach_block_device-Keeps req =
      search (keeping, lookup_domain-Keeps, get_domain_state-Keeps, laws.attach_keeps)

  attach_boot_device-Keeps :
      (req : AddVirtualMachineRequest) (domain : Domain)
      → Keeps domains (attach_boot_device libvirt req domain)
  unfolding attach_boot_device
  attach_boot_device-Keeps req domain = search (keeping, attach_block_device-Keeps)

  -- A domain that is defined, with a UUID of 16 bytes.
  record Defined (domain : Domain) (w : Host) : Type 0 where
    pub valid : All IsByte domain.uuid
    pub size : length domain.uuid ≡ 16
    pub defined : domains w domain.uuid ≡ some domain

  -- What a response to AddVirtualMachine tells of the host behind it.
  record Added (uuid name : Text) (w : Host) : Type 0 where
    pub domain : Domain
    pub there : Defined domain w
    pub uuid_text : uuid ≡ hex_text domain.uuid
    pub name_text : name ≡ domain.name

  define-Defined :
      (xml : Text) → Triple (λ _. ⊤) (libvirt.domain_define_xml xml) (λ domain w. Defined domain w)
  define-Defined xml = record {
    at = λ w domain _ h. record {
      valid = laws.uuid_bytes xml w domain h;
      size = laws.uuid_size xml w domain h;
      defined = laws.defines xml w domain h;
    };
  }

  attach_boot_device-Defined :
      (req : AddVirtualMachineRequest) (domain : Domain)
      → Triple (Defined domain) (attach_boot_device libvirt req domain) (λ _ w. Defined domain w)
  attach_boot_device-Defined req domain = record {
    at = λ w a there h. record {
      valid = there.valid;
      size = there.size;
      defined =
          ap (λ v. v domain.uuid) ((attach_boot_device-Keeps req domain).at w) ∙ there.defined;
    };
  }

  add_virtual_machine-Added :
      (req : AddVirtualMachineRequest)
      → Triple (λ _. ⊤) (add_virtual_machine libvirt req) (λ resp w. Added resp.uuid resp.name w)
  unfolding add_virtual_machine
  add_virtual_machine-Added req =
      Triple-bind _ _ _ _ _ (Triple-any _ (cpu_sets libvirt req)) λ sets.
        Triple-bind _ _ _ _ _ (Triple-wrap _ _ _ _ (define-Defined _)) λ domain.
          Triple-bind _ _ _ _ _ (attach_boot_device-Defined req domain) λ _.
            Triple-pure _ _ _ λ w there. record {
              domain = domain;
              there = there;
              uuid_text = refl;
              name_text = refl;
            }

  some_inj : (d e : Domain) → some d ≡ some e → d ≡ e
  some_inj d e h = cc

  lookup_parsed :
      (text : Text) (uuid : List ℕ) (w : Host)
      → parse_uuid text ≡ ok uuid
      → (lookup_domain libvirt text w).0
        ≡ or_else
            (libvirt.domain_lookup_by_uuid uuid w).0
            (status internal "failed to lookup domain: %+v")
  unfolding lookup_domain
  lookup_parsed text uuid w h = rw h refl

  -- The lookup of the UUID that a response told finds the domain.
  lookup_domain-Added :
      (text uuid name : Text)
      → remove_all text b'-' ≡ uuid
      → Triple
          (Added uuid name)
          (lookup_domain libvirt text)
          (λ domain _. (hex_text domain.uuid ≡ uuid) × (domain.name ≡ name))
  lookup_domain-Added text uuid name dashes = record {
    at = λ w domain added h.
        let there = added.there in
        let parsed =
          parse_uuid_print added.domain.uuid text there.valid there.size
            (dashes ∙ added.uuid_text) in
        let found =
          laws.looks_up added.domain.uuid w domain
            (or_else-ok _ _ domain (sym (lookup_parsed text added.domain.uuid w parsed) ∙ h)) in
        let same = some_inj domain added.domain (sym found ∙ there.defined) in
        (
          ap (λ d. hex_text d.uuid) same ∙ sym added.uuid_text,
          ap (λ d. d.name) same ∙ sym added.name_text,
        );
  }

  start_virtual_machine-Added :
      (req : StartVirtualMachineRequest) (uuid name : Text)
      → remove_all req.uuid b'-' ≡ uuid
      → Triple
          (Added uuid name)
          (start_virtual_machine libvirt req)
          (λ resp _. (resp.uuid ≡ uuid) × (resp.name ≡ name))
  unfolding start_virtual_machine
  start_virtual_machine-Added req uuid name dashes =
      Triple-bind _ _ _ _ _ (lookup_domain-Added req.uuid uuid name dashes) λ domain.
        Triple-bind _ _ _ (λ _ _. (hex_text domain.uuid ≡ uuid) × (domain.name ≡ name)) _
          (record { at = λ w a p h. p }) λ _. Triple-pure _ _ _ λ w p. p

  -- On a libvirt that is lawful, StartVirtualMachine, given the UUID that AddVirtualMachine has told,
  -- dashes put in or not, answers, where it returns no error, with that UUID and with the name of the
  -- domain that was added.
  pub start_added :
      (req : AddVirtualMachineRequest) (w : Host) (resp : AddVirtualMachineResponse)
      (start : StartVirtualMachineRequest) (started : StartVirtualMachineResponse)
      → (add_virtual_machine libvirt req w).0 ≡ ok resp
      → remove_all start.uuid b'-' ≡ resp.uuid
      → (start_virtual_machine libvirt start (add_virtual_machine libvirt req w).1).0 ≡ ok started
      → (started.uuid ≡ resp.uuid) × (started.name ≡ resp.name)
  start_added req w resp start started added dashes h =
      (start_virtual_machine-Added start resp.uuid resp.name dashes).at _ started
        ((add_virtual_machine-Added req).at w resp tt added) h

  -- On a libvirt that is lawful, once DomainDefineXML has returned a domain, AddVirtualMachine leaves it
  -- defined, whatever the attaching of the boot device returns.
  pub add_keeps_defined :
      (req : AddVirtualMachineRequest) (w : Host) (sets : List Text) (domain : Domain)
      → (cpu_sets libvirt req w).0 ≡ ok sets
      → (libvirt.domain_define_xml
          (execute domain_tmpl (record { request = req; cpu_sets = sets }))
          (cpu_sets libvirt req w).1).0
        ≡ ok domain
      → domains (add_virtual_machine libvirt req w).1 domain.uuid ≡ some domain
  unfolding add_virtual_machine
  add_keeps_defined req w sets domain h1 h2 =
      rw (h1, h2)
        (ap (λ v. v domain.uuid)
            ((Keeps-bind _ _ (attach_boot_device-Keeps req domain) λ _. Keeps-pure _).at _)
          ∙ laws.defines _ _ domain h2)
