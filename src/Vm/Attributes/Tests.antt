-- ===== src/Vm/Attributes/Tests.antt =====
-- The attributes of a request with a crafted name.
use teleskop.Api.Requests.{AttachInterfaceRequest}
use teleskop.Common.{◌≡◌, refl, some, [], ◌∷◌, arith}
use teleskop.Go.Template.{execute}
use teleskop.Go.Text.{codes, decimal}
use teleskop.Vm.Attributes.{attributes, attach_interface_injection}
use teleskop.Vm.Templates.{attach_interface_tmpl}

abbrev request : AttachInterfaceRequest
request = record {
  uuid = [];
  bridge = codes "br1000";
  inbound_average = 128000;
  outbound_average = 128000;
  name = codes "tap001";
  mac_address = codes "ca:61:85:97:93:e2";
}

abbrev crafted : AttachInterfaceRequest
crafted = record request { name = codes "tap001' managed='no" }

attach_interface_injection_example :
    attributes (execute attach_interface_tmpl crafted)
    ≡ some (
        (codes "type", codes "bridge")
        ∷ (codes "address", codes "ca:61:85:97:93:e2")
        ∷ (codes "bridge", codes "br1000")
        ∷ (codes "type", codes "virtio")
        ∷ (codes "dev", codes "tap001")
        ∷ (b'm' ∷ codes "anaged", codes "no")
        ∷ (codes "average", decimal 128000)
        ∷ (codes "average", decimal 128000)
        ∷ [])
attach_interface_injection_example =
    attach_interface_injection crafted (codes "tap001") b'm' (codes "anaged") (codes "no")
      (unfold codes in ground arith) (unfold codes in ground arith) (unfold codes in ground arith)
      (unfold codes in ground arith) (unfold codes in ground arith) (unfold codes in refl)
