-- ===== src/Vm/Attributes.antt =====
-- The XML that the handlers of devices give to libvirt, read by its quotes.
mod Tests
use teleskop.Api.Requests.{AttachBlockDeviceRequest, AttachInterfaceRequest}
use teleskop.Common.{
  ℕ, ◌≡◌, ◌≤◌, refl, ap, Bool, Option, none, some, List, [], ◌∷◌, ◌++◌, arith, append_assoc,
  append-nil, All, ◌==◌, if◌then◌else◌,
}
use teleskop.Go.Template.{execute, piece_text}
use teleskop.Go.Text.{Text, codes, split, prepend, decimal}
use teleskop.Go.Text.Digits.{decimal-Lacks}
use teleskop.Go.Text.Split.{Lacks, split-append}
use teleskop.Vm.Templates.{attach_interface_tmpl}

abbrev pub quote : ℕ
quote = 39

-- The name at the end of a text before a value: the word after the last blank, up to the =.
abbrev pub name_before : Text → Text → Option Text
name_before word [] = none
name_before word (c ∷ []) = if c == b'=' then some word else none
name_before word (c ∷ d ∷ s) = name_before (if c == b' ' then [] else word ++ c ∷ []) (d ∷ s)

abbrev pub add_pair : Option Text → Text → Option (List (Text × Text)) → Option (List (Text × Text))
add_pair (some name) value (some pairs) = some ((name, value) ∷ pairs)
add_pair _ value _ = none

-- Of parts that begin outside the quotes: the values inside, each with the name before it.
abbrev pub pairs : List Text → Option (List (Text × Text))
pairs (out ∷ value ∷ after ∷ parts) = add_pair (name_before [] out) value (pairs (after ∷ parts))
pairs _ = some []

-- The attributes name='value' of a text of XML, in order.
abbrev pub attributes : Text → Option (List (Text × Text))
attributes xml = pairs (split xml quote)

abbrev pub IsLetter : ℕ → Type 0
IsLetter c = (b'a' ≤ c) × (c ≤ b'z')

word_step :
    (c : ℕ) (word : Text) → IsLetter c → (if c == b' ' then [] else word ++ c ∷ []) ≡ word ++ c ∷ []
word_step c word (low, high) = ground arith

name_before-append :
    (word name : Text)
    → All IsLetter name
    → name_before word (name ++ b'=' ∷ []) ≡ some (word ++ name)
name_before-append word [] h = rw append-nil refl
name_before-append word (c ∷ []) (h, hs) = rw (word_step c word h) refl
name_before-append word (c ∷ d ∷ name) (h, hs) =
    rw (word_step c word h, name_before-append (word ++ c ∷ []) (d ∷ name) hs)
      (ap some (append_assoc word (c ∷ []) (d ∷ name)))

letter_name :
    (name : Text) → All IsLetter name → name_before [] (b' ' ∷ name ++ b'=' ∷ []) ≡ some name
letter_name [] h = refl
letter_name (c ∷ name) h = name_before-append [] (c ∷ name) h

letters-Lacks : (name : Text) → All IsLetter name → Lacks quote (name ++ b'=' ∷ [])
letters-Lacks [] h = ground arith
letters-Lacks (c ∷ name) (h, hs) = (λ e. omega (arith, h), letters-Lacks name hs)

read_injected :
    (req : AttachInterfaceRequest) (a name between b : Text)
    → Lacks quote req.mac_address
    → Lacks quote req.bridge
    → Lacks quote a
    → Lacks quote between
    → Lacks quote b
    → name_before [] between ≡ some name
    → req.name ≡ a ++ quote ∷ (between ++ quote ∷ b)
    → attributes (execute attach_interface_tmpl req)
      ≡ some (
          (codes "type", codes "bridge")
          ∷ (codes "address", req.mac_address)
          ∷ (codes "bridge", req.bridge)
          ∷ (codes "type", codes "virtio")
          ∷ (codes "dev", a)
          ∷ (name, b)
          ∷ (codes "average", decimal req.inbound_average)
          ∷ (codes "average", decimal req.outbound_average)
          ∷ [])
unfolding execute piece_text attach_interface_tmpl codes split prepend
read_injected req a name between b mac bridge ha hm hb word named =
    rw
      (
        named,
        split-append quote req.mac_address _ mac,
        split-append quote req.bridge _ bridge,
        append_assoc a (quote ∷ (between ++ quote ∷ b)) _,
        split-append quote a _ ha,
        append_assoc between (quote ∷ b) _,
        split-append quote between _ hm,
        split-append quote b _ hb,
        split-append quote (decimal req.inbound_average) _ (decimal-Lacks quote _ (omega arith)),
        split-append quote (decimal req.outbound_average) _ (decimal-Lacks quote _ (omega arith)),
        word,
      )
      refl

-- A name of an interface that closes its value by a quote and goes on with an attribute of a name in small
-- letters gives the XML one attribute more, behind the interface's: read as name='value', the others of the
-- template are there in order with the values of the request. The values hold no other quote.
pub attach_interface_injection :
    (req : AttachInterfaceRequest) (a : Text) (first : ℕ) (rest b : Text)
    → Lacks quote req.mac_address
    → Lacks quote req.bridge
    → Lacks quote a
    → All IsLetter (first ∷ rest)
    → Lacks quote b
    → req.name ≡ a ++ quote ∷ ((b' ' ∷ first ∷ rest ++ b'=' ∷ []) ++ quote ∷ b)
    → attributes (execute attach_interface_tmpl req)
      ≡ some (
          (codes "type", codes "bridge")
          ∷ (codes "address", req.mac_address)
          ∷ (codes "bridge", req.bridge)
          ∷ (codes "type", codes "virtio")
          ∷ (codes "dev", a)
          ∷ (first ∷ rest, b)
          ∷ (codes "average", decimal req.inbound_average)
          ∷ (codes "average", decimal req.outbound_average)
          ∷ [])
attach_interface_injection req a first rest b mac bridge ha hn hb named =
    read_injected req a (first ∷ rest) (b' ' ∷ first ∷ rest ++ b'=' ∷ []) b mac bridge ha
      (ground arith, letters-Lacks (first ∷ rest) hn) hb (letter_name (first ∷ rest) hn) named
