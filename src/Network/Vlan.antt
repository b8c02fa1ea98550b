-- ===== src/Network/Vlan.antt =====
-- vlan.go: the VLAN interface that is there after AddVLANInterface.
use teleskop.Api.Requests.{AddVlanInterfaceRequest}
use teleskop.Common.{⊤, ◌≡◌, sym, ap, ◌∙◌, Bool, true}
use teleskop.Go.Error.{ok}
use teleskop.Go.Text.{Text}
use teleskop.Go.Triple.{Triple, Triple-pure, Triple-wrap, Triple-bind, Triple-on_error}
use teleskop.Network.Handlers.{create_vlan, add_vlan_interface, vlan_name}
use teleskop.Network.Lawful.{IsLawful}
use teleskop.Network.Netlink.{Netlink}

module _ {Host : Type 0} (netlink : Netlink Host) (there : Host → Text → Bool)
    (laws : IsLawful netlink there) where
  parent_name :
      (parent : Text)
      → Triple (λ _. ⊤) (netlink.link_by_name parent) (λ link _. netlink.name link ≡ parent)
  parent_name parent = record { at = λ w link _ h. laws.finds_name parent w link h }

  found_there : (n : Text) → Triple (λ _. ⊤) (netlink.link_by_name n) (λ _ w. there w n ≡ true)
  found_there n = record {
    at = λ w link _ h. ap (λ v. v n) ((laws.lookup_keeps n).at w) ∙ laws.finds n w link h;
  }

  added_there :
      (link : netlink.Link) (n : Text) (P : Host → Type 0)
      → ((w : Host) → P w → netlink.name link ≡ n)
      → Triple P (netlink.link_add link) (λ _ w. there w n ≡ true)
  added_there link n P named = record {
    at = λ w added p h.
        ap (λ m. there (netlink.link_add link w).1 m) (sym (named w p)) ∙ laws.adds link w added h;
  }

  set_up_there :
      (link : netlink.Link) (n : Text)
      → Triple (λ w. there w n ≡ true) (netlink.link_set_up link) (λ _ w. there w n ≡ true)
  set_up_there link n = record { at = λ w _ p h. ap (λ v. v n) ((laws.set_up_keeps link).at w) ∙ p }

  create_vlan-there :
      (req : AddVlanInterfaceRequest)
      → Triple
          (λ _. ⊤)
          (create_vlan netlink req)
          (λ _ w. there w (vlan_name req.parent_interface req.vlan_id) ≡ true)
  unfolding create_vlan
  create_vlan-there req =
      let n = vlan_name req.parent_interface req.vlan_id in
      Triple-bind _ _ _ _ _ (Triple-wrap _ _ _ _ (parent_name req.parent_interface)) λ parent.
        Triple-bind _ _ _ (λ _ w. there w n ≡ true) _
          (Triple-wrap _ _ _ _ (
            added_there _ n _
              (λ w same. laws.vlan_named _ _ _ ∙ ap (λ p. vlan_name p req.vlan_id) same)))
          λ vlan. Triple-wrap _ _ _ _ (set_up_there vlan n)

  -- On a netlink that is lawful, an AddVLANInterface that returns no error leaves an interface of the
  -- parent's name, a dot and the VLAN id, whether it was there before or not.
  pub add_vlan_interface_lem :
      (req : AddVlanInterfaceRequest) (w : Host)
      → (add_vlan_interface netlink req w).0 ≡ ok tt
      → there (add_vlan_interface netlink req w).1 (vlan_name req.parent_interface req.vlan_id)
        ≡ true
  unfolding add_vlan_interface
  add_vlan_interface_lem req w h =
      (Triple-on_error _ _ _ _ _ _ (found_there (vlan_name req.parent_interface req.vlan_id))
          (λ _. create_vlan-there req) λ _. Triple-pure _ _ _ λ _ p. p).at
        w tt tt h
