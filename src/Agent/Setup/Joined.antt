-- ===== src/Agent/Setup/Joined.antt =====
-- The VLAN interfaces of the datastore's bridges after the agent's setup of them.
use teleskop.Agent.Service.{Services}
use teleskop.Agent.Setup.{
  Bridge, bridge_request, vlan_request, member_request, setup_bridge, setup_bridges,
}
use teleskop.Agent.Setup.Grows.{Grows, IsAdditive, setup_bridges-Grows}
use teleskop.Api.Requests.{AddInterfaceToBridgeRequest}
use teleskop.Common.{
  ⊤, ◌≡◌, refl, sym, ap, ◌∙◌, Bool, true, false, not, if◌then◌else◌, List, [], ◌∷◌, ◌++◌,
}
use teleskop.Go.Action.{Action, pure, wrap_error}
use teleskop.Go.Error.{ok, internal, status}
use teleskop.Go.Int.{pos, eq_int}
use teleskop.Go.Text.{Text}
use teleskop.Go.Triple.{Triple, Triple-any, Triple-wrap, Triple-bind}
use teleskop.Network.Handlers.{add_bridge, add_vlan_interface, add_interface_to_bridge, vlan_name}
use teleskop.Network.Netlink.{Netlink}

module _ {Host : Type 0} (there mastered : Host → Text → Bool) where
  -- What LinkByName and LinkSetMaster are documented to do.
  pub record IsLawful (netlink : Netlink Host) : Type 0 where
    -- The interface that LinkByName returns is there, has the name, and tells whether it has a master.
    pub finds :
        (n : Text) (w : Host) (link : netlink.Link)
        → (netlink.link_by_name n w).0 ≡ ok link
        → there (netlink.link_by_name n w).1 n ≡ true
    pub finds_name :
        (n : Text) (w : Host) (link : netlink.Link)
        → (netlink.link_by_name n w).0 ≡ ok link
        → netlink.name link ≡ n
    pub finds_master :
        (n : Text) (w : Host) (link : netlink.Link)
        → (netlink.link_by_name n w).0 ≡ ok link
        → mastered (netlink.link_by_name n w).1 n ≡ not (eq_int (netlink.master_index link) (pos 0))
    pub joins :
        (link bridge : netlink.Link) (w : Host)
        → (netlink.link_set_master link bridge w).0 ≡ ok tt
        → mastered (netlink.link_set_master link bridge w).1 (netlink.name link) ≡ true

  -- The bridge and the interface are there, and the interface has a master.
  pub record IsJoined (bridge interface : Text) (w : Host) : Type 0 where
    pub bridge_there : there w bridge ≡ true
    pub interface_there : there w interface ≡ true
    pub interface_mastered : mastered w interface ≡ true

  later_step :
      (bridge interface : Text) (u v : Host)
      → Grows there mastered u v
      → IsJoined bridge interface u
      → IsJoined bridge interface v
  later_step bridge interface u v g h = record {
    bridge_there = g.stays_there bridge h.bridge_there;
    interface_there = g.stays_there interface h.interface_there;
    interface_mastered = g.stays_mastered interface h.interface_mastered;
  }

module _ (s : Services) (there mastered : s.iptables.Host → Text → Bool)
    (laws : IsLawful there mastered s.netlink)
    (additive : IsAdditive there mastered s.netlink s.networks) where
  open s.netlink use {Link}

  -- Both interfaces are found.
  record IsFound (bridge interface : Text) (link : Link) (w : s.iptables.Host) : Type 0 where
    bridge_there : there w bridge ≡ true
    interface_there : there w interface ≡ true
    named : s.netlink.name link ≡ interface
    told : mastered w interface ≡ not (eq_int (s.netlink.master_index link) (pos 0))

  bridge_step : (n : Text) → Triple (λ _. ⊤) (s.netlink.link_by_name n) (λ _ w. there w n ≡ true)
  bridge_step n = record { at = λ w link _ h. laws.finds n w link h }

  interface_step :
      (bridge n : Text)
      → Triple (λ w. there w bridge ≡ true) (s.netlink.link_by_name n) (IsFound bridge n)
  interface_step bridge n = record {
    at = λ w link p h. record {
      bridge_there = ((additive.link_by_name n).at w).stays_there bridge p;
      interface_there = laws.finds n w link h;
      named = laws.finds_name n w link h;
      told = laws.finds_master n w link h;
    };
  }

  master_step :
      (bridge n : Text) (link above : Link)
      → Triple
          (IsFound bridge n link)
          (s.netlink.link_set_master link above)
          (λ _. IsJoined there mastered bridge n)
  master_step bridge n link above = record {
    at = λ w a p h.
        let grows = (additive.link_set_master link above).at w in
        record {
          bridge_there = grows.stays_there bridge p.bridge_there;
          interface_there = grows.stays_there n p.interface_there;
          interface_mastered =
              ap (mastered (s.netlink.link_set_master link above w).1) (sym p.named)
              ∙ laws.joins link above w h;
        };
  }

  choice_step :
      (bridge n : Text) (link above : Link) (free : Bool)
      → eq_int (s.netlink.master_index link) (pos 0) ≡ free
      → Triple
          (IsFound bridge n link)
          (if not free
            then pure tt
            else wrap_error
                (s.netlink.link_set_master link above)
                (status internal "failed to add interface to bridge: %+v"))
          (λ _. IsJoined there mastered bridge n)
  choice_step bridge n link above true e = Triple-wrap _ _ _ _ (master_step bridge n link above)
  choice_step bridge n link above false e = record {
    at = λ w a p h. record {
      bridge_there = p.bridge_there;
      interface_there = p.interface_there;
      interface_mastered = p.told ∙ ap not e;
    };
  }

  add_interface_to_bridge_step :
      (req : AddInterfaceToBridgeRequest)
      → Triple
          (λ _. ⊤)
          (add_interface_to_bridge s.netlink req)
          (λ _. IsJoined there mastered req.bridge req.interface)
  unfolding add_interface_to_bridge
  add_interface_to_bridge_step req =
      Triple-bind _ _ _ _ _ (Triple-wrap _ _ _ _ (bridge_step req.bridge)) λ above.
        Triple-bind _ _ _ _ _ (Triple-wrap _ _ _ _ (interface_step req.bridge req.interface))
          λ link.
            choice_step req.bridge req.interface link above
              (eq_int (s.netlink.master_index link) (pos 0)) refl

  external_step :
      (internal_only : Bool) (m : Action s.iptables.Host ⊤) (Q : ⊤ → s.iptables.Host → Type 0)
      → internal_only ≡ false
      → Triple (λ _. ⊤) m Q
      → Triple (λ _. ⊤) (if internal_only then pure tt else m) Q
  external_step false m Q external h = h
  external_step true m Q external h = cc

  setup_bridge_step :
      (parent : Text) (bridge : Bridge)
      → bridge.internal_only ≡ false
      → Triple
          (λ _. ⊤)
          (setup_bridge s parent bridge)
          (λ _. IsJoined there mastered bridge.name (vlan_name parent bridge.vlan_id))
  unfolding setup_bridge
  setup_bridge_step parent bridge external =
      Triple-bind _ (add_bridge s.netlink s.networks s.net (bridge_request bridge)) _ _ _
        (Triple-any _ _)
        λ _. external_step bridge.internal_only _ _ external (
          Triple-bind _ (add_vlan_interface s.netlink (vlan_request parent bridge)) _ _ _
            (Triple-any _ _) λ _. add_interface_to_bridge_step (member_request parent bridge))

  setup_bridges_step :
      (parent : Text) (before after : List Bridge) (bridge : Bridge)
      → bridge.internal_only ≡ false
      → Triple
          (λ _. ⊤)
          (setup_bridges s parent (before ++ bridge ∷ after))
          (λ _. IsJoined there mastered bridge.name (vlan_name parent bridge.vlan_id))
  unfolding setup_bridges
  setup_bridges_step parent [] after bridge external =
      Triple-bind _ _ _ _ _ (setup_bridge_step parent bridge external) λ _. record {
        at = λ w a p h.
            later_step there mastered _ _ _ _
              ((setup_bridges-Grows s there mastered additive parent after).at w) p;
      }
  setup_bridges_step parent (first ∷ before) after bridge external =
      Triple-bind _ _ _ _ _ (Triple-any _ _)
        λ _. setup_bridges_step parent before after bridge external

  -- When the loop of setup over the bridges of the datastore returns no error, then for each of them that is
  -- not internal, wherever it stands in the list, there is an interface of the bridge's name and one of the
  -- parent's name, a dot and the bridge's VLAN id, and the second has a master. netlink is lawful, and no call
  -- of the host but those that delete takes away an interface or its master.
  pub setup_bridges_lem :
      (parent : Text) (before after : List Bridge) (bridge : Bridge) (w : s.iptables.Host)
      → bridge.internal_only ≡ false
      → (setup_bridges s parent (before ++ bridge ∷ after) w).0 ≡ ok tt
      → IsJoined there mastered bridge.name
          (vlan_name parent bridge.vlan_id)
          (setup_bridges s parent (before ++ bridge ∷ after) w).1
  setup_bridges_lem parent before after bridge w external h =
      (setup_bridges_step parent before after bridge external).at w tt tt h
