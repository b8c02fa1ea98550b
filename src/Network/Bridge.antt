-- ===== src/Network/Bridge.antt =====
-- bridge.go: AddBridge that is called again.
mod Tests
use teleskop.Api.Requests.{AddBridgeRequest}
use teleskop.Common.{ℕ, ⊤, ◌≡◌, refl, ap, ◌∙◌, Bool, true, Option, some, List}
use teleskop.Go.Action.{pure, ◌>>=◌}
use teleskop.Go.Error.{Error, ok, err}
use teleskop.Go.Keeps.{Keeps, Keeps-bind, Keeps-wrap}
use teleskop.Go.Net.{Net}
use teleskop.Go.Template.{execute}
use teleskop.Go.Text.{Text}
use teleskop.Network.Address.{metadata_address}
use teleskop.Go.Moves.{Same, Same-order, Moves-Keeps}
use teleskop.Network.Preserves.{LinkPrimitives, add_metadata-Moves}
use teleskop.Network.Handlers.{network_tmpl, add_metadata_interface, create_bridge, add_bridge}
use teleskop.Network.Netlink.{Netlink, Networks}

-- `defined` tells whether libvirt has a network of a name, `name_of` which name it reads in the XML.
pub record IsLawful {Host : Type 0} (networks : Networks Host) (defined : Host → Text → Bool)
    (name_of : Text → Option Text) : Type 0 where
  pub defines :
      (xml n : Text) (w : Host) (network : networks.Network)
      → name_of xml ≡ some n
      → (networks.network_define_xml xml w).0 ≡ ok network
      → defined (networks.network_define_xml xml w).1 n ≡ true
  pub create_keeps : (network : networks.Network) → Keeps defined (networks.network_create network)
  pub finds :
      (n : Text) (w : Host)
      → defined w n ≡ true
      → (network : networks.Network) × ((networks.network_lookup_by_name n w).0 ≡ ok network)

module _ {Host : Type 0} (netlink : Netlink Host) (networks : Networks Host) (net : Net)
    (defined : Host → Text → Bool) (name_of : Text → Option Text)
    (laws : IsLawful networks defined name_of) (apart : LinkPrimitives netlink (Same defined)) where
  create_bridge_defined :
      (req : AddBridgeRequest) (address : Option (List ℕ × List ℕ)) (w : Host)
      (network : networks.Network)
      → name_of (execute network_tmpl req) ≡ some req.name
      → (networks.network_define_xml (execute network_tmpl req) w).0 ≡ ok network
      → defined (create_bridge netlink networks net req address w).1 req.name ≡ true
  unfolding create_bridge
  create_bridge_defined req address w network named h = rw h (
      ap (λ v. v req.name)
        ((Keeps-bind _ _ (Keeps-wrap _ _ (laws.create_keeps network)) λ _. Moves-Keeps _ (
            add_metadata-Moves netlink (Same defined) (Same-order defined) apart networks net req
              address)).at
          (networks.network_define_xml (execute network_tmpl req) w).1)
      ∙ laws.defines _ req.name w network named h)

  add_bridge_defined :
      (req : AddBridgeRequest) (address : Option (List ℕ × List ℕ)) (w : Host) (e : Error)
      (network : networks.Network)
      → metadata_address net req ≡ ok address
      → (networks.network_lookup_by_name req.name w).0 ≡ err e
      → name_of (execute network_tmpl req) ≡ some req.name
      → (networks.network_define_xml
          (execute network_tmpl req)
          (networks.network_lookup_by_name req.name w).1).0
        ≡ ok network
      → defined (add_bridge netlink networks net req w).1 req.name ≡ true
  unfolding add_bridge
  add_bridge_defined req address w e network parsed missing named h =
      rw (parsed, missing) (create_bridge_defined req address _ network named h)

  add_bridge_found :
      (req : AddBridgeRequest) (address : Option (List ℕ × List ℕ)) (w : Host)
      → metadata_address net req ≡ ok address
      → defined w req.name ≡ true
      → add_bridge netlink networks net req w
        ≡ (ok tt, (networks.network_lookup_by_name req.name w).1)
  unfolding add_bridge
  add_bridge_found req address w parsed there =
      let (network, found) = laws.finds req.name w there in rw (parsed, found) refl

  -- Once AddBridge has defined the network, however that call ends, a failed making of the interface for DHCP
  -- included, AddBridge for the same request returns no error and only looks the network up: what is missing
  -- is not made. The networks are lawful, libvirt reads the requested name in the XML, and netlink leaves the
  -- networks alone.
  pub add_bridge_again :
      (req : AddBridgeRequest) (address : Option (List ℕ × List ℕ)) (w : Host) (e : Error)
      (network : networks.Network)
      → metadata_address net req ≡ ok address
      → (networks.network_lookup_by_name req.name w).0 ≡ err e
      → name_of (execute network_tmpl req) ≡ some req.name
      → (networks.network_define_xml
          (execute network_tmpl req)
          (networks.network_lookup_by_name req.name w).1).0
        ≡ ok network
      → add_bridge netlink networks net req (add_bridge netlink networks net req w).1 ≡ (
        ok tt,
        (networks.network_lookup_by_name req.name (add_bridge netlink networks net req w).1).1,
      )
  add_bridge_again req address w e network parsed missing named h =
      add_bridge_found req address _ parsed
        (add_bridge_defined req address w e network parsed missing named h)
