-- ===== src/Example/Node.antt =====
-- example/setup_compute_node/main.go against an agent.
use teleskop.Agent.Service.{Services, Response, serve}
use teleskop.Common.{⊤, ◌≡◌, ◌≢◌, refl, sym, ap, ◌∙◌, []}
use teleskop.Example.Client.{AgentClient, setup_client, setup_compute_node, node_vlan, node_bridge}
use teleskop.Go.Action.{Action, pure}
use teleskop.Go.Error.{Error, Outcome, ok, err, panic, wrapped, status_text, invalid_argument}
use teleskop.Go.Moves.{Same, Same-order, Moves-Keeps}
use teleskop.Go.Text.{Text}
use teleskop.Network.Address.{metadata_address}
use teleskop.Network.Handlers.{add_vlan_interface, add_bridge}
use teleskop.Network.Preserves.{LinkPrimitives, add_vlan_interface-Moves}

abbrev pub no_cidr : Error
no_cidr = status_text invalid_argument "failed to parse request metadata cidr"

module _ (s : Services) where
  -- A connection that reaches the agent.
  abbrev pub reach : Text → Action s.iptables.Host (AgentClient s.iptables.Host)
  reach addr = pure (serve s)

  -- The program asks for a bridge that is not internal and names no metadata CIDR.
  add_bridge_refused :
      (e : Error) (w : s.iptables.Host)
      → s.net.parse_cidr [] ≡ err e
      → add_bridge s.netlink s.networks s.net node_bridge w ≡ (err no_cidr, w)
  unfolding add_bridge metadata_address
  add_bridge_refused e w h = rw h refl

  -- How the program ends, by the outcome of AddVLANInterface.
  abbrev ending : Outcome ⊤ → Outcome ⊤
  ending (ok a) = err (wrapped "failed to add bridge: %w" no_cidr)
  ending (err x) = err (wrapped "failed to add VLAN interface: %w" x)
  ending panic = panic

  ends_step :
      (addr : Text) (e : Error) (w v : s.iptables.Host) (o : Outcome ⊤)
      → s.net.parse_cidr [] ≡ err e
      → add_vlan_interface s.netlink node_vlan w ≡ (o, v)
      → setup_compute_node reach addr w ≡ (ending o, v)
  unfolding setup_compute_node setup_client serve Response
  ends_step addr e w v (ok tt) h added = rw (added, add_bridge_refused e v h) refl
  ends_step addr e w v (err x) h added = rw added refl
  ends_step addr e w v panic h added = rw added refl

  ending_fails : (o : Outcome ⊤) → ending o ≢ ok tt
  ending_fails (ok a) q = cc
  ending_fails (err x) q = cc
  ending_fails panic q = cc

  -- As ParseCIDR takes no empty text, the program setup_compute_node never ends without an error on an agent
  -- that it reaches, and whatever part of the host the calls of netlink leave alone is then as it was before.
  pub setup_compute_node_fails :
      {V : Type 0} (view : s.iptables.Host → V) (links : LinkPrimitives s.netlink (Same view))
      (addr : Text) (e : Error) (w : s.iptables.Host)
      → s.net.parse_cidr [] ≡ err e
      → ((setup_compute_node reach addr w).0 ≢ ok tt)
        × (view (setup_compute_node reach addr w).1 ≡ view w)
  setup_compute_node_fails view links addr e w h =
      let done = ends_step addr e w _ _ h refl in
      (
        λ q.
            ending_fails (add_vlan_interface s.netlink node_vlan w).0
              (sym (ap (λ r. r.0) done) ∙ q),
        ap (λ r. view r.1) done
            ∙ (Moves-Keeps _ (
                  add_vlan_interface-Moves s.netlink (Same view) (Same-order view) links
                    node_vlan)).at
                w,
      )
