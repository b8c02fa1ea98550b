-- ===== src/Agent/Registered.antt =====
-- What the datastore knows of the agent after its setup.
use teleskop.Agent.Service.{Services}
use teleskop.Agent.Setup.{
  Bridge, Datastore, trim_vlan_id, setup_bridge, setup_bridges, agent_setup, setup_at,
}
use teleskop.Common.{ℕ, ⊤, ◌≡◌, refl, ◌∙◌, ap, Option, none, some, List, [], ◌∷◌, ◌++◌, map}
use teleskop.Cpu.Host.{Files, get_local_numa_nodes}
use teleskop.Cpu.Node.{NumaNode}
use teleskop.Go.Action.{Action, lift}
use teleskop.Go.Error.{ok}
use teleskop.Go.Keeps.{Keeps, Keeps-bind, Keeps-pure, Keeps-if}
use teleskop.Go.Net.To4.{to4}
use teleskop.Go.Text.{Text, codes}
use teleskop.Go.Triple.{Triple, Triple-keeps, Triple-bind}
use teleskop.Go.Moves.{Same, Same-order, Moves-Keeps}
use teleskop.Network.Preserves.{
  LinkPrimitives, NetworkPrimitives, add_bridge-Moves, add_vlan_interface-Moves,
  add_interface_to_bridge-Moves,
}

-- What RegisterTeleskopAgent is called with.
pub record Registration : Type 0 where
  pub hostname : Text
  pub endpoint : Text
  pub iqn : Text
  pub nodes : List NumaNode

abbrev pub registration_of : Text → Text → Text → List NumaNode → Registration
registration_of hostname endpoint iqn nodes = record {
  hostname = hostname;
  endpoint = endpoint;
  iqn = iqn;
  nodes = nodes;
}

-- `registered` is what the datastore was told; other calls tell it nothing.
pub record IsLawful (s : Services) (datastore : Datastore s.iptables.Host)
    (registered : s.iptables.Host → List Registration) : Type 0 where
  pub registers :
      (hostname endpoint iqn : Text) (nodes : List NumaNode) (w : s.iptables.Host) (a : ⊤)
      → (datastore.register_teleskop_agent hostname endpoint iqn nodes w).0 ≡ ok a
      → registered (datastore.register_teleskop_agent hostname endpoint iqn nodes w).1
        ≡ registered w ++ registration_of hostname endpoint iqn nodes ∷ []
  pub lists : Keeps registered datastore.list_bridge
  pub link : LinkPrimitives s.netlink (Same registered)
  pub network : NetworkPrimitives s.networks (Same registered)
  pub hostname : Keeps registered s.libvirt.hostname
  pub iqn : Keeps registered s.osbrick.get_iqn

-- The first IPv4 address of a list, in four bytes.
abbrev pub or_first : Option (List ℕ) → Option (List ℕ) → Option (List ℕ)
or_first none rest = rest
or_first (some v4) rest = some v4

abbrev pub first_v4 : List (List ℕ) → Option (List ℕ)
first_v4 [] = none
first_v4 (ip ∷ ips) = or_first (to4 ip) (first_v4 ips)

module _ (s : Services) (datastore : Datastore s.iptables.Host) (files : Files)
    (registered : s.iptables.Host → List Registration)
    (laws : IsLawful s datastore registered) where
  setup_bridge-Keeps :
      (parent : Text) (bridge : Bridge) → Keeps registered (setup_bridge s parent bridge)
  unfolding setup_bridge
  setup_bridge-Keeps parent bridge =
      Keeps-bind _ _
        (Moves-Keeps _ (
          add_bridge-Moves s.netlink (Same registered) (Same-order registered) laws.link s.networks
            laws.network s.net _))
        λ _. Keeps-if _ _ _ (Keeps-pure tt) (
          Keeps-bind _ _
            (Moves-Keeps _ (
              add_vlan_interface-Moves s.netlink (Same registered) (Same-order registered) laws.link
                _))
            λ _. Moves-Keeps _ (
              add_interface_to_bridge-Moves s.netlink (Same registered) (Same-order registered)
                laws.link _))

  setup_bridges-Keeps :
      (parent : Text) (bridges : List Bridge) → Keeps registered (setup_bridges s parent bridges)
  unfolding setup_bridges
  setup_bridges-Keeps parent [] = Keeps-pure tt
  setup_bridges-Keeps parent (bridge ∷ bridges) =
      Keeps-bind _ _ (setup_bridge-Keeps parent bridge) λ _. setup_bridges-Keeps parent bridges

  -- One registration is new: its endpoint is port 5000 of the IPv4 address that comes first in `addrs`, its
  -- nodes are those of the host.
  pub record IsRegistered (addrs : List s.netlink.Addr) (old new : List Registration) : Type 0 where
    pub registration : Registration
    pub added : new ≡ old ++ registration ∷ []
    pub v4 : List ℕ
    pub first : first_v4 (map s.netlink.addr_ip addrs) ≡ some v4
    pub endpoint : registration.endpoint ≡ s.net.ip_string v4 ++ codes ":5000"
    pub nodes : get_local_numa_nodes files ≡ ok registration.nodes

  -- The agent's setup, by the arguments of the registration.
  record IsTold (hostname endpoint : Text) (old new : List Registration) : Type 0 where
    iqn : Text
    all_nodes : List NumaNode
    told : new ≡ old ++ registration_of hostname endpoint iqn all_nodes ∷ []
    found : get_local_numa_nodes files ≡ ok all_nodes

  agent_setup_step :
      (hostname endpoint parent : Text) (old : List Registration)
      → Triple
          (λ w. registered w ≡ old)
          (agent_setup s datastore files hostname endpoint parent)
          (λ _ w. IsTold hostname endpoint old (registered w))
  unfolding agent_setup
  agent_setup_step hostname endpoint parent old =
      Triple-bind _ _ _ _ _ (Triple-keeps registered (λ r. r ≡ old) _ laws.lists) λ bridges.
        Triple-bind _ _ _ _ _
          (Triple-keeps registered (λ r. r ≡ old) _ (setup_bridges-Keeps parent bridges))
          λ _.
            Triple-bind _ (lift (get_local_numa_nodes files)) _
              (λ nodes w. (registered w ≡ old) × (get_local_numa_nodes files ≡ ok nodes)) _
              (record { at = λ w nodes p h. (p, h) })
              λ nodes.
                Triple-bind _ _ _ _ _
                  (Triple-keeps registered
                    (λ r. (r ≡ old) × (get_local_numa_nodes files ≡ ok nodes)) _ laws.iqn)
                  λ iqn. record {
                    at = λ w a p h. record {
                      iqn = iqn;
                      all_nodes = nodes;
                      told =
                          laws.registers hostname endpoint iqn nodes w a h
                          ∙ ap (λ r. r ++ registration_of hostname endpoint iqn nodes ∷ []) p.0;
                      found = p.1;
                    };
                  }

  -- One round of the loop over the addresses.
  addr_step :
      (interface hostname : Text) (addr : s.netlink.Addr) (addrs : List s.netlink.Addr)
      (old : List Registration) (found : Option (List ℕ))
      → to4 (s.netlink.addr_ip addr) ≡ found
      → Triple
          (λ w. registered w ≡ old)
          (setup_at s datastore files interface hostname addrs)
          (λ _ w. IsRegistered addrs old (registered w))
      → Triple
          (λ w. registered w ≡ old)
          (elim found as (λ _. Action s.iptables.Host ⊤) [
            | some ip ↦
                agent_setup s datastore files hostname
                  (s.net.ip_string ip ++ codes ":5000")
                  (trim_vlan_id interface)
            | none ↦ setup_at s datastore files interface hostname addrs
          ])
          (λ _ w. IsRegistered (addr ∷ addrs) old (registered w))
  addr_step interface hostname addr addrs old none e rest = record {
    at = λ w a p h.
        let there = rest.at w a p h in
        record {
          registration = there.registration;
          added = there.added;
          v4 = there.v4;
          first = rw e there.first;
          endpoint = there.endpoint;
          nodes = there.nodes;
        };
  }
  addr_step interface hostname addr addrs old (some ip) e rest = record {
    at = λ w a p h.
        let is_told =
          (agent_setup_step hostname (s.net.ip_string ip ++ codes ":5000") (trim_vlan_id interface)
              old).at
            w a p h in
        record {
          registration =
              registration_of hostname (s.net.ip_string ip ++ codes ":5000") is_told.iqn
                is_told.all_nodes;
          added = is_told.told;
          v4 = ip;
          first = rw e refl;
          endpoint = refl;
          nodes = is_told.found;
        };
  }

  pub setup_at_step :
      (interface hostname : Text) (addrs : List s.netlink.Addr) (old : List Registration)
      → Triple
          (λ w. registered w ≡ old)
          (setup_at s datastore files interface hostname addrs)
          (λ _ w. IsRegistered addrs old (registered w))
  unfolding setup_at
  setup_at_step interface hostname [] old = record { at = λ w a p h. cc }
  setup_at_step interface hostname (addr ∷ addrs) old =
      addr_step interface hostname addr addrs old (to4 (s.netlink.addr_ip addr)) refl
        (setup_at_step interface hostname addrs old)
