-- ===== src/Example/Secured.antt =====
-- The example programs against an agent, and the chains of the filter table behind them.
use mathlib.Core.Path.{subst}
use teleskop.Agent.Service.{Services, Response, serve}
use teleskop.Api.Requests.{AddSecurityGroupRequest}
use teleskop.Common.{◌++◌, append-nil, ℕ, ⊤, ◌≡◌, refl, ap, ◌∙◌, Option, none, some, List, [], ◌∷◌}
use teleskop.Example.Client.{setup_client, create_virtual_machine, instance_security}
use teleskop.Example.Node.{reach}
use teleskop.Go.Action.{lift}
use teleskop.Go.Error.{Outcome, ok}
use teleskop.Go.Keeps.{Keeps, or_else-ok}
use teleskop.Go.Net.{Net}
use teleskop.Go.Outcome.{ok_inj}
use teleskop.Go.Text.{Text}
use teleskop.Go.Triple.{Triple, Triple-any, Triple-keeps, Triple-pure, Triple-wrap, Triple-bind}
use teleskop.Iptables.Add.{add_security_group}
use teleskop.Iptables.Add.Group.{IsReady, IsAdded, add_security_group_lem}
use teleskop.Iptables.Chain.{
  table_filter, chain_callisto_sg, chain_callisto_forward, chain_callisto_input,
}
use teleskop.Iptables.Client.{IpTables, IsLawful, View, Rule}
use teleskop.Iptables.Handlers.{
  required, new_client, setup_default_security_group_handler, add_security_group_handler,
}
use teleskop.Iptables.Rules.{
  Link, jump, action_accept, get_source_chain_name, get_output_chain_name, get_input_chain_name,
  source_rules, output_sg_rules, input_sg_rules, sg_rules, forward_rules, input_rules,
}
use teleskop.Iptables.Setup.Effect.{IsSetUp, setup_lem}
use teleskop.Go.Moves.{Same, Same-order, Moves-Keeps}
use teleskop.Vm.Preserves.{
  DomainPrimitives, add_virtual_machine-Moves, attach_interface-Moves, start_virtual_machine-Moves,
}

-- The group of a request is added, to an interface whose addresses are the parsed ones.
pub record IsGrouped (net : Net) (req : AddSecurityGroupRequest) (v v' : View) : Type 0 where
  pub link : Link
  pub named : link.name ≡ req.interface
  pub address : net.parse_ip req.ip_address ≡ some link.ip_address
  pub hardware : net.parse_mac req.mac_address ≡ ok link.mac_address
  pub added : (ready : IsReady v) → IsAdded net link v v' ready

module _ (client : IpTables) (laws : IsLawful client table_filter) (net : Net)
    (opens : Keeps laws.view client.new) where
  open client use {Host}
  open laws use {view}

  new_client-Keeps : Keeps view (new_client client)
  unfolding new_client
  new_client-Keeps = record { at = λ w. opens.at w }

  required-some : (o : Option (List ℕ)) (ip : List ℕ) → required o ≡ ok ip → o ≡ some ip
  unfolding required
  required-some none ip h = cc
  required-some (some a) ip h = ap some (ok_inj a ip h)

  lift_step :
      {A : Type 0} (P : Host → Type 0) (o : Outcome A) → Triple P (lift o) (λ a w. P w × (o ≡ ok a))
  lift_step P o = record { at = λ w a p h. (p, h) }

  setup_handler_step :
      Triple
        (λ _. ⊤)
        (setup_default_security_group_handler client)
        (λ _ w. (v : View) × IsSetUp v (view w))
  unfolding setup_default_security_group_handler
  setup_handler_step = Triple-bind _ _ _ _ _ (Triple-any _ (new_client client)) λ _.
      Triple-bind _ _ _ (λ _ w. (v : View) × IsSetUp v (view w)) _
        (record { at = λ w a p h. (view w, setup_lem client laws w h) })
        λ _. Triple-pure _ _ _ λ w p. p

  group_step :
      (intf : Link) (w : Host) (a : ⊤) (v : View)
      → view w ≡ v
      → (add_security_group client net intf w).0 ≡ ok a
      → (ready : IsReady v)
      → IsAdded net intf v (view (add_security_group client net intf w).1) ready
  group_step intf w tt v p h =
      subst
        (λ (u : View).
          (ready : IsReady u)
          → IsAdded net intf u (view (add_security_group client net intf w).1) ready)
        p (λ ready. add_security_group_lem client laws net intf w ready h)

  add_handler_step :
      (req : AddSecurityGroupRequest) (v : View)
      → Triple
          (λ w. view w ≡ v)
          (add_security_group_handler client net req)
          (λ _ w. IsGrouped net req v (view w))
  unfolding add_security_group_handler
  add_handler_step req v =
      Triple-bind _ _ _ _ _ (Triple-keeps view (λ u. u ≡ v) _ new_client-Keeps) λ _.
        Triple-bind _ _ _ _ _ (lift_step _ _) λ ip. Triple-bind _ _ _ _ _ (lift_step _ _) λ mac.
          Triple-bind _ _ _ (λ _ w. IsGrouped net req v (view w)) _
            (Triple-wrap _
              (add_security_group client net
                (record { name = req.interface; ip_address = ip; mac_address = mac }))
              _ _
              (record {
                at = λ w a p h. record {
                  link = record { name = req.interface; ip_address = ip; mac_address = mac };
                  named = refl;
                  address = required-some _ ip p.0.1;
                  hardware = or_else-ok _ _ mac p.1;
                  added = group_step _ w a v p.0.0 h;
                };
              }))
            λ _. Triple-pure _ _ _ λ w p. p

module _ (s : Services) where
  -- The chains of the agent with one interface.
  pub record IsSecured (v : View) : Type 0 where
    pub link : Link
    pub named : link.name ≡ instance_security.interface
    pub address : s.net.parse_ip instance_security.ip_address ≡ some link.ip_address
    pub hardware : s.net.parse_mac instance_security.mac_address ≡ ok link.mac_address
    pub source :
        v (get_source_chain_name link)
        ≡ some (source_rules (s.net.ip_string link.ip_address) (s.net.mac_string link.mac_address))
    pub output : v (get_output_chain_name link) ≡ some (output_sg_rules link)
    pub input : v (get_input_chain_name link) ≡ some input_sg_rules
    pub sg : v chain_callisto_sg ≡ some (sg_rules link ++ jump action_accept ∷ [])
    pub forward : v chain_callisto_forward ≡ some (forward_rules link ++ input_rules link)
    pub callisto_input : v chain_callisto_input ≡ some []

  secure : (u v v' : View) → IsSetUp u v → IsGrouped s.net instance_security v v' → IsSecured v'
  secure u v v' set grouped =
      let ready : IsReady v = record {
        sg = jump action_accept ∷ [];
        sg_found = set.sg;
        input = [];
        input_found = set.input;
        forward = [];
        forward_found = set.forward;
      } in
      let added = grouped.added ready in
      record {
        link = grouped.link;
        named = grouped.named;
        address = grouped.address;
        hardware = grouped.hardware;
        source = added.source;
        output = added.output;
        input = added.input;
        sg = added.sg;
        forward =
            added.forward
            ∙ ap (λ (l : List Rule). some (forward_rules grouped.link ++ l)) (append-nil _);
        callisto_input = added.callisto_input;
      }

module _ (s : Services) (laws : IsLawful s.iptables table_filter)
    (opens : Keeps laws.view s.iptables.new)
    (apart : DomainPrimitives s.libvirt (Same laws.view)) where
  open laws use {view}

  create_virtual_machine_step :
      (addr : Text) (v : View)
      → Triple
          (λ w. view w ≡ v)
          (create_virtual_machine (reach s) addr)
          (λ _ w. IsGrouped s.net instance_security v (view w))
  unfolding create_virtual_machine setup_client serve Response
  create_virtual_machine_step addr v =
      Triple-bind _ _ _ _ _
        (Triple-wrap _ _ _ _ (
          Triple-keeps view (λ u. u ≡ v) _
            (Moves-Keeps _
              (add_virtual_machine-Moves s.libvirt (Same view) (Same-order view) apart _))))
        λ resp.
          Triple-bind _ _ _ _ _
            (Triple-wrap _ _ _ _ (
              Triple-keeps view (λ u. u ≡ v) _
                (Moves-Keeps _
                  (attach_interface-Moves s.libvirt (Same view) (Same-order view) apart _))))
            λ _.
              Triple-bind _ _ _ _ _
                (Triple-wrap _ _ _ _
                  (add_handler_step s.iptables laws s.net opens instance_security v))
                λ _.
                  Triple-bind _ _ _ _ _
                    (Triple-wrap _ _ _ _ (
                      Triple-keeps view (IsGrouped s.net instance_security v) _ (
                        Moves-Keeps _ (
                          start_virtual_machine-Moves s.libvirt (Same view) (Same-order view) apart
                            _))))
                    λ _. Triple-pure _ _ _ λ w p. p

  -- When SetupDefaultSecurityGroup and then the program create_virtual_machine, on a connection that reaches
  -- the agent, have returned no error, the three chains of tap001 are there with their rules, and the shared
  -- chains hold the rules for tap001, in front of the accepting rule in callisto-sg-chain, and nothing else.
  -- The client of iptables is lawful; opening it and the calls of libvirt and the datastore leave the filter
  -- table alone, and so does whatever is between the two.
  pub create_virtual_machine-IsSecured :
      (addr : Text) (w w' : s.iptables.Host)
      → (setup_default_security_group_handler s.iptables w).0 ≡ ok tt
      → view w' ≡ view (setup_default_security_group_handler s.iptables w).1
      → (create_virtual_machine (reach s) addr w').0 ≡ ok tt
      → IsSecured s (view (create_virtual_machine (reach s) addr w').1)
  create_virtual_machine-IsSecured addr w w' first between second =
      let (u, set) = (setup_handler_step s.iptables laws s.net opens).at w tt tt first in
      secure s u _ _ set ((create_virtual_machine_step addr _).at w' tt between second)
