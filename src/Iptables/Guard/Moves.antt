-- ===== src/Iptables/Guard/Moves.antt =====
-- iptables.go: every setup and add function keeps within the guard, errors and cleaning up included.
use teleskop.Api.Requests.{AddSecurityGroupRequest}
use teleskop.Common.{ℕ, ◌+◌, ⊤, List, [], ◌∷◌, All}
use teleskop.Go.Action.{Action}
use teleskop.Go.Error.{Error}
use teleskop.Go.Moves.{Moves, Moves-bind, Moves-on_error, moving}
use teleskop.Go.Net.{Net}
use teleskop.Go.Text.{Text}
use teleskop.Iptables.Add.{
  ignore, abandon, insert_from, insert_rules, new_chain_with, add_source_sg_rules,
  add_input_sg_rules, add_output_sg_rules, add_sg_rules, add_input_rules, add_forward_rules,
  add_security_group,
}
use teleskop.Iptables.Chain.{table_filter}
use teleskop.Iptables.Client.{IpTables, IsLawful, Rule}
use teleskop.Iptables.Guard.{IsOwn}
use teleskop.Iptables.Handlers.{
  new_client, setup_default_security_group_handler, add_security_group_handler,
}
use teleskop.Iptables.Rules.{Link}
use teleskop.Iptables.Setup.{
  setup_chain, setup_with, run_all, setup_sg_fallback_chain, setup_sg_chain, setup_input,
  setup_forward, setup_default_security_group,
}
use teleskop.Iptables.Guard.Names.{
  IsKnown, IsOwn-input, IsOwn-output, IsOwn-source, IsOwn-sg, IsOwn-forward, IsOwn-callisto_input,
  IsOwn-fallback, IsKnown-own, IsKnown-input, IsKnown-forward,
}
use teleskop.Iptables.Guard.Calls.{
  Guarded, order, new_chain-Moves, append_unique-Moves, insert-Moves, clear_chain-Moves,
  delete_chain-Moves,
}

module _ (client : IpTables) (laws : IsLawful client table_filter) where
  open client use {Host}
  open laws use {view}

  ruleset calling = (
    moving, order, new_chain-Moves, append_unique-Moves, insert-Moves, clear_chain-Moves,
    delete_chain-Moves,
  )

  abbrev Kept : Host → Host → Type 0
  Kept = Guarded client laws

  setup_chain-Moves : (name : Text) → IsOwn name → Moves Kept (setup_chain client name)
  unfolding setup_chain
  setup_chain-Moves name own = search calling

  setup_with-Moves :
      (name target : Text) (rule : Rule)
      → IsOwn name
      → IsKnown target
      → Moves Kept (setup_with client name target rule)
  unfolding setup_with
  setup_with-Moves name target rule own known = search (calling, setup_chain-Moves)

  abandon-Moves : (name : Text) (e : Error) → IsOwn name → Moves Kept (abandon client name e)
  unfolding abandon ignore
  abandon-Moves name e own = search calling

  insert_from-Moves :
      (name : Text) (pos : ℕ) (rules : List Rule)
      → IsOwn name
      → Moves Kept (insert_from client name pos rules)
  unfolding insert_from
  insert_from-Moves name pos [] own = search calling
  insert_from-Moves name pos (rule ∷ rules) own =
      Moves-on_error Kept (order client laws) _ _ _ (insert-Moves client laws name pos rule own)
        (λ e. abandon-Moves name e own) λ _. insert_from-Moves name (pos + 1) rules own

  insert_rules-Moves :
      (name : Text) (rules : List Rule) → IsOwn name → Moves Kept (insert_rules client name rules)
  unfolding insert_rules
  insert_rules-Moves name rules own = insert_from-Moves name 1 rules own

  new_chain_with-Moves :
      (name : Text) (rules : List Rule) → IsOwn name → Moves Kept (new_chain_with client name rules)
  unfolding new_chain_with
  new_chain_with-Moves name rules own = search (calling, setup_chain-Moves, insert_rules-Moves)

  run_all-Moves :
      (fns : List (Action Host ⊤)) → All (Moves Kept) fns → Moves Kept (run_all client fns)
  unfolding run_all
  run_all-Moves [] all = search calling
  run_all-Moves (fn ∷ fns) (h, all) =
      Moves-bind Kept (order client laws) _ _ h λ _. run_all-Moves fns all

  add_security_group-Moves :
      (net : Net) (intf : Link) → Moves Kept (add_security_group client net intf)
  unfolding add_security_group add_source_sg_rules add_output_sg_rules add_input_sg_rules
      add_sg_rules add_input_rules add_forward_rules
  add_security_group-Moves net intf = run_all-Moves _ (
    new_chain_with-Moves _ _ (IsOwn-source intf),
    (
      new_chain_with-Moves _ _ (IsOwn-output intf),
      (
        new_chain_with-Moves _ _ (IsOwn-input intf),
        (
          insert_rules-Moves _ _ IsOwn-sg,
          (insert_rules-Moves _ _ IsOwn-forward, (insert_rules-Moves _ _ IsOwn-forward, tt)),
        ),
      ),
    ),
  )

  setup-Moves : Moves Kept (setup_default_security_group client)
  unfolding setup_default_security_group setup_sg_fallback_chain setup_sg_chain setup_input
      setup_forward
  setup-Moves = run_all-Moves _ (
    setup_with-Moves _ _ _ IsOwn-fallback (IsKnown-own _ IsOwn-fallback),
    (
      setup_with-Moves _ _ _ IsOwn-sg (IsKnown-own _ IsOwn-sg),
      (
        setup_with-Moves _ _ _ IsOwn-callisto_input IsKnown-input,
        (setup_with-Moves _ _ _ IsOwn-forward IsKnown-forward, tt),
      ),
    ),
  )

  -- `new` opens the client.
  module _ (opens : Moves Kept client.new) where
    pub setup_default_security_group_handler-Moves :
        Moves Kept (setup_default_security_group_handler client)
    unfolding setup_default_security_group_handler new_client
    setup_default_security_group_handler-Moves = search (calling, setup-Moves)

    pub add_security_group_handler-Moves :
        (net : Net) (req : AddSecurityGroupRequest)
        → Moves Kept (add_security_group_handler client net req)
    unfolding add_security_group_handler new_client
    add_security_group_handler-Moves net req = search (calling, add_security_group-Moves) depth 12
