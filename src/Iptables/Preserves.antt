-- ===== src/Iptables/Preserves.antt =====
-- The handlers of security groups, and a relation between hosts that every call of the client keeps to.
use teleskop.Api.Requests.{AddSecurityGroupRequest}
use teleskop.Common.{ℕ, ⊤, ◌+◌, List, [], ◌∷◌, All}
use teleskop.Go.Action.{Action}
use teleskop.Go.Error.{Error}
use teleskop.Go.Moves.{IsPreorder, Moves, Moves-wrap, Moves-bind, Moves-on_error, moving}
use teleskop.Go.Net.{Net}
use teleskop.Go.Text.{Text}
use teleskop.Iptables.Add.{
  ignore, abandon, insert_from, insert_rules, new_chain_with, add_source_sg_rules,
  add_output_sg_rules, add_input_sg_rules, add_sg_rules, add_input_rules, add_forward_rules,
  add_security_group,
}
use teleskop.Iptables.Client.{IpTables, Rule}
use teleskop.Iptables.Handlers.{
  new_client, get_ip_tables, setup_default_security_group_handler, add_security_group_handler,
}
use teleskop.Iptables.Rules.{Link}
use teleskop.Iptables.Setup.{
  setup_chain, setup_with, setup_sg_fallback_chain, setup_sg_chain, setup_input, setup_forward,
  run_all, setup_default_security_group,
}

pub record ChainPrimitives (client : IpTables) (R : client.Host → client.Host → Type 0)
    : Type 0 where
  pub new : Moves R client.new
  pub new_chain : (table chain : Text) → Moves R (client.new_chain table chain)
  pub append_unique :
      (table chain : Text) (rule : Rule) → Moves R (client.append_unique table chain rule)
  pub insert :
      (table chain : Text) (pos : ℕ) (rule : Rule) → Moves R (client.insert table chain pos rule)
  pub clear_chain : (table chain : Text) → Moves R (client.clear_chain table chain)
  pub delete_chain : (table chain : Text) → Moves R (client.delete_chain table chain)

module _ (client : IpTables) (R : client.Host → client.Host → Type 0) (order : IsPreorder R)
    (ops : ChainPrimitives client R) where
  open client use {Host}

  setup_chain-Moves : (name : Text) → Moves R (setup_chain client name)
  unfolding setup_chain
  setup_chain-Moves name = search (moving, order, ops.new_chain)

  setup_with-Moves :
      (name target : Text) (rule : Rule) → Moves R (setup_with client name target rule)
  unfolding setup_with
  setup_with-Moves name target rule = search (moving, order, setup_chain-Moves, ops.append_unique)

  abandon-Moves : (name : Text) (e : Error) → Moves R (abandon client name e)
  unfolding abandon ignore
  abandon-Moves name e = search (moving, order, ops.clear_chain, ops.delete_chain)

  insert_from-Moves :
      (name : Text) (pos : ℕ) (rules : List Rule) → Moves R (insert_from client name pos rules)
  unfolding insert_from
  insert_from-Moves name pos [] = search (moving, order)
  insert_from-Moves name pos (rule ∷ rules) =
      Moves-on_error R order _ _ _ (ops.insert _ name pos rule) (abandon-Moves name)
        λ _. insert_from-Moves name (pos + 1) rules

  new_chain_with-Moves :
      (name : Text) (rules : List Rule) → Moves R (new_chain_with client name rules)
  unfolding new_chain_with insert_rules
  new_chain_with-Moves name rules = search (moving, order, setup_chain-Moves, insert_from-Moves)

  insert_rules-Moves : (name : Text) (rules : List Rule) → Moves R (insert_rules client name rules)
  unfolding insert_rules
  insert_rules-Moves name rules = insert_from-Moves name 1 rules

  run_all-Moves : (fns : List (Action Host ⊤)) → All (Moves R) fns → Moves R (run_all client fns)
  unfolding run_all
  run_all-Moves [] all = search (moving, order)
  run_all-Moves (fn ∷ fns) (h, all) = Moves-bind R order _ _ h λ _. run_all-Moves fns all

  add_security_group-Moves :
      (net : Net) (intf : Link) → Moves R (add_security_group client net intf)
  unfolding add_security_group add_source_sg_rules add_output_sg_rules add_input_sg_rules
      add_sg_rules add_input_rules add_forward_rules
  add_security_group-Moves net intf = run_all-Moves _ (
    new_chain_with-Moves _ _,
    (
      new_chain_with-Moves _ _,
      (
        new_chain_with-Moves _ _,
        (insert_rules-Moves _ _, (insert_rules-Moves _ _, (insert_rules-Moves _ _, tt))),
      ),
    ),
  )

  setup-Moves : Moves R (setup_default_security_group client)
  unfolding setup_default_security_group setup_sg_fallback_chain setup_sg_chain setup_input
      setup_forward
  setup-Moves = run_all-Moves _ (
    setup_with-Moves _ _ _,
    (setup_with-Moves _ _ _, (setup_with-Moves _ _ _, (setup_with-Moves _ _ _, tt))),
  )

  pub get_ip_tables-Moves : Moves R (get_ip_tables client)
  unfolding get_ip_tables
  get_ip_tables-Moves = search (moving, order)

  new_client-Moves : Moves R (new_client client)
  unfolding new_client
  new_client-Moves = Moves-wrap R order _ _ ops.new

  pub setup_handler-Moves : Moves R (setup_default_security_group_handler client)
  unfolding setup_default_security_group_handler
  setup_handler-Moves = search (moving, order, new_client-Moves, setup-Moves)

  pub add_handler-Moves :
      (net : Net) (req : AddSecurityGroupRequest)
      → Moves R (add_security_group_handler client net req)
  unfolding add_security_group_handler
  add_handler-Moves net req =
      search (moving, order, new_client-Moves, add_security_group-Moves) depth 12
