-- ===== src/Iptables/Add.antt =====
-- iptables.go: the chains and rules of one interface.
pub mod Effect
pub mod Group
pub mod Failure
use teleskop.Common.{ℕ, ⊤, ◌+◌, List, [], ◌∷◌}
use teleskop.Go.Action.{Action, pure, raise, on_error, ◌>>=◌, ◌>>◌}
use teleskop.Go.Error.{Error, status, internal}
use teleskop.Go.Net.{Net}
use teleskop.Go.Text.{Text}
use teleskop.Iptables.Client.{IpTables, Rule}
use teleskop.Iptables.Chain.{table_filter, chain_callisto_sg, chain_callisto_forward}
use teleskop.Iptables.Rules.{
  Link, get_input_chain_name, get_output_chain_name, get_source_chain_name, source_rules,
  input_sg_rules, output_sg_rules, sg_rules, input_rules, forward_rules,
}
use teleskop.Iptables.Setup.{setup_chain, run_all}

module _ (client : IpTables) where
  open client use {Host, insert, clear_chain, delete_chain}

  -- A call whose error is dropped.
  unfoldable pub ignore : Action Host ⊤ → Action Host ⊤
  ignore m = on_error m (λ _. pure tt) pure

  -- What the loop does when Insert fails.
  unfoldable pub abandon : Text → Error → Action Host ⊤
  abandon chain e = do
    ignore (clear_chain table_filter chain)
    ignore (delete_chain table_filter chain)
    raise (status internal "failed to append new %s rule: %+v" e)

  -- `for i, rule := range rules { client.Insert(tableFilter, chain, i+1, rule...) }`, from the
  -- position of the next rule on.
  unfoldable pub insert_from : Text → ℕ → List Rule → Action Host ⊤
  insert_from chain pos [] = pure tt
  insert_from chain pos (rule ∷ rules) =
      on_error (insert table_filter chain pos rule) (abandon chain)
        λ _. insert_from chain (pos + 1) rules

  unfoldable pub insert_rules : Text → List Rule → Action Host ⊤
  insert_rules chain rules = insert_from chain 1 rules

  -- A new chain with rules: the shape of the three functions below.
  unfoldable pub new_chain_with : Text → List Rule → Action Host ⊤
  new_chain_with chain rules = do setup_chain client chain; insert_rules chain rules

  module _ (net : Net) where
    unfoldable pub add_source_sg_rules : Link → Action Host ⊤
    add_source_sg_rules intf =
        new_chain_with (get_source_chain_name intf)
          (source_rules (net.ip_string intf.ip_address) (net.mac_string intf.mac_address))

  unfoldable pub add_input_sg_rules : Link → Action Host ⊤
  add_input_sg_rules intf = new_chain_with (get_input_chain_name intf) input_sg_rules

  unfoldable pub add_output_sg_rules : Link → Action Host ⊤
  add_output_sg_rules intf = new_chain_with (get_output_chain_name intf) (output_sg_rules intf)

  unfoldable pub add_sg_rules : Link → Action Host ⊤
  add_sg_rules intf = insert_rules chain_callisto_sg (sg_rules intf)

  -- The chain is that of addFORWARDRules.
  unfoldable pub add_input_rules : Link → Action Host ⊤
  add_input_rules intf = insert_rules chain_callisto_forward (input_rules intf)

  unfoldable pub add_forward_rules : Link → Action Host ⊤
  add_forward_rules intf = insert_rules chain_callisto_forward (forward_rules intf)

  module _ (net : Net) where
    abbrev pub add_functions : Link → List (Action Host ⊤)
    add_functions intf =
        add_source_sg_rules net intf
        ∷ add_output_sg_rules intf
        ∷ add_input_sg_rules intf
        ∷ add_sg_rules intf
        ∷ add_input_rules intf
        ∷ add_forward_rules intf
        ∷ []

    unfoldable pub add_security_group : Link → Action Host ⊤
    add_security_group intf = run_all client (add_functions intf)
