-- ===== src/Iptables/Setup.antt =====
-- iptables.go: the chains that the agent needs before any security group.
pub mod Effect
pub mod Twice
use teleskop.Common.{⊤, List, [], ◌∷◌}
use teleskop.Go.Action.{Action, pure, wrap_error, ◌>>=◌, ◌>>◌}
use teleskop.Go.Error.{Error, status, internal}
use teleskop.Go.Text.{Text, codes}
use teleskop.Iptables.Client.{IpTables, Rule}
use teleskop.Iptables.Chain.{
  table_filter, chain_input, chain_forward, chain_callisto_sg_fallback, chain_callisto_sg,
  chain_callisto_input, chain_callisto_forward,
}
use teleskop.Iptables.Rules.{rule_sg_fallback, rule_input, rule_forward, jump, action_accept}

module _ (client : IpTables) where
  open client use {Host, new_chain, append_unique}

  unfoldable pub setup_chain : Text → Action Host ⊤
  setup_chain name =
      wrap_error (new_chain table_filter name) (status internal "failed to create new chain: %+v")

  -- A new chain, and one rule appended to a chain: the shape of the four functions below.
  unfoldable pub setup_with : Text → Text → Rule → Action Host ⊤
  setup_with name target rule = do
    setup_chain name
    wrap_error (append_unique table_filter target rule)
        (status internal "failed to append new rule: %+v")

  unfoldable pub setup_sg_fallback_chain : Action Host ⊤
  setup_sg_fallback_chain =
      setup_with chain_callisto_sg_fallback chain_callisto_sg_fallback rule_sg_fallback

  unfoldable pub setup_sg_chain : Action Host ⊤
  setup_sg_chain = setup_with chain_callisto_sg chain_callisto_sg (jump action_accept)

  unfoldable pub setup_input : Action Host ⊤
  setup_input = setup_with chain_callisto_input chain_input rule_input

  unfoldable pub setup_forward : Action Host ⊤
  setup_forward = setup_with chain_callisto_forward chain_forward rule_forward

  -- `for _, fn := range fns`: the first error ends the loop.
  unfoldable pub run_all : List (Action Host ⊤) → Action Host ⊤
  run_all [] = pure tt
  run_all (fn ∷ fns) = fn >> run_all fns

  abbrev pub setup_functions : List (Action Host ⊤)
  setup_functions = setup_sg_fallback_chain ∷ setup_sg_chain ∷ setup_input ∷ setup_forward ∷ []

  unfoldable pub setup_default_security_group : Action Host ⊤
  setup_default_security_group = run_all setup_functions
