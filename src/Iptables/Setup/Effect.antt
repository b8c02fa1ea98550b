-- ===== src/Iptables/Setup/Effect.antt =====
-- What a run of the setup that succeeds has done to the chains, over any lawful client.
use mathlib.Core.Option.{some-injective}
use mathlib.Core.Path.{subst}
use teleskop.Common.{
  All, ◌≡◌, refl, ap, ◌∙◌, sym, false, Option, none, some, List, [], ◌∷◌, eq_bytes,
}
use teleskop.Go.Error.{ok}
use teleskop.Go.Text.{Text, codes}
use teleskop.Iptables.Client.{
  IpTables, IsLawful, Rule, View, put, holds_rule, after_new_chain, after_append_unique,
}
use teleskop.Iptables.Chain.{
  table_filter, chain_input, chain_forward, chain_callisto_sg_fallback, chain_callisto_sg,
  chain_callisto_input, chain_callisto_forward,
}
use teleskop.Iptables.Effect.{
  ◌then_effect◌, bind_effect-some, Succeeds, Succeeds-pure, Succeeds-bind, Succeeds-wrap, with_rule,
  put_self, put_ne, after_new_chain-some, after_append_unique-some,
}
use teleskop.Iptables.Rules.{rule_sg_fallback, rule_input, rule_forward, jump, action_accept}
use teleskop.Iptables.Setup.{
  setup_chain, setup_with, setup_sg_fallback_chain, setup_sg_chain, setup_input, setup_forward,
  run_all, setup_default_security_group,
}

abbrev stage : Text → Text → Rule → View → Option View
stage name target rule = after_new_chain name then_effect after_append_unique target rule

-- A new chain that is given its rule.
record IsFilled (name : Text) (rule : Rule) (v v' : View) : Type 0 where
  absent : v name ≡ none
  filled : v' name ≡ some (rule ∷ [])
  rest : (k : Text) → eq_bytes k name ≡ false → v' k ≡ v k

-- A new chain that stays empty, and a rule in another.
record IsHooked (name target : Text) (rule : Rule) (v v' : View) : Type 0 where
  absent : v name ≡ none
  empty : v' name ≡ some []
  rules : List Rule
  found : v target ≡ some rules
  hooked : v' target ≡ some (with_rule rule rules)
  rest : (k : Text) → eq_bytes k name ≡ false → eq_bytes k target ≡ false → v' k ≡ v k

-- A rule is added to an empty list of rules.
with_rule_new :
    (rule : Rule) (rules : List Rule) → some rules ≡ some [] → with_rule rule rules ≡ rule ∷ []
unfolding holds_rule
with_rule_new rule [] h = refl
with_rule_new rule (r ∷ rules) h = cc

fill :
    (name : Text) (rule : Rule) (v u v' : View) (rules : List Rule)
    → v name ≡ none
    → u ≡ put v name (some [])
    → u name ≡ some rules
    → v' ≡ put u name (some (with_rule rule rules))
    → IsFilled name rule v v'
fill name rule v u v' rules absent made found added = record {
  absent = absent;
  filled = rw added (
      put_self u name _
      ∙ ap some (
          with_rule_new rule rules
            (sym found ∙ (ap (λ (x : View). x name) made ∙ put_self v name (some [])))));
  rest = λ k ne. rw added (put_ne u name k _ ne ∙ rw made (put_ne v name k _ ne));
}

stage-IsFilled :
    (name : Text) (rule : Rule) (v v' : View)
    → stage name name rule v ≡ some v'
    → IsFilled name rule v v'
stage-IsFilled name rule v v' h =
    let (u, e, f) =
      bind_effect-some (after_new_chain name v) (after_append_unique name rule) v' h in
    let (absent, made) = after_new_chain-some name v e in
    let (rules, found, added) = after_append_unique-some name rule u f in
    fill name rule v u v' rules absent made found added

hook :
    (name target : Text) (rule : Rule) (v u v' : View) (rules : List Rule)
    → eq_bytes target name ≡ false
    → eq_bytes name target ≡ false
    → v name ≡ none
    → u ≡ put v name (some [])
    → u target ≡ some rules
    → v' ≡ put u target (some (with_rule rule rules))
    → IsHooked name target rule v v'
hook name target rule v u v' rules ne ne' absent made found added = record {
  absent = absent;
  empty = rw added (put_ne u target name _ ne' ∙ rw made (put_self v name _));
  rules = rules;
  found = sym (ap (λ (x : View). x target) made ∙ put_ne v name target _ ne) ∙ found;
  hooked = rw added (put_self u target _);
  rest = λ k n n'. rw added (put_ne u target k _ n' ∙ rw made (put_ne v name k _ n));
}

stage-IsHooked :
    (name target : Text) (rule : Rule) (v v' : View)
    → eq_bytes target name ≡ false
    → eq_bytes name target ≡ false
    → stage name target rule v ≡ some v'
    → IsHooked name target rule v v'
stage-IsHooked name target rule v v' ne ne' h =
    let (u, e, f) =
      bind_effect-some (after_new_chain name v) (after_append_unique target rule) v' h in
    let (absent, made) = after_new_chain-some name v e in
    let (rules, found, added) = after_append_unique-some target rule u f in
    hook name target rule v u v' rules ne ne' absent made found added

-- What the setup leaves: four new chains, the built-in chains with their jumps, and the rest alone.
pub record IsSetUp (v v' : View) : Type 0 where
  pub absent :
      All
        (λ name. v name ≡ none)
        (chain_callisto_sg_fallback ∷ chain_callisto_sg ∷ chain_callisto_input
          ∷ chain_callisto_forward ∷ [])
  pub fallback : v' chain_callisto_sg_fallback ≡ some (rule_sg_fallback ∷ [])
  pub sg : v' chain_callisto_sg ≡ some (jump action_accept ∷ [])
  pub input : v' chain_callisto_input ≡ some []
  pub forward : v' chain_callisto_forward ≡ some []
  pub input_rules : List Rule
  pub input_found : v chain_input ≡ some input_rules
  pub input_hooked : v' chain_input ≡ some (with_rule rule_input input_rules)
  pub forward_rules : List Rule
  pub forward_found : v chain_forward ≡ some forward_rules
  pub forward_hooked : v' chain_forward ≡ some (with_rule rule_forward forward_rules)
  pub rest :
      (k : Text)
      → All
          (λ name. eq_bytes k name ≡ false)
          (chain_callisto_sg_fallback ∷ chain_callisto_sg ∷ chain_callisto_input
            ∷ chain_callisto_forward ∷ chain_input ∷ chain_forward ∷ [])
      → v' k ≡ v k

set_up :
    (v v1 v2 v3 v4 : View)
    → IsFilled chain_callisto_sg_fallback rule_sg_fallback v v1
    → IsFilled chain_callisto_sg (jump action_accept) v1 v2
    → IsHooked chain_callisto_input chain_input rule_input v2 v3
    → IsHooked chain_callisto_forward chain_forward rule_forward v3 v4
    → IsSetUp v v4
unfolding codes eq_bytes
set_up v v1 v2 v3 v4 a b c d = record {
  absent = (
    a.absent,
    (
      sym (a.rest _ refl) ∙ b.absent,
      (
        sym (b.rest _ refl ∙ a.rest _ refl) ∙ c.absent,
        (sym (c.rest _ refl refl ∙ (b.rest _ refl ∙ a.rest _ refl)) ∙ d.absent, tt),
      ),
    ),
  );
  fallback = d.rest _ refl refl ∙ (c.rest _ refl refl ∙ (b.rest _ refl ∙ a.filled));
  sg = d.rest _ refl refl ∙ (c.rest _ refl refl ∙ b.filled);
  input = d.rest _ refl refl ∙ c.empty;
  forward = d.empty;
  input_rules = c.rules;
  input_found = sym (b.rest _ refl ∙ a.rest _ refl) ∙ c.found;
  input_hooked = d.rest _ refl refl ∙ c.hooked;
  forward_rules = d.rules;
  forward_found = sym (c.rest _ refl refl ∙ (b.rest _ refl ∙ a.rest _ refl)) ∙ d.found;
  forward_hooked = d.hooked;
  rest = λ k ne.
      d.rest k ne.1.1.1.0 ne.1.1.1.1.1.0
      ∙ (c.rest k ne.1.1.0 ne.1.1.1.1.0 ∙ (b.rest k ne.1.0 ∙ a.rest k ne.0));
}

abbrev stage_fallback : View → Option View
stage_fallback = stage chain_callisto_sg_fallback chain_callisto_sg_fallback rule_sg_fallback

abbrev stage_sg : View → Option View
stage_sg = stage chain_callisto_sg chain_callisto_sg (jump action_accept)

abbrev stage_input : View → Option View
stage_input = stage chain_callisto_input chain_input rule_input

abbrev stage_forward : View → Option View
stage_forward = stage chain_callisto_forward chain_forward rule_forward

setup_effect : View → Option View
setup_effect =
    stage_fallback then_effect stage_sg then_effect stage_input then_effect stage_forward
    then_effect some

effect-IsSetUp : (v v' : View) → setup_effect v ≡ some v' → IsSetUp v v'
unfolding setup_effect codes eq_bytes
effect-IsSetUp v v' h =
    let (v1, e1, h1) = bind_effect-some (stage_fallback v) _ v' h in
    let (v2, e2, h2) = bind_effect-some (stage_sg v1) _ v' h1 in
    let (v3, e3, h3) = bind_effect-some (stage_input v2) _ v' h2 in
    let (v4, e4, h4) = bind_effect-some (stage_forward v3) some v' h3 in
    subst (λ (x : View). IsSetUp v x) (some-injective v4 v' h4)
      (set_up v v1 v2 v3 v4 (stage-IsFilled _ _ v v1 e1) (stage-IsFilled _ _ v1 v2 e2)
        (stage-IsHooked _ _ _ v2 v3 refl refl e3) (stage-IsHooked _ _ _ v3 v4 refl refl e4))

module _ (client : IpTables) (laws : IsLawful client table_filter) where
  open client use {Host}
  open laws use {view, new_chain_law, append_unique_law}

  pub setup_chain-Succeeds :
      (name : Text) → Succeeds view (setup_chain client name) (after_new_chain name)
  unfolding setup_chain
  setup_chain-Succeeds name = Succeeds-wrap _ _ _ (new_chain_law name)

  setup_with-Succeeds :
      (name target : Text) (rule : Rule)
      → Succeeds view (setup_with client name target rule) (stage name target rule)
  unfolding setup_with
  setup_with-Succeeds name target rule =
      Succeeds-bind _ _ _ _ (setup_chain-Succeeds name)
        (Succeeds-wrap _ _ _ (append_unique_law target rule))

  setup-Succeeds : Succeeds view (setup_default_security_group client) setup_effect
  unfolding setup_default_security_group run_all setup_sg_fallback_chain setup_sg_chain setup_input
      setup_forward setup_effect
  setup-Succeeds = Succeeds-bind _ _ _ _ (setup_with-Succeeds _ _ _) (
      Succeeds-bind _ _ _ _ (setup_with-Succeeds _ _ _) (
        Succeeds-bind _ _ _ _ (setup_with-Succeeds _ _ _)
          (Succeeds-bind _ _ _ _ (setup_with-Succeeds _ _ _) Succeeds-pure)))

  -- A setup that returns no error found none of the agent's four chains, has made them with their
  -- rules, has put the two jumps behind the rules of INPUT and of FORWARD unless they were there, and
  -- has changed no other chain.
  pub setup_lem :
      (w : Host)
      → (setup_default_security_group client w).0 ≡ ok tt
      → IsSetUp (view w) (view (setup_default_security_group client w).1)
  setup_lem w h = effect-IsSetUp (view w) _ (setup-Succeeds.at w h)
