-- ===== src/Iptables/Add/Group.antt =====
-- The chains after addSecurityGroup has returned no error.
use mathlib.Core.Option.{some-injective}
use mathlib.Core.Path.{subst}
use teleskop.Common.{
  ◌≡◌, All, refl, ap, ◌∙◌, sym, false, Option, none, some, List, [], ◌∷◌, ◌++◌, eq_bytes,
  eq_bytes_iff, Bool-cases, Option-cases, inl, inr,
}
use teleskop.Go.Error.{ok}
use teleskop.Go.Net.{Net}
use teleskop.Go.Text.{Text, codes}
use teleskop.Iptables.Client.{IpTables, IsLawful, Rule, View, after_new_chain}
use teleskop.Iptables.Chain.{
  table_filter, chain_callisto_sg, chain_callisto_input, chain_callisto_forward,
}
use teleskop.Iptables.Effect.{
  ◌then_effect◌, bind_effect-some, Succeeds, Succeeds-pure, Succeeds-bind,
}
use teleskop.Iptables.Rules.{
  Link, get_input_chain_name, get_output_chain_name, get_source_chain_name, source_rules,
  input_sg_rules, output_sg_rules, sg_rules, input_rules, forward_rules,
}
use teleskop.Iptables.Setup.{run_all}
use teleskop.Iptables.Add.{
  add_source_sg_rules, add_output_sg_rules, add_input_sg_rules, add_sg_rules, add_input_rules,
  add_forward_rules, add_security_group,
}
use teleskop.Iptables.Add.Effect.{
  IsPrepended, IsNew, insert_effect, insert_effect-IsPrepended, then_effect-IsNew,
  insert_rules-Succeeds, new_chain_with-Succeeds,
}

abbrev new_effect : Text → List Rule → View → Option View
new_effect chain rules = after_new_chain chain then_effect insert_effect chain 1 rules

-- The chains that the setup makes are there.
pub record IsReady (v : View) : Type 0 where
  pub sg : List Rule
  pub sg_found : v chain_callisto_sg ≡ some sg
  pub input : List Rule
  pub input_found : v chain_callisto_input ≡ some input
  pub forward : List Rule
  pub forward_found : v chain_callisto_forward ≡ some forward

-- A chain that is there and one that is not have different names.
apart_of_present :
    (v : View) (k name : Text) {rules : List Rule}
    → v k ≡ some rules
    → v name ≡ none
    → eq_bytes k name ≡ false
apart_of_present v k name found absent = elim (Bool-cases (eq_bytes k name)) [
  | inr differ ↦ differ
  | inl same ↦ cc (found, absent, ap v ((eq_bytes_iff k name).0 same))
]

eq_bytes_flip : (k name : Text) → eq_bytes k name ≡ false → eq_bytes name k ≡ false
eq_bytes_flip k name differ = elim (Bool-cases (eq_bytes name k)) [
  | inr other ↦ other
  | inl same ↦ cc (differ, (eq_bytes_iff k name).1 (sym ((eq_bytes_iff name k).0 same)))
]

-- A chain that was there outlives the making of another.
keep :
    {name : Text} {rules : List Rule} {v v' : View} (k : Text) {old : List Rule}
    → IsNew name rules v v'
    → v k ≡ some old
    → v' k ≡ some old
keep {name} {v} k new found = new.rest k (apart_of_present v k name found new.absent) ∙ found

-- A chain that is missing after the making of another was missing before.
absent_before :
    {name : Text} {rules : List Rule} {v v' : View} (k : Text)
    → IsNew name rules v v'
    → v' k ≡ none
    → v k ≡ none
absent_before {v} k new absent = elim (Option-cases (v k)) [
  | inl missing ↦ missing
  | inr (old, found) ↦ cc (absent, keep k new found)
]

-- What addSecurityGroup leaves of the chains `v`.
pub record IsAdded (net : Net) (intf : Link) (v v' : View) (ready : IsReady v) : Type 0 where
  pub absent :
      All
        (λ name. v name ≡ none)
        (get_source_chain_name intf ∷ get_output_chain_name intf ∷ get_input_chain_name intf ∷ [])
  pub source :
      v' (get_source_chain_name intf)
      ≡ some (source_rules (net.ip_string intf.ip_address) (net.mac_string intf.mac_address))
  pub output : v' (get_output_chain_name intf) ≡ some (output_sg_rules intf)
  pub input : v' (get_input_chain_name intf) ≡ some input_sg_rules
  pub sg : v' chain_callisto_sg ≡ some (sg_rules intf ++ ready.sg)
  pub forward :
      v' chain_callisto_forward ≡ some (forward_rules intf ++ (input_rules intf ++ ready.forward))
  pub callisto_input : v' chain_callisto_input ≡ some ready.input
  pub rest :
      (k : Text)
      → All
          (λ name. eq_bytes k name ≡ false)
          (get_source_chain_name intf
            ∷ get_output_chain_name intf
            ∷ get_input_chain_name intf
            ∷ chain_callisto_sg
            ∷ chain_callisto_forward
            ∷ [])
      → v' k ≡ v k

module _ (net : Net) (intf : Link) (v v1 v2 v3 v4 v5 v6 : View) (ready : IsReady v)
    (a : IsNew
      (get_source_chain_name intf)
      (source_rules (net.ip_string intf.ip_address) (net.mac_string intf.mac_address))
      v
      v1)
    (b : IsNew (get_output_chain_name intf) (output_sg_rules intf) v1 v2)
    (c : IsNew (get_input_chain_name intf) input_sg_rules v2 v3)
    (d : IsPrepended chain_callisto_sg (sg_rules intf) v3 v4)
    (e : IsPrepended chain_callisto_forward (input_rules intf) v4 v5)
    (f : IsPrepended chain_callisto_forward (forward_rules intf) v5 v6) where
  -- A chain that was there keeps its rules through the three new chains.
  kept : (k : Text) {old : List Rule} → v k ≡ some old → v3 k ≡ some old
  kept k found = keep k c (keep k b (keep k a found))

  -- Through the last three calls, a chain other than the shared ones keeps its rules.
  passed :
      (k : Text)
      → eq_bytes k chain_callisto_sg ≡ false
      → eq_bytes k chain_callisto_forward ≡ false
      → v6 k ≡ v3 k
  passed k n m = f.rest k m ∙ (e.rest k m ∙ d.rest k n)

  no_output : v (get_output_chain_name intf) ≡ none
  no_output = absent_before _ a b.absent

  no_input : v (get_input_chain_name intf) ≡ none
  no_input = absent_before _ a (absent_before _ b c.absent)

  -- The interface's own chains are none of the shared ones.
  own : (name : Text) → v name ≡ none → v6 name ≡ v3 name
  own name absent =
      passed name (eq_bytes_flip _ name (apart_of_present v _ name ready.sg_found absent))
        (eq_bytes_flip _ name (apart_of_present v _ name ready.forward_found absent))

  sg_rules_lem : v6 chain_callisto_sg ≡ some (sg_rules intf ++ ready.sg)
  unfolding codes eq_bytes
  sg_rules_lem =
      f.rest chain_callisto_sg refl
      ∙ (e.rest chain_callisto_sg refl
          ∙ (d.prepended
              ∙ ap (λ (old : List Rule). some (sg_rules intf ++ old))
                  (some-injective _ _ (sym d.found ∙ kept chain_callisto_sg ready.sg_found))))

  forward_rules_lem :
      v6 chain_callisto_forward ≡ some (forward_rules intf ++ (input_rules intf ++ ready.forward))
  unfolding codes eq_bytes
  forward_rules_lem =
      let before : e.old ≡ ready.forward = some-injective _ _ (
        sym e.found
        ∙ (d.rest chain_callisto_forward refl ∙ kept chain_callisto_forward ready.forward_found)) in
      let between : f.old ≡ input_rules intf ++ e.old =
        some-injective _ _ (sym f.found ∙ e.prepended) in
      f.prepended
      ∙ ap (λ (old : List Rule). some (forward_rules intf ++ old))
          (between ∙ ap (λ (old : List Rule). input_rules intf ++ old) before)

  added : IsAdded net intf v v6 ready
  unfolding codes eq_bytes
  added = record {
    absent = (a.absent, (no_output, (no_input, tt)));
    source = own _ a.absent ∙ keep _ c (keep _ b a.filled);
    output = own _ no_output ∙ keep _ c b.filled;
    input = own _ no_input ∙ c.filled;
    sg = sg_rules_lem;
    forward = forward_rules_lem;
    callisto_input = passed chain_callisto_input refl refl ∙ kept _ ready.input_found;
    rest = λ k ne.
        passed k ne.1.1.1.0 ne.1.1.1.1.0 ∙ (c.rest k ne.1.1.0 ∙ (b.rest k ne.1.0 ∙ a.rest k ne.0));
  }

-- The effect of the six calls, one after another.
group_effect : Net → Link → View → Option View
group_effect net intf =
    new_effect (get_source_chain_name intf)
      (source_rules (net.ip_string intf.ip_address) (net.mac_string intf.mac_address))
    then_effect new_effect (get_output_chain_name intf) (output_sg_rules intf)
    then_effect new_effect (get_input_chain_name intf) input_sg_rules
    then_effect insert_effect chain_callisto_sg 1 (sg_rules intf)
    then_effect insert_effect chain_callisto_forward 1 (input_rules intf)
    then_effect insert_effect chain_callisto_forward 1 (forward_rules intf)
    then_effect some

group_effect-IsAdded :
    (net : Net) (intf : Link) (v v' : View) (ready : IsReady v)
    → group_effect net intf v ≡ some v'
    → IsAdded net intf v v' ready
unfolding group_effect sg_rules input_rules forward_rules
group_effect-IsAdded net intf v v' ready h =
    let (v1, e1, h1) = bind_effect-some _ _ v' h in
    let (v2, e2, h2) = bind_effect-some _ _ v' h1 in
    let (v3, e3, h3) = bind_effect-some _ _ v' h2 in
    let (v4, e4, h4) = bind_effect-some _ _ v' h3 in
    let (v5, e5, h5) = bind_effect-some _ _ v' h4 in
    let (v6, e6, h6) = bind_effect-some _ some v' h5 in
    subst (λ (x : View). IsAdded net intf v x ready) (some-injective v6 v' h6)
      (added net intf v v1 v2 v3 v4 v5 v6 ready (then_effect-IsNew _ _ v v1 e1)
        (then_effect-IsNew _ _ v1 v2 e2) (then_effect-IsNew _ _ v2 v3 e3)
        (insert_effect-IsPrepended _ _ _ v3 v4 e4) (insert_effect-IsPrepended _ _ _ v4 v5 e5)
        (insert_effect-IsPrepended _ _ _ v5 v6 e6))

module _ (client : IpTables) (laws : IsLawful client table_filter) (net : Net) (intf : Link) where
  open client use {Host}
  open laws use {view}

  group-Succeeds : Succeeds view (add_security_group client net intf) (group_effect net intf)
  unfolding add_security_group run_all group_effect add_source_sg_rules add_output_sg_rules
      add_input_sg_rules add_sg_rules add_input_rules add_forward_rules
  group-Succeeds = Succeeds-bind _ _ _ _ (new_chain_with-Succeeds client laws _ _) (
      Succeeds-bind _ _ _ _ (new_chain_with-Succeeds client laws _ _) (
        Succeeds-bind _ _ _ _ (new_chain_with-Succeeds client laws _ _) (
          Succeeds-bind _ _ _ _ (insert_rules-Succeeds client laws _ _) (
            Succeeds-bind _ _ _ _ (insert_rules-Succeeds client laws _ _)
              (Succeeds-bind _ _ _ _ (insert_rules-Succeeds client laws _ _) Succeeds-pure)))))

  -- On a host where the setup's chains are there, an addSecurityGroup that returns no error found none
  -- of the interface's three chains and has made them with their rules, in order. The rules for the
  -- interface stand in front of the old ones in callisto-sg-chain and in callisto-FORWARD, which also
  -- has the rule of addINPUTRules; callisto-INPUT and all other chains are as before.
  pub add_security_group_lem :
      (w : Host) (ready : IsReady (view w))
      → (add_security_group client net intf w).0 ≡ ok tt
      → IsAdded net intf (view w) (view (add_security_group client net intf w).1) ready
  add_security_group_lem w ready h =
      group_effect-IsAdded net intf (view w) _ ready (group-Succeeds.at w h)
