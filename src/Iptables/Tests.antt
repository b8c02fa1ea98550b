-- ===== src/Iptables/Tests.antt =====
-- Runs over the client in memory, and the theorems at concrete chains.
use teleskop.Common.{
  ◌≡◌, ◌≢◌, refl, none, some, [], ◌∷◌, ◌++◌, arith, eq_bytes, if◌then◌else◌, length, take, ◌-◌,
}
use teleskop.Go.Error.{Error, external, status, internal, ok, err}
use teleskop.Go.Net.{Net}
use teleskop.Go.Text.{Text, codes}
use teleskop.Iptables.Client.{
  View, put, eq_rule, holds_rule, insert_at, after_new_chain, after_append_unique, after_insert,
  after_clear_chain, after_delete_chain,
}
use teleskop.Iptables.Chain.{
  table_filter, get_valid_chain_name, chain_callisto_sg, chain_callisto_input,
  chain_callisto_forward,
}
use teleskop.Iptables.Chain.Names.{
  get_valid_chain_name_lem, get_valid_chain_name_injective, get_valid_chain_name_apart,
}
use teleskop.Iptables.Memory.{Memory, perform, memory_client, memory_client-IsLawful}
use teleskop.Iptables.Rules.{
  Link, get_input_chain_name, get_output_chain_name, get_source_chain_name, source_rules,
  input_sg_rules, output_sg_rules, sg_rules, input_rules, forward_rules, jump, action_accept,
}
use teleskop.Iptables.Add.{
  new_chain_with, insert_from, insert_rules, ignore, abandon, add_source_sg_rules,
  add_output_sg_rules, add_input_sg_rules, add_sg_rules, add_input_rules, add_forward_rules,
  add_security_group,
}
use teleskop.Iptables.Add.Failure.{IsLost, Shared, add_shared-IsLost}
use teleskop.Iptables.Add.Group.{IsReady, IsAdded, add_security_group_lem}
use teleskop.Iptables.Setup.{
  setup_chain, setup_with, setup_sg_fallback_chain, setup_sg_chain, setup_input, setup_forward,
  run_all, setup_default_security_group,
}
use teleskop.Iptables.Setup.Effect.{IsSetUp, setup_lem}
use teleskop.Iptables.Setup.Twice.{FailsInternal, setup_twice}

-- INPUT and FORWARD are there, as on every host.
abbrev built_in : View
built_in k =
    if eq_bytes k (codes "INPUT")
    then some []
    else if eq_bytes k (codes "FORWARD")
    then some []
    else none

abbrev pub fresh : Memory
fresh = record { chains = built_in; room = 100 }

setup_fresh : (setup_default_security_group memory_client fresh).0 ≡ ok tt
unfolding setup_default_security_group run_all setup_sg_fallback_chain setup_sg_chain setup_input
    setup_forward setup_with setup_chain perform after_new_chain after_append_unique put codes
    eq_bytes holds_rule eq_rule
setup_fresh = refl

get_valid_chain_name_injective_example : codes "tap001" ≡ codes "tap001"
get_valid_chain_name_injective_example =
    get_valid_chain_name_injective (codes "callisto-i") (codes "tap001") (codes "tap001")
      (unfold codes in omega arith) (unfold codes in omega arith) refl

get_valid_chain_name_apart_example :
    get_valid_chain_name (codes "callisto-i") (codes "tap001")
    ≢ get_valid_chain_name (codes "callisto-s") (codes "tap001")
get_valid_chain_name_apart_example =
    get_valid_chain_name_apart (codes "callisto-i") (codes "callisto-s") (codes "tap001")
      (codes "tap001") (unfold codes in refl) (unfold codes in omega arith)
      (unfold codes in λ e. ground arith)

get_valid_chain_name_lem_example :
    get_valid_chain_name (codes "callisto-s") (codes "tap-of-a-long-name001")
    ≡ codes "callisto-s" ++ take (29 - length (codes "callisto-s")) (codes "tap-of-a-long-name001")
get_valid_chain_name_lem_example =
    get_valid_chain_name_lem (codes "callisto-s") (codes "tap-of-a-long-name001")
      (unfold codes in omega arith)

abbrev after_setup : Memory
after_setup = (setup_default_security_group memory_client fresh).1

setup_lem_example : IsSetUp fresh.chains after_setup.chains
setup_lem_example = setup_lem memory_client (memory_client-IsLawful table_filter) fresh setup_fresh

setup_twice_example :
    FailsInternal memory_client
      (memory_client-IsLawful table_filter)
      after_setup.chains
      (setup_default_security_group memory_client after_setup)
setup_twice_example =
    setup_twice memory_client (memory_client-IsLawful table_filter) fresh after_setup setup_fresh
      refl

-- Addresses print as themselves.
abbrev pub net : Net
net = record {
  parse_ip = λ s. some s;
  ip_string = λ ip. ip;
  parse_mac = λ s. ok s;
  mac_string = λ mac. mac;
  parse_cidr = λ s. err (external "invalid CIDR address");
  mask_size = λ mask. 0;
}

abbrev tap : Link
tap = record {
  name = codes "tap001";
  ip_address = codes "10.192.0.100";
  mac_address = codes "ca:61:85:97:93:e2";
}

abbrev ready_chains : View
ready_chains k =
    if eq_bytes k chain_callisto_sg
    then some (jump action_accept ∷ [])
    else if eq_bytes k chain_callisto_input
    then some []
    else if eq_bytes k chain_callisto_forward
    then some []
    else none

abbrev ready : Memory
ready = record { chains = ready_chains; room = 100 }

ready-IsReady : IsReady ready_chains
unfolding codes eq_bytes
ready-IsReady = record {
  sg = jump action_accept ∷ [];
  sg_found = refl;
  input = [];
  input_found = refl;
  forward = [];
  forward_found = refl;
}

add_ready : (add_security_group memory_client net tap ready).0 ≡ ok tt
unfolding add_security_group run_all add_source_sg_rules add_output_sg_rules add_input_sg_rules
    add_sg_rules add_input_rules add_forward_rules new_chain_with insert_rules insert_from
    setup_chain perform after_new_chain after_insert insert_at put codes eq_bytes
    get_source_chain_name get_output_chain_name get_input_chain_name get_valid_chain_name
    source_rules output_sg_rules input_sg_rules sg_rules input_rules forward_rules
add_ready = refl

add_security_group_lem_example :
    IsAdded net tap ready_chains
      (add_security_group memory_client net tap ready).1.chains
      ready-IsReady
add_security_group_lem_example =
    add_security_group_lem memory_client (memory_client-IsLawful table_filter) net tap ready
      ready-IsReady add_ready

-- Two rules for one interface, and room for the first one only.
abbrev full : Memory
full = record ready { room = 1 }

clears : (chain : Text) (w : Memory) → (memory_client.clear_chain table_filter chain w).0 ≡ ok tt
unfolding perform after_clear_chain
clears chain w = refl

no_room : Error
no_room = status internal "failed to append new %s rule: %+v" (external "iptables: no room")

full_fails : (add_sg_rules memory_client tap full).0 ≡ err no_room
unfolding no_room add_sg_rules insert_rules insert_from abandon ignore perform after_insert
    after_clear_chain after_delete_chain insert_at put codes eq_bytes sg_rules
full_fails = refl

add_shared-IsLost_example :
    IsLost chain_callisto_sg ready_chains (add_sg_rules memory_client tap full).1.chains
add_shared-IsLost_example =
    add_shared-IsLost memory_client (memory_client-IsLawful table_filter) Shared.sg tap full no_room
      clears full_fails
