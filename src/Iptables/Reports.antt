-- ===== src/Iptables/Reports.antt =====
-- The errors of the security group handlers, by their gRPC codes.
use teleskop.Api.Requests.{AddSecurityGroupRequest}
use teleskop.Common.{ℕ, ⊤, Option, none, some, List, [], ◌∷◌, All}
use teleskop.Go.Action.{Action, lift}
use teleskop.Go.Error.{code_of}
use teleskop.Go.Net.{Net}
use teleskop.Go.Reports.{Reports, Reports-bind, reporting}
use teleskop.Go.Reports.Pure.{reporting_pure}
use teleskop.Go.Text.{Text}
use teleskop.Iptables.Client.{IpTables, Rule}
use teleskop.Iptables.Handlers.{
  required, new_client, setup_default_security_group_handler, add_security_group_handler,
  get_ip_tables,
}
use teleskop.Iptables.Setup.{
  setup_chain, setup_with, run_all, setup_functions, setup_default_security_group,
  setup_sg_fallback_chain, setup_sg_chain, setup_input, setup_forward,
}

module _ (client : IpTables) where
  run_all-Reports :
      (fns : List (Action client.Host ⊤)) → All Reports fns → Reports (run_all client fns)
  unfolding run_all
  run_all-Reports [] all = search reporting
  run_all-Reports (fn ∷ fns) (h, all) = Reports-bind _ _ h λ _. run_all-Reports fns all

  setup_with-Reports :
      (name target : Text) (rule : Rule) → Reports (setup_with client name target rule)
  unfolding setup_with setup_chain
  setup_with-Reports name target rule = search reporting

  setup-Reports : Reports (setup_default_security_group client)
  unfolding setup_default_security_group setup_sg_fallback_chain setup_sg_chain setup_input
      setup_forward
  setup-Reports = run_all-Reports (setup_functions client) (
    setup_with-Reports _ _ _,
    (setup_with-Reports _ _ _, (setup_with-Reports _ _ _, (setup_with-Reports _ _ _, tt))),
  )

  pub get_ip_tables-Reports : Reports (get_ip_tables client)
  unfolding get_ip_tables
  get_ip_tables-Reports = search reporting

  pub setup_default_security_group_handler-Reports :
      Reports (setup_default_security_group_handler client)
  unfolding setup_default_security_group_handler new_client
  setup_default_security_group_handler-Reports = search (reporting, setup-Reports)

  required-Reports : (ip : Option (List ℕ)) → Reports {W = client.Host} (lift (required ip))
  unfolding required code_of
  required-Reports none = search (reporting, reporting_pure)
  required-Reports (some ip) = search reporting

  pub add_security_group_handler-Reports :
      (net : Net) (req : AddSecurityGroupRequest)
      → Reports (add_security_group_handler client net req)
  unfolding add_security_group_handler new_client
  add_security_group_handler-Reports net req = search (reporting, required-Reports) depth 12
