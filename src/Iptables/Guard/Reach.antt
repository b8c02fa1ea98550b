-- ===== src/Iptables/Guard/Reach.antt =====
-- The filter table over any sequence of calls of the security group service, with whatever else happens
-- on the host in between.
use teleskop.Api.Requests.{AddSecurityGroupRequest}
use teleskop.Go.Moves.{Moves}
use teleskop.Go.Net.{Net}
use teleskop.Iptables.Chain.{table_filter}
use teleskop.Iptables.Client.{IpTables, IsLawful}
use teleskop.Iptables.Guard.{IsGuarded}
use teleskop.Iptables.Guard.Calls.{Guarded, order}
use teleskop.Iptables.Guard.Moves.{
  setup_default_security_group_handler-Moves, add_security_group_handler-Moves,
}
use teleskop.Iptables.Handlers.{
  get_ip_tables, setup_default_security_group_handler, add_security_group_handler,
}

module _ (client : IpTables) (laws : IsLawful client table_filter) (net : Net) where
  open client use {Host}

  -- One step: a call, however it ends, or a change that others make within the guard.
  pub data Step (w : Host) : Host → Type 0 where
    setup_call : Step w (setup_default_security_group_handler client w).1
    add_call :
        (req : AddSecurityGroupRequest) → Step w (add_security_group_handler client net req w).1
    get_call : Step w (get_ip_tables client w).1
    others : (w' : Host) → Guarded client laws w w' → Step w w'

  pub data Reach (w : Host) : Host → Type 0 where
    here : Reach w w
    next : {u v : Host} → Reach w u → Step u v → Reach w v

  module _ (opens : Moves (Guarded client laws) client.new) where
    Step-Guarded : {w w' : Host} → Step w w' → Guarded client laws w w'
    unfolding get_ip_tables
    Step-Guarded {w} setup_call =
        (setup_default_security_group_handler-Moves client laws opens).at w
    Step-Guarded {w} (add_call req) =
        (add_security_group_handler-Moves client laws opens net req).at w
    Step-Guarded {w} get_call = (order client laws).stay w
    Step-Guarded (others w' h) = h

    -- Whatever calls the security group service serves, failed ones with their cleaning up included, and
    -- whatever others do that leave them so: chains whose names do not begin with callisto- are as before,
    -- but for INPUT and FORWARD, which have their old rules and at most new ones behind them.
    pub Reach-IsGuarded : {w w' : Host} → Reach w w' → IsGuarded (laws.view w) (laws.view w')
    Reach-IsGuarded {w} here = (order client laws).stay w
    Reach-IsGuarded {w} (next {u} {v} r st) =
        (order client laws).go_on w u v (Reach-IsGuarded r) (Step-Guarded st)
