-- ===== src/Iptables/Guard/Tests.antt =====
-- Two calls on a host with no other chains than the built-in ones.
use teleskop.Api.Requests.{AddSecurityGroupRequest}
use teleskop.Common.{refl}
use teleskop.Go.Moves.{Moves}
use teleskop.Go.Text.{codes}
use teleskop.Iptables.Chain.{table_filter}
use teleskop.Iptables.Guard.{IsGuarded, IsGuarded-same}
use teleskop.Iptables.Guard.Calls.{Guarded}
use teleskop.Iptables.Guard.Reach.{Step, Reach, Reach-IsGuarded}
use teleskop.Iptables.Handlers.{setup_default_security_group_handler, add_security_group_handler}
use teleskop.Iptables.Memory.{Memory, memory_client, memory_client-IsLawful}
use teleskop.Iptables.Tests.{fresh, net}

abbrev req : AddSecurityGroupRequest
req = record {
  interface = codes "tap001";
  ip_address = codes "10.192.0.100";
  mac_address = codes "ca:61:85:97:93:e2";
}

abbrev served : Memory
served =
    (add_security_group_handler memory_client net req
      (setup_default_security_group_handler memory_client fresh).1).1

two_calls : Reach memory_client (memory_client-IsLawful table_filter) net fresh served
two_calls = Reach.next (Reach.next Reach.here Step.setup_call) (Step.add_call req)

opens : Moves (Guarded memory_client (memory_client-IsLawful table_filter)) memory_client.new
opens = record { at = λ w. IsGuarded-same w.chains w.chains refl }

Reach-IsGuarded_example : IsGuarded fresh.chains served.chains
Reach-IsGuarded_example =
    Reach-IsGuarded memory_client (memory_client-IsLawful table_filter) net opens two_calls
