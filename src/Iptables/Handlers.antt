-- ===== src/Iptables/Handlers.antt =====
-- iptables.go: the gRPC handlers.
use teleskop.Api.Requests.{AddSecurityGroupRequest}
use teleskop.Common.{⊤, Option, none, some, List, ℕ}
use teleskop.Go.Action.{Action, pure, lift, wrap_error, ◌>>=◌, ◌>>◌}
use teleskop.Go.Error.{Outcome, ok, err, or_else, internal, invalid_argument, status, status_text}
use teleskop.Go.Net.{Net}
use teleskop.Iptables.Client.{IpTables}
use teleskop.Iptables.Rules.{Link}
use teleskop.Iptables.Setup.{setup_default_security_group}
use teleskop.Iptables.Add.{add_security_group}

-- A nil result of ParseIP.
unfoldable pub required : Option (List ℕ) → Outcome (List ℕ)
required none = err (status_text invalid_argument "failed to parse request IP address: %s")
required (some ip) = ok ip

module _ (client : IpTables) where
  open client use {Host}

  unfoldable pub new_client : Action Host ⊤
  new_client = wrap_error client.new (status internal "failed to create iptables client: %+v")

  unfoldable pub get_ip_tables : Action Host ⊤
  get_ip_tables = pure tt

  unfoldable pub setup_default_security_group_handler : Action Host ⊤
  setup_default_security_group_handler = do new_client; setup_default_security_group client; pure tt

  module _ (net : Net) where
    unfoldable pub add_security_group_handler : AddSecurityGroupRequest → Action Host ⊤
    add_security_group_handler req = do
      new_client
      ip_addr ← lift (required (net.parse_ip req.ip_address))
      mac_addr ← lift (
          or_else (net.parse_mac req.mac_address)
            (status invalid_argument "failed to parse request MAC address: %+v"))
      let intf : Link = record {
        name = req.interface;
        ip_address = ip_addr;
        mac_address = mac_addr;
      }
      wrap_error (add_security_group client net intf)
          (status internal "failed to add security group: %+v")
      pure tt
