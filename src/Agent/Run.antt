-- ===== src/Agent/Run.antt =====
-- main.go, run: what the agent opens, and the servers that it starts.
use teleskop.Agent.Service.{Services}
use teleskop.Agent.Setup.{Datastore, is_valid_link_name, setup}
use teleskop.Common.{ℕ, ⊤, List, [], ◌∷◌, not, if◌then◌else◌}
use teleskop.Cpu.Host.{Files}
use teleskop.Dhcp.Packet.{Constants, Wire}
use teleskop.Dhcp.Server.{listen_and_serve}
use teleskop.Go.Action.{Action, raise, wrap_error, ◌>>=◌, ◌>>◌}
use teleskop.Go.Error.{plain, wrapped}
use teleskop.Go.Text.{Text, codes}

-- The calls of zap, net, go-libvirt and grpc. The clients that they make are those of `Services`, of the
-- datastore and of the DHCP server.
pub record Daemon (Host : Type 0) : Type 0 where
  -- initLogger, which only builds a configuration.
  pub init_logger : Action Host ⊤
  pub dial_libvirt : Text → Action Host ⊤
  pub connect_libvirt : Action Host ⊤
  pub lib_version : Action Host ℕ
  pub listen : Text → Action Host ⊤
  pub dial_satelit : Text → Action Host ⊤
  -- Serve of the gRPC server, and that of the metadata server by its address.
  pub serve_agent : Action Host ⊤
  pub serve_metadata : Text → Action Host ⊤
  -- The goroutines of an errgroup, and Wait, which returns the first error.
  pub group : List (Action Host ⊤) → Action Host ⊤

module _ (s : Services) (datastore : Datastore s.iptables.Host) (files : Files)
    (constants : Constants) (wire : Wire s.iptables.Host) (daemon : Daemon s.iptables.Host) where
  -- Behind the test on the name of the interface.
  unfoldable pub open_connections : Text → Action s.iptables.Host ⊤
  open_connections satelit_endpoint = do
    wrap_error daemon.init_logger (wrapped "failed to init logger: %w")
    wrap_error (daemon.dial_libvirt (codes "127.0.0.1:16509"))
        (wrapped "failed to dial to libvirtd: %w")
    wrap_error daemon.connect_libvirt (wrapped "failed to connect to libvirtd: %w")
    libvirt_version ← wrap_error daemon.lib_version (wrapped "failed to get libvirtd versoin: %w")
    wrap_error (daemon.listen (codes ":5000")) (wrapped "failed to listen address: %w")
    wrap_error (daemon.dial_satelit satelit_endpoint)
        (wrapped "failed to dial to satelit datastore api: %w")

  -- The interceptors of the gRPC server, which log, are left out. The DHCP server is watched for a number of
  -- packets. An error of Wait is logged and returned.
  unfoldable pub run : ℕ → Text → Text → Action s.iptables.Host ⊤
  run rounds satelit_endpoint teleskop_interface = do
    links ← s.netlink.link_list
    if not (is_valid_link_name s.netlink links teleskop_interface)
        then raise (plain "invalid interface name: intf=%s")
        else (do
          open_connections satelit_endpoint
          setup s datastore files teleskop_interface
          daemon.group (
              daemon.serve_agent
              ∷ listen_and_serve s.net constants wire rounds
              ∷ daemon.serve_metadata (codes "0.0.0.0:80")
              ∷ []))
