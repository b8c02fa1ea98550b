-- ===== src/Agent/Started.antt =====
-- The agent when its servers start.
use mathlib.Core.Path.{subst}
use teleskop.Agent.Opened.{IsTold, setup_step}
use teleskop.Agent.Registered
use teleskop.Agent.Registered.{Registration}
use teleskop.Agent.Run.{Daemon, open_connections, run}
use teleskop.Agent.Service.{Services}
use teleskop.Agent.Setup.{Datastore, is_valid_link_name, setup}
use teleskop.Common.{
  ◌∙◌, ap, ℕ, ⊤, ◌≡◌, ◌≢◌, ◌⊎◌, inl, inr, refl, Bool, true, false, List, [], ◌∷◌, not,
  if◌then◌else◌,
}
use teleskop.Cpu.Host.{Files}
use teleskop.Dhcp.Packet.{Constants, Wire}
use teleskop.Dhcp.Server.{listen_and_serve}
use teleskop.Go.Action.{Action, raise, ◌>>=◌, ◌>>◌}
use teleskop.Go.Assoc.{bind_assoc}
use teleskop.Go.Error.{Outcome, ok, err, panic, plain}
use teleskop.Go.Keeps.{Keeps, Keeps-bind, Keeps-wrap}
use teleskop.Go.Text.{Text, codes}
use teleskop.Go.Triple.{Triple, Triple-from}

-- The datastore is told nothing by what the agent opens.
pub record IsSilent {Host V : Type 0} (daemon : Daemon Host) (registered : Host → V) : Type 0 where
  pub init_logger : Keeps registered daemon.init_logger
  pub dial_libvirt : (address : Text) → Keeps registered (daemon.dial_libvirt address)
  pub connect_libvirt : Keeps registered daemon.connect_libvirt
  pub lib_version : Keeps registered daemon.lib_version
  pub listen : (address : Text) → Keeps registered (daemon.listen address)
  pub dial_satelit : (endpoint : Text) → Keeps registered (daemon.dial_satelit endpoint)

module _ (s : Services) (datastore : Datastore s.iptables.Host) (files : Files)
    (constants : Constants) (wire : Wire s.iptables.Host) (daemon : Daemon s.iptables.Host) where
  -- What an errgroup does with its goroutines.
  abbrev pub Group : Type 0
  Group = List (Action s.iptables.Host ⊤) → Action s.iptables.Host ⊤

  -- What run serves with: the group, the servers of gRPC and of metadata, and the connection of the DHCP
  -- server.
  pub record Frontend : Type 0 where
    pub group : Group
    pub agent : Action s.iptables.Host ⊤
    pub metadata : Text → Action s.iptables.Host ⊤
    pub conn : Wire s.iptables.Host

  abbrev run_with : Frontend → ℕ → Text → Text → Action s.iptables.Host ⊤
  run_with v =
      run s datastore files constants v.conn
        (record daemon { group = v.group; serve_agent = v.agent; serve_metadata = v.metadata })

  -- The group with the three servers.
  abbrev start_servers : Frontend → ℕ → Action s.iptables.Host ⊤
  start_servers v rounds = v.group (
      v.agent
      ∷ listen_and_serve s.net constants v.conn rounds
      ∷ v.metadata (codes "0.0.0.0:80")
      ∷ [])

  abbrev opening_if : Text → Text → Bool → Action s.iptables.Host ⊤
  opening_if endpoint interface valid =
      if not valid
      then raise (plain "invalid interface name: intf=%s")
      else open_connections s datastore files constants wire daemon endpoint
        >> setup s datastore files interface

  abbrev opening : Text → Text → Action s.iptables.Host ⊤
  opening endpoint interface = s.netlink.link_list >>= λ links.
      opening_if endpoint interface (is_valid_link_name s.netlink links interface)

  branch_step :
      (v : Frontend) (rounds : ℕ) (endpoint interface : Text) (valid : Bool)
      → (if not valid
          then raise (plain "invalid interface name: intf=%s")
          else open_connections s datastore files constants v.conn
              (record daemon {
                group = v.group;
                serve_agent = v.agent;
                serve_metadata = v.metadata;
              })
              endpoint
            >> (setup s datastore files interface >> start_servers v rounds))
        ≡ (opening_if endpoint interface valid >> start_servers v rounds)
  unfolding open_connections
  branch_step v rounds endpoint interface false = refl
  branch_step v rounds endpoint interface true =
      bind_assoc (open_connections s datastore files constants wire daemon endpoint)
        (λ _. setup s datastore files interface) (start_servers v rounds)

  run_in_two :
      (v : Frontend) (rounds : ℕ) (endpoint interface : Text)
      → run_with v rounds endpoint interface
        ≡ (opening endpoint interface >> start_servers v rounds)
  unfolding run
  run_in_two v rounds endpoint interface =
      (λ i. s.netlink.link_list >>= λ links.
      branch_step v rounds endpoint interface (is_valid_link_name s.netlink links interface) i)
      ∙ bind_assoc s.netlink.link_list _ (start_servers v rounds)

  -- Whatever run serves with, it ends with the same error or panic, at the same host.
  pub record IsRefused (rounds : ℕ) (endpoint interface : Text) (w : s.iptables.Host) : Type 0 where
    pub outcome : Outcome ⊤
    pub host : s.iptables.Host
    pub fails : outcome ≢ ok tt
    pub ends : (v : Frontend) → run_with v rounds endpoint interface w ≡ (outcome, host)

  module _ (registered : s.iptables.Host → List Registration)
      (laws : Registered.IsLawful s datastore registered) where
    -- The interface is one that LinkList returned, and the datastore was told of the agent.
    pub record IsOpened (endpoint interface : Text) (w u : s.iptables.Host) : Type 0 where
      pub links : List s.netlink.Link
      pub listed : (s.netlink.link_list w).0 ≡ ok links
      pub valid : is_valid_link_name s.netlink links interface ≡ true
      pub told :
          IsTold s datastore files registered laws interface
            (open_connections s datastore files constants wire daemon endpoint
              (s.netlink.link_list w).1).1
            (registered w)
            (registered u)

    -- Whatever run serves with, it ends as the group with the three servers does from one host on.
    pub record IsStarted (rounds : ℕ) (endpoint interface : Text) (w : s.iptables.Host)
        : Type 0 where
      pub host : s.iptables.Host
      pub opened : IsOpened endpoint interface w host
      pub ends :
          (v : Frontend) → run_with v rounds endpoint interface w ≡ start_servers v rounds host

    module _ (listing : Keeps registered s.netlink.link_list)
        (silent : IsSilent daemon registered) where
      open_connections-Keeps :
          (endpoint : Text)
          → Keeps registered (open_connections s datastore files constants wire daemon endpoint)
      unfolding open_connections
      open_connections-Keeps endpoint = Keeps-bind _ _ (Keeps-wrap _ _ silent.init_logger) λ _.
          Keeps-bind _ _ (Keeps-wrap _ _ (silent.dial_libvirt _)) λ _.
            Keeps-bind _ _ (Keeps-wrap _ _ silent.connect_libvirt) λ _.
              Keeps-bind _ _ (Keeps-wrap _ _ silent.lib_version) λ _.
                Keeps-bind _ _ (Keeps-wrap _ _ (silent.listen _))
                  λ _. Keeps-wrap _ _ (silent.dial_satelit _)

      checked_step :
          (endpoint interface : Text) (w : s.iptables.Host) (links : List s.netlink.Link)
          (valid : Bool)
          → (s.netlink.link_list w).0 ≡ ok links
          → is_valid_link_name s.netlink links interface ≡ valid
          → Triple
              (λ v. v ≡ (s.netlink.link_list w).1)
              (opening_if endpoint interface valid)
              (λ _ u. IsOpened endpoint interface w u)
      checked_step endpoint interface w links false listed e = record { at = λ v a p h. cc }
      checked_step endpoint interface w links true listed e =
          Triple-from _ (open_connections s datastore files constants wire daemon endpoint) _ _
            λ _ _. record {
              at = λ v a p h. record {
                links = links;
                listed = listed;
                valid = e;
                told =
                    subst
                      (λ old.
                        IsTold s datastore files registered laws interface
                          (open_connections s datastore files constants wire daemon endpoint
                            (s.netlink.link_list w).1).1
                          old (registered (setup s datastore files interface v).1))
                      ((open_connections-Keeps endpoint).at _ ∙ listing.at w)
                      ((setup_step s datastore files registered laws interface _).at v a p h);
              };
            }

      opening_step :
          (endpoint interface : Text) (w : s.iptables.Host)
          → Triple
              (λ v. v ≡ w)
              (opening endpoint interface)
              (λ _ u. IsOpened endpoint interface w u)
      opening_step endpoint interface w =
          Triple-from w s.netlink.link_list _ _
            λ links listed. checked_step endpoint interface w links _ listed refl

      ends_step :
          (rounds : ℕ) (endpoint interface : Text) (w u : s.iptables.Host) (o : Outcome ⊤)
          → opening endpoint interface w ≡ (o, u)
          → ((a : ⊤) → o ≡ ok a → IsOpened endpoint interface w u)
          → IsRefused rounds endpoint interface w ⊎ IsStarted rounds endpoint interface w
      ends_step rounds endpoint interface w u (ok tt) e h = inr (record {
        host = u;
        opened = h tt refl;
        ends = λ v. ap (λ m. m w) (run_in_two v rounds endpoint interface) ∙ rw e refl;
      })
      ends_step rounds endpoint interface w u (err x) e h = inl (record {
        outcome = err x;
        host = u;
        fails = λ q. cc;
        ends = λ v. ap (λ m. m w) (run_in_two v rounds endpoint interface) ∙ rw e refl;
      })
      ends_step rounds endpoint interface w u panic e h = inl (record {
        outcome = panic;
        host = u;
        fails = λ q. cc;
        ends = λ v. ap (λ m. m w) (run_in_two v rounds endpoint interface) ∙ rw e refl;
      })

      -- Either run ends with an error or a panic that depends neither on the group nor on the servers: none of
      -- them starts. Or its last call is the group of the three servers, and before it LinkList returned the
      -- interface among the host's, and the datastore was told of the agent, once: with port 5000 of the IPv4
      -- address that comes first in what AddrList returned for the interface, and with the host's nodes. The
      -- datastore is lawful, and no other call tells it anything.
      pub run_lem :
          (rounds : ℕ) (endpoint interface : Text) (w : s.iptables.Host)
          → IsRefused rounds endpoint interface w ⊎ IsStarted rounds endpoint interface w
      run_lem rounds endpoint interface w =
          ends_step rounds endpoint interface w _ _ refl
            λ a h. (opening_step endpoint interface w).at w a refl h
