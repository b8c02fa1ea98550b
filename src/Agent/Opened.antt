-- ===== src/Agent/Opened.antt =====
-- main.go, setup: the addresses that the agent reads, and what the datastore is told of them.
use teleskop.Agent.Registered
use teleskop.Agent.Registered.{Registration, IsRegistered, setup_at_step}
use teleskop.Agent.Service.{Services}
use teleskop.Agent.Setup.{Datastore, setup}
use teleskop.Common.{ap, ◌∙◌, ◌≡◌, List}
use teleskop.Cpu.Host.{Files}
use teleskop.Go.Error.{ok}
use teleskop.Go.Moves.{Moves-Keeps}
use teleskop.Go.Text.{Text}
use teleskop.Go.Triple.{Triple, Triple-from}

module _ (s : Services) where
  -- `addrs` are the addresses of the interface, as a setup that begins at the host `w` reads them.
  pub record IsRead (interface : Text) (w : s.iptables.Host) (addrs : List s.netlink.Addr)
      : Type 0 where
    pub link : s.netlink.Link
    pub found : (s.netlink.link_by_name interface (s.libvirt.hostname w).1).0 ≡ ok link
    pub read :
        (s.netlink.addr_list link (s.netlink.link_by_name interface (s.libvirt.hostname w).1).1).0
        ≡ ok addrs

module _ (s : Services) (datastore : Datastore s.iptables.Host) (files : Files)
    (registered : s.iptables.Host → List Registration)
    (laws : Registered.IsLawful s datastore registered) where
  -- The datastore was told of the agent with the addresses that were read.
  pub record IsTold (interface : Text) (w : s.iptables.Host) (old new : List Registration)
      : Type 0 where
    pub addrs : List s.netlink.Addr
    pub listed : IsRead s interface w addrs
    pub told : IsRegistered s datastore files registered laws addrs old new

  pub setup_step :
      (interface : Text) (w : s.iptables.Host)
      → Triple
          (λ v. v ≡ w)
          (setup s datastore files interface)
          (λ _ v. IsTold interface w (registered w) (registered v))
  unfolding setup
  setup_step interface w = Triple-from w s.libvirt.hostname _ _ λ hostname _.
      Triple-from _ (s.netlink.link_by_name interface) _ _ λ link found.
        Triple-from _ (s.netlink.addr_list link) _ _ λ addrs read. record {
          at = λ v a p h. record {
            addrs = addrs;
            listed = record { link = link; found = found; read = read };
            told =
                (setup_at_step s datastore files registered laws interface hostname addrs
                    (registered w)).at
                  v a
                  (ap registered p
                    ∙ (Moves-Keeps _ (laws.link.addr_list link)).at _
                    ∙ (Moves-Keeps _ (laws.link.link_by_name interface)).at _
                    ∙ laws.hostname.at w)
                  h;
          };
        }
