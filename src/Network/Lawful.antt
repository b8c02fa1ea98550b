-- ===== src/Network/Lawful.antt =====
-- What netlink is documented to do with the names of the interfaces.
use teleskop.Common.{ℕ, ◌≡◌, Bool, true}
use teleskop.Go.Error.{ok}
use teleskop.Go.Int.{ℤ}
use teleskop.Go.Keeps.{Keeps}
use teleskop.Go.Text.{Text}
use teleskop.Network.Netlink.{Netlink}

module _ {Host : Type 0} (netlink : Netlink Host) where
  open netlink use {Link, name}

  -- `there` tells whether an interface of a name is there.
  pub record IsLawful (there : Host → Text → Bool) : Type 0 where
    -- LinkByName returns an interface of that name, which is there.
    pub finds :
        (n : Text) (w : Host) (link : Link)
        → (netlink.link_by_name n w).0 ≡ ok link
        → there w n ≡ true
    pub finds_name :
        (n : Text) (w : Host) (link : Link) → (netlink.link_by_name n w).0 ≡ ok link → name link ≡ n
    pub lookup_keeps : (n : Text) → Keeps there (netlink.link_by_name n)
    -- LinkAdd adds an interface of the name that it is given.
    pub adds :
        (link : Link) (w : Host) (added : Link)
        → (netlink.link_add link w).0 ≡ ok added
        → there (netlink.link_add link w).1 (name link) ≡ true
    pub vlan_named : (n : Text) (index : ℤ) (id : ℕ) → name (netlink.new_vlan n index id) ≡ n
    pub set_up_keeps : (link : Link) → Keeps there (netlink.link_set_up link)
