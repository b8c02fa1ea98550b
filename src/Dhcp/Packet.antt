-- ===== src/Dhcp/Packet.antt =====
-- The packets of go.universe.tf/netboot/dhcp4, the interface that one came in by, and the lease of the
-- datastore, as dhcp/dhcpd.go uses them.
use teleskop.Common.{ℕ, ⊤, Bool, Option, none, some, List, [], ◌++◌, ◌==◌, if◌then◌else◌}
use teleskop.Go.Action.{Action}
use teleskop.Go.Error.{Outcome}
use teleskop.Go.Text.{Text}

-- dhcp4.Options, a map from codes to bytes.
abbrev pub Options : Type 0
Options = ℕ → Option (List ℕ)

abbrev pub no_options : Options
no_options code = none

-- options[code] = bytes
unfoldable pub put_option : ℕ → List ℕ → Options → Options
put_option code bytes options k = if k == code then some bytes else options k

-- A nil slice has no bytes.
abbrev pub slice : Option (List ℕ) → List ℕ
slice none = []
slice (some bytes) = bytes

-- options[code] = append(options[code], bytes...)
unfoldable pub append_option : ℕ → List ℕ → Options → Options
append_option code bytes options = put_option code (slice (options code) ++ bytes) options

-- dhcp4.Packet.
pub record Packet : Type 0 where
  pub type : ℕ
  pub transaction_id : List ℕ
  pub broadcast : Bool
  pub hardware_addr : List ℕ
  pub your_addr : List ℕ
  pub server_addr : List ℕ
  pub relay_addr : List ℕ
  pub boot_server_name : Text
  pub options : Options

-- The constants of package dhcp4 that the server uses.
pub record Constants : Type 0 where
  pub msg_discover : ℕ
  pub msg_offer : ℕ
  pub msg_request : ℕ
  pub msg_ack : ℕ
  pub opt_subnet_mask : ℕ
  pub opt_server_identifier : ℕ
  pub opt_lease_time : ℕ
  pub opt_dns_servers : ℕ
  pub opt_routers : ℕ

-- net.Interface: its name and what Addrs returns, each address as its text.
pub record Interface : Type 0 where
  pub name : Text
  pub addrs : Outcome (List Text)

-- DHCPLease of the datastore.
pub record DhcpLease : Type 0 where
  pub ip : Text
  pub network : Text
  pub gateway : Text
  pub dns_server : Text
  pub metadata_server : Text

-- The connection of package dhcp4 and the datastore's client. The lease may be a nil pointer.
pub record Wire (Host : Type 0) : Type 0 where
  pub new_conn : Text → Action Host ⊤
  pub recv_dhcp : Action Host (Packet × Interface)
  pub send_dhcp : Packet → Interface → Action Host ⊤
  pub get_dhcp_lease : Text → Action Host (Option DhcpLease)
  -- Close, whose error is dropped.
  pub close : Action Host ⊤
