-- ===== src/Dhcp/Replies.antt =====
-- What the server has to reply to the packets that it receives, and what the connection is documented to do.
use teleskop.Common.{⊤, ◌≡◌, ◌≢◌, Option, List, [], ◌∷◌, ◌++◌, if◌then◌else◌}
use teleskop.Dhcp.Packet.{Packet, Constants, Interface, DhcpLease, Wire}
use teleskop.Dhcp.Response.{make_response}
use teleskop.Go.Error.{Error, Outcome, ok, err, panic, ◌>>=◌}
use teleskop.Go.Net.{Net}
use teleskop.Go.Text.{Text, codes, has_prefix}

-- A packet, and the interface that it comes in by or goes out by.
abbrev pub Datagram : Type 0
Datagram = Packet × Interface

-- The connection has packets to come, the last of them followed by an error, and keeps what it is given to
-- send. The datastore has a lease or an error for each address.
pub record IsLawful {Host : Type 0} (wire : Wire Host) : Type 0 where
  pub pending : Host → List Datagram
  pub handed : Host → List Datagram
  pub leases : Text → Outcome (Option DhcpLease)
  pub closed : Error
  pub recv_next :
      (w : Host) (p : Datagram) (ps : List Datagram)
      → pending w ≡ p ∷ ps
      → ((wire.recv_dhcp w).0 ≡ ok p) × (pending (wire.recv_dhcp w).1 ≡ ps)
  pub recv_end : (w : Host) → pending w ≡ [] → (wire.recv_dhcp w).0 ≡ err closed
  pub recv_handed : (w : Host) → handed (wire.recv_dhcp w).1 ≡ handed w
  pub send_returns :
      (resp : Packet) (to : Interface) (w : Host) → (wire.send_dhcp resp to w).0 ≢ panic
  pub send_handed :
      (resp : Packet) (to : Interface) (w : Host)
      → handed (wire.send_dhcp resp to w).1 ≡ handed w ++ (resp, to) ∷ []
  pub send_pending :
      (resp : Packet) (to : Interface) (w : Host) → pending (wire.send_dhcp resp to w).1 ≡ pending w
  pub lease_found : (mac : Text) (w : Host) → (wire.get_dhcp_lease mac w).0 ≡ leases mac
  pub lease_handed : (mac : Text) (w : Host) → handed (wire.get_dhcp_lease mac w).1 ≡ handed w
  pub lease_pending : (mac : Text) (w : Host) → pending (wire.get_dhcp_lease mac w).1 ≡ pending w

unfoldable pub reply_with : Outcome Packet → Interface → List Datagram
reply_with (ok resp) intf = (resp, intf) ∷ []
reply_with _ intf = []

-- The response to a packet, where the lookup of the lease returns `found`.
unfoldable pub response_from :
    Net → Constants → Packet → Interface → Outcome (Option DhcpLease) → Outcome Packet
response_from net constants req intf found = found >>= make_response net constants intf req

module _ (net : Net) (constants : Constants) (leases : Text → Outcome (Option DhcpLease)) where
  unfoldable pub response_to : Datagram → Outcome Packet
  response_to (req, intf) =
      response_from net constants req intf (leases (net.mac_string req.hardware_addr))

  -- At most one reply: to a packet that came in by an interface of the DHCP server.
  unfoldable pub reply : Datagram → List Datagram
  reply (req, intf) =
      if has_prefix intf.name (codes "dhcp") then reply_with (response_to (req, intf)) intf else []

  unfoldable pub replies : List Datagram → List Datagram
  replies [] = []
  replies (p ∷ ps) = reply p ++ replies ps

  -- No packet makes the server panic.
  unfoldable pub IsCalm : List Datagram → Type 0
  IsCalm [] = ⊤
  IsCalm (p ∷ ps) = (response_to p ≢ panic) × IsCalm ps
