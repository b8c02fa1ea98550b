-- ===== src/Dhcp/Server.antt =====
-- dhcp/dhcpd.go, ListenAndServe.
use teleskop.Common.{ℕ, zero, suc, ⊤, Option, if◌then◌else◌, not}
use teleskop.Dhcp.Packet.{Packet, Constants, Interface, DhcpLease, Wire}
use teleskop.Dhcp.Response.{make_response}
use teleskop.Go.Action.{Action, pure, lift, on_error, wrap_error, ◌>>=◌, ◌>>◌}
use teleskop.Go.Error.{Outcome, ok, err, panic, wrapped}
use teleskop.Go.Net.{Net}
use teleskop.Go.Text.{codes, has_prefix}

module _ {Host : Type 0} (net : Net) (constants : Constants) (wire : Wire Host) where
  -- `continue`: an error is printed, and the loop goes on.
  abbrev pub skip : Action Host ⊤
  skip = pure tt

  unfoldable pub answer : Interface → Packet → Option DhcpLease → Action Host ⊤
  answer intf req lease =
      on_error (lift (make_response net constants intf req lease)) (λ _. skip)
        λ resp. on_error (wire.send_dhcp resp intf) (λ _. skip) λ _. skip

  -- One round of the loop, from a packet on.
  unfoldable pub handle : Packet × Interface → Action Host ⊤
  handle (req, intf) =
      if not (has_prefix intf.name (codes "dhcp"))
      then skip
      else on_error (wire.get_dhcp_lease (net.mac_string req.hardware_addr)) (λ _. skip)
          (answer intf req)

  -- The loop has no end of its own: rounds is the number of packets that it is watched for.
  unfoldable pub serve_rounds : ℕ → Action Host ⊤
  serve_rounds zero = pure tt
  serve_rounds (suc rounds) = do
    packet ← wrap_error wire.recv_dhcp (wrapped "failed to receive DHCP request: %w")
    handle packet
    serve_rounds rounds

  -- The deferred Close, once the loop is left: where the watch ends, the server is still in its loop.
  unfoldable pub close_conn : Outcome ⊤ → Action Host ⊤
  close_conn (ok a) w = (ok a, w)
  close_conn (err e) w = (err e, (wire.close w).1)
  close_conn panic w = (panic, (wire.close w).1)

  unfoldable pub listen_and_serve : ℕ → Action Host ⊤
  listen_and_serve rounds = do
    wrap_error (wire.new_conn (codes "0.0.0.0:67")) (wrapped "failed to listen: %w")
    λ w. close_conn (serve_rounds rounds w).0 (serve_rounds rounds w).1
