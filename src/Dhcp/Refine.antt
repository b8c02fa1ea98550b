-- ===== src/Dhcp/Refine.antt =====
-- The loop of ListenAndServe against the list of the replies.
use teleskop.Common.{
  ℕ, zero, suc, ⊤, ◌≡◌, ◌≢◌, refl, sym, ap, ◌∙◌, Option, List, [], ◌∷◌, ◌++◌, ◌<◌, append-nil,
  append_assoc, arith, length, Bool-cases, inl, inr,
}
use teleskop.Dhcp.Packet.{Packet, Constants, Interface, DhcpLease, Wire}
use teleskop.Dhcp.Response.{make_response}
use teleskop.Dhcp.Replies.{
  Datagram, IsLawful, response_from, response_to, reply_with, reply, replies, IsCalm,
}
use teleskop.Dhcp.Server.{answer, handle, serve_rounds}
use teleskop.Go.Action.{Action, pure, continue, either, on_error}
use teleskop.Go.Error.{Outcome, ok, err, panic, wrapped}
use teleskop.Go.Net.{Net}
use teleskop.Go.Text.{codes, has_prefix}

module _ {Host : Type 0} (net : Net) (constants : Constants) (wire : Wire Host)
    (laws : IsLawful wire) where
  -- What a round does: it returns, takes no packet, and hands `more` over.
  record Round (w : Host) (more : List Datagram) (r : Outcome ⊤ × Host) : Type 0 where
    done : r.0 ≡ ok tt
    kept : laws.pending r.1 ≡ laws.pending w
    given : laws.handed r.1 ≡ laws.handed w ++ more

  Round-stay :
      (w v : Host)
      → laws.pending v ≡ laws.pending w
      → laws.handed v ≡ laws.handed w
      → Round w [] (ok tt, v)
  Round-stay w v p h = record {
    done = refl;
    kept = p;
    given = h ∙ sym (append-nil (laws.handed w));
  }

  -- After SendDHCP, whether it fails or not.
  sent_step :
      (w v : Host) (more : List Datagram) (o : Outcome ⊤)
      → o ≢ panic
      → laws.pending v ≡ laws.pending w
      → laws.handed v ≡ laws.handed w ++ more
      → Round w more (either o (λ _. pure tt) (λ _. pure tt) v)
  sent_step w v more (ok a) calm p h = record { done = refl; kept = p; given = h }
  sent_step w v more (err e) calm p h = record { done = refl; kept = p; given = h }
  sent_step w v more panic calm p h = absurd (calm refl)

  answer_step :
      (w v : Host) (intf : Interface) (o : Outcome Packet)
      → o ≢ panic
      → laws.pending v ≡ laws.pending w
      → laws.handed v ≡ laws.handed w
      → Round w (reply_with o intf) (
          either o
            (λ _. pure tt)
            (λ resp. on_error (wire.send_dhcp resp intf) (λ _. pure tt) λ _. pure tt)
            v)
  unfolding reply_with
  answer_step w v intf (ok resp) calm p h =
      sent_step w (wire.send_dhcp resp intf v).1 _ (wire.send_dhcp resp intf v).0
        (laws.send_returns resp intf v) (laws.send_pending resp intf v ∙ p)
        (laws.send_handed resp intf v ∙ ap (λ l. l ++ (resp, intf) ∷ []) h)
  answer_step w v intf (err e) calm p h = Round-stay w v p h
  answer_step w v intf panic calm p h = absurd (calm refl)

  lease_step :
      (w v : Host) (req : Packet) (intf : Interface) (o : Outcome (Option DhcpLease))
      → response_from net constants req intf o ≢ panic
      → laws.pending v ≡ laws.pending w
      → laws.handed v ≡ laws.handed w
      → Round w
          (reply_with (response_from net constants req intf o) intf)
          (either o (λ _. pure tt) (answer net constants wire intf req) v)
  unfolding answer response_from reply_with
  lease_step w v req intf (ok lease) calm p h =
      answer_step w v intf (make_response net constants intf req lease) calm p h
  lease_step w v req intf (err e) calm p h = Round-stay w v p h
  lease_step w v req intf panic calm p h = absurd (calm refl)

  handle-Round :
      (w : Host) (p : Datagram)
      → response_to net constants laws.leases p ≢ panic
      → Round w (reply net constants laws.leases p) (handle net constants wire p w)
  unfolding handle reply response_to
  handle-Round w (req, intf) calm = elim (Bool-cases (has_prefix intf.name (codes "dhcp"))) [
    | inr other ↦ rw other (Round-stay w w refl refl)
    | inl same ↦
        let mac = net.mac_string req.hardware_addr in
        rw (same, laws.lease_found mac w)
          (lease_step w (wire.get_dhcp_lease mac w).1 req intf (laws.leases mac) calm
            (laws.lease_pending mac w) (laws.lease_handed mac w))
  ]

  -- The end of the loop: the error of RecvDHCP, with the replies handed over.
  pub record Ended (w : Host) (ps : List Datagram) (r : Outcome ⊤ × Host) : Type 0 where
    pub failed : r.0 ≡ err (wrapped "failed to receive DHCP request: %w" laws.closed)
    pub given : laws.handed r.1 ≡ laws.handed w ++ replies net constants laws.leases ps

  more_rounds :
      (w v : Host) (p : Datagram) (ps : List Datagram) (o : Outcome ⊤ × Host) (n : Action Host ⊤)
      → laws.handed v ≡ laws.handed w
      → Round v (reply net constants laws.leases p) o
      → Ended o.1 ps (n o.1)
      → Ended w (p ∷ ps) (continue o.0 (λ _. n) o.1)
  unfolding replies
  more_rounds w v p ps (r, u) n h round ended = rw round.done (record {
    failed = ended.failed;
    given =
        ended.given
        ∙ (ap (λ l. l ++ replies net constants laws.leases ps)
              (round.given ∙ ap (λ l. l ++ reply net constants laws.leases p) h)
            ∙ append_assoc (laws.handed w) (reply net constants laws.leases p) _);
  })

  -- ListenAndServe receives every packet and hands over, packet by packet and in their order, the reply to
  -- each, where there is one; then it returns the error that RecvDHCP ends with. The rounds are more than
  -- the packets, and no packet makes it panic.
  pub serve_rounds_replies :
      (rounds : ℕ) (ps : List Datagram) (w : Host)
      → length ps < rounds
      → laws.pending w ≡ ps
      → IsCalm net constants laws.leases ps
      → Ended w ps (serve_rounds net constants wire rounds w)
  unfolding serve_rounds IsCalm replies
  serve_rounds_replies zero ps w enough h calm = absurd (omega arith)
  serve_rounds_replies (suc rounds) [] w enough h calm =
      rw (laws.recv_end w h)
        (record { failed = refl; given = laws.recv_handed w ∙ sym (append-nil (laws.handed w)) })
  serve_rounds_replies (suc rounds) (p ∷ ps) w enough h calm =
      let (got, left) = laws.recv_next w p ps h in
      let v = (wire.recv_dhcp w).1 in
      let round = handle-Round v p calm.0 in
      rw got (
        more_rounds w v p ps (handle net constants wire p v)
          (serve_rounds net constants wire rounds) (laws.recv_handed w) round
          (serve_rounds_replies rounds ps (handle net constants wire p v).1 (omega arith)
            (round.kept ∙ left) calm.1))
