-- ===== src/Dhcp/Live.antt =====
-- What a client of the DHCP server waits for.
use teleskop.Common.{
  ℕ, ◌≡◌, refl, sym, ap, ◌∙◌, true, Option, some, List, [], ◌∷◌, ◌++◌, ◌<◌, append_assoc, length,
}
use teleskop.Dhcp.Answers.{IsServable, IsReply, make_response_servable}
use teleskop.Dhcp.Packet.{Packet, Constants, Interface, DhcpLease, Wire}
use teleskop.Dhcp.Refine.{serve_rounds_replies}
use teleskop.Dhcp.Replies.{
  Datagram, IsLawful, response_from, response_to, reply_with, reply, replies, IsCalm,
}
use teleskop.Dhcp.Response.{make_response}
use teleskop.Dhcp.Server.{serve_rounds}
use teleskop.Go.Error.{Outcome, ok}
use teleskop.Go.Net.{Net}
use teleskop.Go.Text.{Text, codes, has_prefix}

module _ (net : Net) (constants : Constants) where
  replies-append :
      (leases : Text → Outcome (Option DhcpLease)) (ps qs : List Datagram)
      → replies net constants leases (ps ++ qs)
        ≡ replies net constants leases ps ++ replies net constants leases qs
  unfolding replies
  replies-append leases [] qs = refl
  replies-append leases (p ∷ ps) qs =
      ap (λ l. reply net constants leases p ++ l) (replies-append leases ps qs)
      ∙ sym (append_assoc (reply net constants leases p) (replies net constants leases ps) _)

  reply-some :
      (leases : Text → Outcome (Option DhcpLease)) (req : Packet) (intf : Interface)
      (lease : DhcpLease) (resp : Packet)
      → has_prefix intf.name (codes "dhcp") ≡ true
      → leases (net.mac_string req.hardware_addr) ≡ ok (some lease)
      → make_response net constants intf req (some lease) ≡ ok resp
      → reply net constants leases (req, intf) ≡ (resp, intf) ∷ []
  unfolding reply response_to response_from reply_with
  reply-some leases req intf lease resp named leased made = rw (named, leased, made) refl

module _ {Host : Type 0} (net : Net) (constants : Constants) (wire : Wire Host)
    (laws : IsLawful wire) where
  -- A packet that comes in by an interface of the DHCP server, whose address has a lease and whose interface
  -- and lease have the addresses that a response needs, gets its reply, behind the replies to the packets
  -- before it and before those to the packets after it, whatever these are, as long as none makes the server
  -- panic: a response with its transaction and hardware address, of the type that belongs to its own, with
  -- the address of the lease.
  pub serve_rounds_answers :
      (rounds : ℕ) (before after : List Datagram) (req : Packet) (intf : Interface)
      (lease : DhcpLease) (w : Host)
      → length (before ++ (req, intf) ∷ after) < rounds
      → laws.pending w ≡ before ++ (req, intf) ∷ after
      → IsCalm net constants laws.leases (before ++ (req, intf) ∷ after)
      → has_prefix intf.name (codes "dhcp") ≡ true
      → laws.leases (net.mac_string req.hardware_addr) ≡ ok (some lease)
      → IsServable net intf lease
      → (resp : Packet) × IsReply net constants req lease resp
        × (laws.handed (serve_rounds net constants wire rounds w).1
            ≡ laws.handed w
              ++ (replies net constants laws.leases before
                  ++ (resp, intf) ∷ replies net constants laws.leases after))
  unfolding replies
  serve_rounds_answers rounds before after req intf lease w enough h calm named leased servable =
      let (resp, made, is_reply) = make_response_servable net constants intf req lease servable in
      let ended = serve_rounds_replies net constants wire laws rounds _ w enough h calm in
      (
        resp,
        is_reply,
        ended.given
            ∙ ap (λ l. laws.handed w ++ l)
                (replies-append net constants laws.leases before ((req, intf) ∷ after)
                  ∙ ap
                      (λ l.
                        replies net constants laws.leases before
                        ++ (l ++ replies net constants laws.leases after))
                      (reply-some net constants laws.leases req intf lease resp named leased made)),
      )
