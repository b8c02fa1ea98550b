-- ===== src/Dhcp/Script.antt =====
-- A connection with a script: the packets to come are a list, and what is sent is kept; and the server on it.
use teleskop.Common.{
  ⊤, ◌≡◌, ◌≢◌, refl, inl, inr, Option, some, List, [], ◌∷◌, ◌++◌, arith, eq_bytes,
}
use teleskop.Dhcp.Answers.{IsServable, IsReply}
use teleskop.Dhcp.Live.{serve_rounds_answers}
use teleskop.Dhcp.Packet.{Packet, Interface, DhcpLease, Wire}
use teleskop.Dhcp.Refine.{Ended, serve_rounds_replies}
use teleskop.Dhcp.Replies.{Datagram, IsLawful, response_from, response_to, replies, IsCalm}
use teleskop.Dhcp.Response.{make_response}
use teleskop.Dhcp.Server.{serve_rounds}
use teleskop.Dhcp.Tests.{net, constants, intf, req, lease, server, v4_address, answers}
use teleskop.Go.Action.{pure, lift}
use teleskop.Go.Error.{Outcome, ok, err, external, panic}
use teleskop.Go.Net.To4.{to4}
use teleskop.Go.Text.{Text, codes, has_prefix}

record Line : Type 0 where
  pending : List Datagram
  handed : List Datagram

abbrev take_packet : List Datagram → List Datagram → Outcome Datagram × Line
take_packet [] out = (err (external "closed"), record { pending = []; handed = out })
take_packet (p ∷ ps) out = (ok p, record { pending = ps; handed = out })

abbrev known : Text → Outcome (Option DhcpLease)
known mac = ok (some lease)

-- SendDHCP fails, after it has taken the packet.
abbrev scripted : Wire Line
scripted = record {
  new_conn = λ address. pure tt;
  close = pure tt;
  recv_dhcp = λ line. take_packet line.pending line.handed;
  send_dhcp = λ resp to line.
      (err (external "network is down"), record line { handed = line.handed ++ (resp, to) ∷ [] });
  get_dhcp_lease = λ mac. lift (known mac);
}

take_packet_handed : (ps out : List Datagram) → (take_packet ps out).1.handed ≡ out
take_packet_handed [] out = refl
take_packet_handed (p ∷ ps) out = refl

returns : ◌≢◌ {A = Outcome ⊤} (err (external "network is down")) panic
returns h = cc

abbrev scripted-IsLawful : IsLawful scripted
scripted-IsLawful = record {
  pending = λ line. line.pending;
  handed = λ line. line.handed;
  leases = known;
  closed = external "closed";
  recv_next = λ line p ps h. rw h (refl, refl);
  recv_end = λ line h. rw h refl;
  recv_handed = λ line. take_packet_handed line.pending line.handed;
  send_returns = λ resp to line. returns;
  send_handed = λ resp to line. refl;
  send_pending = λ resp to line. refl;
  lease_found = λ mac line. refl;
  lease_handed = λ mac line. refl;
  lease_pending = λ mac line. refl;
}

-- A packet by another interface, and one that is answered.
abbrev other : Interface
other = record intf { name = codes "eth0" }

abbrev packets : List Datagram
packets = (req, other) ∷ (req, intf) ∷ []

abbrev line : Line
line = record { pending = packets; handed = [] }

calm : IsCalm net constants known packets
unfolding IsCalm response_to response_from make_response
calm = (λ h. cc answers, (λ h. cc answers, tt))

serve_rounds_replies_example :
    Ended net constants scripted scripted-IsLawful line packets
      (serve_rounds net constants scripted 3 line)
serve_rounds_replies_example =
    serve_rounds_replies net constants scripted scripted-IsLawful 3 packets line (omega arith) refl
      calm

servable : IsServable net intf lease
unfolding eq_bytes to4
servable = record {
  addrs = (b'4' ∷ []) ∷ [];
  has_addrs = refl;
  has_v4 = λ h. cc;
  your_addr = v4_address;
  has_ip = refl;
  cidr = (v4_address, 192 ∷ 0 ∷ 2 ∷ 0 ∷ [], 255 ∷ 255 ∷ 255 ∷ 0 ∷ []);
  has_network = refl;
  dns = inl refl;
  metadata = inr (refl, v4_address, server, refl, refl);
  gateway = inr (refl, v4_address, server, refl, refl);
}

serve_rounds_answers_example :
    (resp : Packet) × IsReply net constants req lease resp
    × ((serve_rounds net constants scripted 3 line).1.handed
        ≡ [] ++ (replies net constants known ((req, other) ∷ []) ++ (resp, intf) ∷ []))
unfolding replies
serve_rounds_answers_example =
    serve_rounds_answers net constants scripted scripted-IsLawful 3 ((req, other) ∷ []) [] req intf
      lease line (omega arith) refl calm (unfold codes has_prefix in refl) refl servable
