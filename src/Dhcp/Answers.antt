-- ===== src/Dhcp/Answers.antt =====
-- Leases that makeResponse can answer.
use teleskop.Common.{
  ℕ, ◌≡◌, ◌≢◌, refl, ◌⊎◌, inl, inr, true, false, Option, none, some, List, [], ◌∷◌, arith, eq_bytes,
  length, Option-cases,
}
use teleskop.Dhcp.Address.{v4_bytes, v4_all}
use teleskop.Dhcp.Packet.{
  Options, put_option, append_option, slice, Packet, Constants, Interface, DhcpLease,
}
use teleskop.Dhcp.Response.{
  pointer, not_nil, four, take_v4, last_v4, with_dns, with_metadata, with_gateway, first_options,
  response_type, make_response,
}
use teleskop.Go.Error.{Outcome, ok, err, panic}
use teleskop.Go.Net.{Net}
use teleskop.Go.Net.To4.{to4}
use teleskop.Go.Text.{Text}

-- Empty, or a text that ParseIP takes.
abbrev pub IsAddress : Net → Text → Type 0
IsAddress net text =
    (eq_bytes text [] ≡ true)
    ⊎ ((eq_bytes text [] ≡ false) × (addr : List ℕ) × (net.parse_ip text ≡ some addr))

-- Empty, or an address of IPv4.
abbrev pub IsV4Address : Net → Text → Type 0
IsV4Address net text =
    (eq_bytes text [] ≡ true)
    ⊎ ((eq_bytes text [] ≡ false)
        × (addr : List ℕ) × (b : List ℕ) × (net.parse_ip text ≡ some addr)
        × (to4 addr ≡ some b))

-- An interface with an address of IPv4, and a lease whose texts parse.
pub record IsServable (net : Net) (intf : Interface) (lease : DhcpLease) : Type 0 where
  pub addrs : List Text
  pub has_addrs : intf.addrs ≡ ok addrs
  pub has_v4 : v4_all net addrs ≢ []
  pub your_addr : List ℕ
  pub has_ip : net.parse_ip lease.ip ≡ some your_addr
  pub cidr : List ℕ × List ℕ × List ℕ
  pub has_network : net.parse_cidr lease.network ≡ ok cidr
  pub dns : IsAddress net lease.dns_server
  pub metadata : IsV4Address net lease.metadata_server
  pub gateway : IsV4Address net lease.gateway

-- What To4 returns has four bytes.
four_bytes : (bs : List ℕ) → length bs ≡ 4 → (b : List ℕ) × (four bs ≡ ok b)
unfolding four
four_bytes (a ∷ b ∷ c ∷ d ∷ ip) h = (_, refl)
four_bytes [] h = absurd (omega arith)
four_bytes (a ∷ []) h = absurd (omega arith)
four_bytes (a ∷ b ∷ []) h = absurd (omega arith)
four_bytes (a ∷ b ∷ c ∷ []) h = absurd (omega arith)

length-to4 : (ip b : List ℕ) → to4 ip ≡ some b → length b ≡ 4
unfolding to4
length-to4 ip b h = ground arith

four-to4 : (ip b : List ℕ) → to4 ip ≡ some b → (md : List ℕ) × (four (slice (to4 ip)) ≡ ok md)
four-to4 ip b h = rw h (four_bytes b (length-to4 ip b h))

module _ (net : Net) where
  take_bytes-none :
      (acc : Option (List ℕ)) (ip : List ℕ) (bytes : Option (List ℕ))
      → elim bytes as (λ _. Option (List ℕ)) [ none ↦ acc | some _ ↦ some ip ] ≡ none
      → (acc ≡ none) × (bytes ≡ none)
  take_bytes-none acc ip none h = (h, refl)
  take_bytes-none acc ip (some b) h = cc

  take_v4-none :
      (acc : Option (List ℕ)) (o : Outcome (List ℕ × List ℕ × List ℕ))
      → take_v4 net acc o ≡ none
      → (acc ≡ none) × (v4_bytes o ≡ none)
  unfolding take_v4
  take_v4-none acc (ok (ip, network, mask)) h = take_bytes-none acc ip (to4 ip) h
  take_v4-none acc (err e) h = (h, refl)
  take_v4-none acc panic h = (h, refl)

  last_v4-some :
      (addrs : List Text) (acc : Option (List ℕ))
      → last_v4 net acc addrs ≡ none
      → (acc ≡ none) × (v4_all net addrs ≡ [])
  unfolding last_v4 take_v4
  last_v4-some [] acc h = (h, refl)
  last_v4-some (addr ∷ addrs) acc h =
      let (at_acc, none_behind) = last_v4-some addrs (take_v4 net acc (net.parse_cidr addr)) h in
      let (before, no_v4) = take_v4-none acc (net.parse_cidr addr) at_acc in
      (before, rw (no_v4, none_behind) refl)

  module _ (lease : DhcpLease) where
    with_dns-ok :
        (constants : Constants) (options : Options)
        → IsAddress net lease.dns_server
        → (result : Options) × (with_dns net constants lease options ≡ ok result)
    unfolding with_dns not_nil
    with_dns-ok constants options (inl empty) = (options, rw empty refl)
    with_dns-ok constants options (inr (there, addr, h)) =
        (put_option constants.opt_dns_servers (slice (to4 addr)) options, rw (there, h) refl)

    with_metadata-ok :
        (options : Options)
        → IsV4Address net lease.metadata_server
        → (result : Options) × (with_metadata net lease options ≡ ok result)
    unfolding with_metadata not_nil
    with_metadata-ok options (inl empty) = (options, rw empty refl)
    with_metadata-ok options (inr (there, addr, b, h, v4)) =
        let (md, e) = four-to4 addr b v4 in
        (append_option 121 (32 ∷ 169 ∷ 254 ∷ 169 ∷ 254 ∷ md) options, rw (there, h, e) refl)

    with_gateway-ok :
        (constants : Constants) (options : Options)
        → IsV4Address net lease.gateway
        → (result : Options) × (with_gateway net constants lease options ≡ ok result)
    unfolding with_gateway not_nil
    with_gateway-ok constants options (inl empty) = (options, rw empty refl)
    with_gateway-ok constants options (inr (there, addr, b, h, v4)) =
        let (gw, e) = four-to4 addr b v4 in
        (
          append_option 121 (0 ∷ gw) (put_option constants.opt_routers (slice (to4 addr)) options),
          rw (there, h, e) refl,
        )

  -- The response names its request, and the address and the type that the request asks for.
  pub record IsReply (constants : Constants) (req : Packet) (lease : DhcpLease) (resp : Packet)
      : Type 0 where
    pub same_transaction : resp.transaction_id ≡ req.transaction_id
    pub same_hardware : resp.hardware_addr ≡ req.hardware_addr
    pub type : resp.type ≡ response_type constants req.type
    pub address : net.parse_ip lease.ip ≡ some resp.your_addr

  some_v4 :
      (addrs : List Text)
      → v4_all net addrs ≢ []
      → (ip : List ℕ) × (last_v4 net none addrs ≡ some ip)
  some_v4 addrs h = elim (Option-cases (last_v4 net none addrs)) [
    | inl missing ↦ absurd (h (last_v4-some addrs none missing).1)
    | inr found ↦ found
  ]

  pub make_response_servable :
      (constants : Constants) (intf : Interface) (req : Packet) (lease : DhcpLease)
      → IsServable net intf lease
      → (resp : Packet) × (make_response net constants intf req (some lease) ≡ ok resp)
        × IsReply constants req lease resp
  unfolding make_response pointer not_nil
  make_response_servable constants intf req lease h =
      let (ip, e_ip) = some_v4 h.addrs h.has_v4 in
      let (with_name, e_dns) =
        with_dns-ok lease constants (first_options constants h.cidr.2 (slice (to4 ip))) h.dns in
      let (with_route, e_md) = with_metadata-ok lease (put_option 121 [] with_name) h.metadata in
      let (options, e_gw) = with_gateway-ok lease constants with_route h.gateway in
      (
        record {
          type = response_type constants req.type;
          transaction_id = req.transaction_id;
          broadcast = req.broadcast;
          hardware_addr = req.hardware_addr;
          your_addr = h.your_addr;
          server_addr = slice (to4 ip);
          relay_addr = req.relay_addr;
          boot_server_name = net.ip_string (slice (to4 ip));
          options = options;
        },
        rw (h.has_addrs, e_ip, h.has_ip, h.has_network, e_dns, e_md, e_gw) refl,
        record { same_transaction = refl; same_hardware = refl; type = refl; address = h.has_ip },
      )
