-- ===== src/Dhcp/Response.antt =====
-- dhcp/dhcpd.go, makeResponse.
use teleskop.Common.{
  ℕ, ◌/◌, ◌%◌, ◌^◌, Option, none, some, List, [], ◌∷◌, eq_bytes, ◌==◌, if◌then◌else◌,
}
use teleskop.Dhcp.Packet.{
  Options, no_options, put_option, append_option, slice, Packet, Constants, Interface, DhcpLease,
}
use teleskop.Go.Error.{Error, Outcome, ok, err, panic, or_else, plain, wrapped, ◌>>=◌}
use teleskop.Go.Net.{Net}
use teleskop.Go.Net.To4.{to4}
use teleskop.Go.Text.{Text}

-- A nil pointer that is read.
unfoldable pub pointer : {A : Type 0} → Option A → Outcome A
pointer none = panic
pointer (some a) = ok a

-- `if x == nil { return nil, e }`.
unfoldable pub not_nil : {A : Type 0} → Error → Option A → Outcome A
not_nil e none = err e
not_nil e (some a) = ok a

-- binary.BigEndian.PutUint32.
unfoldable pub put_uint32 : ℕ → List ℕ
put_uint32 n = n / 2 ^ 24 % 256 ∷ n / 2 ^ 16 % 256 ∷ n / 2 ^ 8 % 256 ∷ n % 256 ∷ []

-- ip[0], ip[1], ip[2], ip[3]
unfoldable pub four : List ℕ → Outcome (List ℕ)
four (a ∷ b ∷ c ∷ d ∷ ip) = ok (a ∷ b ∷ c ∷ d ∷ [])
four _ = panic

module _ (net : Net) where
  -- One round of the loop over the interface's addresses.
  unfoldable pub take_v4 : Option (List ℕ) → Outcome (List ℕ × List ℕ × List ℕ) → Option (List ℕ)
  take_v4 s_addr (ok (ip, network, mask)) = elim (to4 ip) [ none ↦ s_addr | some _ ↦ some ip ]
  take_v4 s_addr _ = s_addr

  unfoldable pub last_v4 : Option (List ℕ) → List Text → Option (List ℕ)
  last_v4 s_addr [] = s_addr
  last_v4 s_addr (addr ∷ addrs) = last_v4 (take_v4 s_addr (net.parse_cidr addr)) addrs

  unfoldable pub with_dns : Constants → DhcpLease → Options → Outcome Options
  with_dns constants lease options = if eq_bytes lease.dns_server [] then ok options else do
    addr ← not_nil (plain "failed to parse DNS: %s") (net.parse_ip lease.dns_server)
    ok (put_option constants.opt_dns_servers (slice (to4 addr)) options)

  unfoldable pub with_metadata : DhcpLease → Options → Outcome Options
  with_metadata lease options = if eq_bytes lease.metadata_server [] then ok options else do
    addr ←
        not_nil (plain "failed to parse metadata server: %s") (net.parse_ip lease.metadata_server)
    md ← four (slice (to4 addr))
    ok (append_option 121 (32 ∷ 169 ∷ 254 ∷ 169 ∷ 254 ∷ md) options)

  unfoldable pub with_gateway : Constants → DhcpLease → Options → Outcome Options
  with_gateway constants lease options = if eq_bytes lease.gateway [] then ok options else do
    addr ← not_nil (plain "failed to parse gateway: %s") (net.parse_ip lease.gateway)
    gw ← four (slice (to4 addr))
    ok (append_option 121 (0 ∷ gw) (put_option constants.opt_routers (slice (to4 addr)) options))

-- The switch on the request's type; the zero value for any other.
unfoldable pub response_type : Constants → ℕ → ℕ
response_type constants type =
    if type == constants.msg_discover
    then constants.msg_offer
    else if type == constants.msg_request
    then constants.msg_ack
    else 0

-- The options that every response has.
unfoldable pub first_options : Constants → List ℕ → List ℕ → Options
first_options constants mask server = put_option constants.opt_lease_time (put_uint32 4294967295) (
    put_option constants.opt_server_identifier server
      (put_option constants.opt_subnet_mask mask no_options))

unfoldable pub make_response :
    Net → Constants → Interface → Packet → Option DhcpLease → Outcome Packet
make_response net constants intf req lease_pointer = do
  addrs ← or_else intf.addrs (wrapped "failed to get interface address: %w")
  s_addr ← not_nil (plain "failed to parse interface address: %w") (last_v4 net none addrs)
  lease ← pointer lease_pointer
  your_addr ← not_nil (plain "failed to parse IP: %w") (net.parse_ip lease.ip)
  cidr ← or_else (net.parse_cidr lease.network) (wrapped "failed to parse network: %w")
  let server = slice (to4 s_addr)
  with_name ← with_dns net constants lease (first_options constants cidr.2 server)
  with_route ← with_metadata net lease (put_option 121 [] with_name)
  options ← with_gateway net constants lease with_route
  ok (record {
    type = response_type constants req.type;
    transaction_id = req.transaction_id;
    broadcast = req.broadcast;
    hardware_addr = req.hardware_addr;
    your_addr = your_addr;
    server_addr = server;
    relay_addr = req.relay_addr;
    boot_server_name = net.ip_string server;
    options = options;
  })
