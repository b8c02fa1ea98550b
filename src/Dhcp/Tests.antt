-- ===== src/Dhcp/Tests.antt =====
-- The DHCP server on concrete leases.
use teleskop.Common.{
  ℕ, zero, suc, ◌≡◌, refl, false, none, some, List, [], ◌∷◌, ◌++◌, arith, eq_bytes, if◌then◌else◌,
  replicate,
}
use teleskop.Dhcp.Address.{IsLast, v4_all, make_response_server}
use teleskop.Dhcp.Lease.{lease_routes, make_response_routes}
use teleskop.Dhcp.Loop.{Received, serve_rounds_error}
use teleskop.Dhcp.Packet.{
  put_option, append_option, Packet, Constants, Interface, DhcpLease, Wire, no_options,
}
use teleskop.Dhcp.Panics.{make_response_v6_gateway, without_gateway}
use teleskop.Dhcp.Response.{
  pointer, not_nil, four, take_v4, last_v4, with_dns, with_metadata, with_gateway, first_options,
  response_type, make_response,
}
use teleskop.Dhcp.Routes.{read_routes}
use teleskop.Dhcp.Server.{handle, serve_rounds}
use teleskop.Go.Action.{Action, pure, raise}
use teleskop.Go.Error.{ok, err, panic, external, wrapped}
use teleskop.Go.Net.{Net}
use teleskop.Go.Net.To4.{to4}
use teleskop.Go.Text.{Text, codes, has_prefix}

-- The texts 4 and 6 stand for an address of IPv4 and one of IPv6.
abbrev v4_text : Text
v4_text = b'4' ∷ []

abbrev v6_text : Text
v6_text = b'6' ∷ []

abbrev pub v4_address : List ℕ
v4_address = replicate 10 0 ++ 255 ∷ 255 ∷ 192 ∷ 0 ∷ 2 ∷ 1 ∷ []

abbrev v6_address : List ℕ
v6_address = 32 ∷ 1 ∷ replicate 14 0

abbrev pub net : Net
net = record {
  parse_ip = λ s.
      if eq_bytes s v4_text
      then some v4_address
      else if eq_bytes s v6_text
      then some v6_address
      else none;
  ip_string = λ ip. v4_text;
  parse_mac = λ s. ok [];
  mac_string = λ mac. [];
  parse_cidr = λ s. ok (v4_address, 192 ∷ 0 ∷ 2 ∷ 0 ∷ [], 255 ∷ 255 ∷ 255 ∷ 0 ∷ []);
  mask_size = λ mask. 24;
}

abbrev pub constants : Constants
constants = record {
  msg_discover = 1;
  msg_offer = 2;
  msg_request = 3;
  msg_ack = 5;
  opt_subnet_mask = 1;
  opt_server_identifier = 54;
  opt_lease_time = 51;
  opt_dns_servers = 6;
  opt_routers = 3;
}

abbrev pub intf : Interface
intf = record { name = codes "dhcp-br0"; addrs = ok (v4_text ∷ []) }

abbrev pub req : Packet
req = record {
  type = 1;
  transaction_id = 1 ∷ 2 ∷ 3 ∷ 4 ∷ [];
  broadcast = false;
  hardware_addr = replicate 6 0;
  your_addr = [];
  server_addr = [];
  relay_addr = [];
  boot_server_name = [];
  options = no_options;
}

abbrev pub lease : DhcpLease
lease = record {
  ip = v4_text;
  network = v4_text;
  gateway = v4_text;
  dns_server = [];
  metadata_server = v4_text;
}

abbrev v6_lease : DhcpLease
v6_lease = record lease { gateway = v6_text }

abbrev pub server : List ℕ
server = 192 ∷ 0 ∷ 2 ∷ 1 ∷ []

abbrev metadata_response : Packet
metadata_response = record req {
  type = 2;
  your_addr = v4_address;
  server_addr = server;
  boot_server_name = v4_text;
  options =
      append_option 121 (32 ∷ 169 ∷ 254 ∷ 169 ∷ 254 ∷ server)
        (put_option 121 [] (first_options constants (255 ∷ 255 ∷ 255 ∷ 0 ∷ []) server));
}

abbrev pub response : Packet
response = record metadata_response {
  options = append_option 121 (0 ∷ server) (put_option 3 server metadata_response.options);
}

pub answers : make_response net constants intf req (some lease) ≡ ok response
unfolding make_response pointer not_nil four take_v4 last_v4 with_dns with_metadata with_gateway
    response_type to4 eq_bytes
answers = refl

make_response_routes_example :
    (bytes : List ℕ) × (response.options 121 ≡ some bytes)
    × (read_routes bytes ≡ some (lease_routes net lease))
make_response_routes_example =
    make_response_routes net constants intf req lease response (λ e. ground arith) answers

answers_without_gateway :
    make_response net constants intf req (some (without_gateway net constants intf req v6_lease))
    ≡ ok metadata_response
unfolding make_response pointer not_nil four take_v4 last_v4 with_dns with_metadata with_gateway
    response_type to4 eq_bytes
answers_without_gateway = refl

make_response_v6_gateway_example : make_response net constants intf req (some v6_lease) ≡ panic
make_response_v6_gateway_example =
    make_response_v6_gateway net constants intf req v6_lease v6_address metadata_response
      (unfold eq_bytes in refl) (unfold eq_bytes in refl) (unfold to4 eq_bytes in refl)
      answers_without_gateway

-- The host counts the packets to come; there is no lease for any of them.
abbrev next_packet : Action ℕ (Packet × Interface)
next_packet zero = (err (external "closed"), 0)
next_packet (suc n) = (ok (req, intf), n)

abbrev wire : Wire ℕ
wire = record {
  new_conn = λ address. pure tt;
  close = pure tt;
  recv_dhcp = next_packet;
  send_dhcp = λ resp to. pure tt;
  get_dhcp_lease = λ mac. raise (external "no lease");
}

serve_rounds_error_example :
    Received net constants wire (wrapped "failed to receive DHCP request: %w" (external "closed"))
serve_rounds_error_example =
    serve_rounds_error net constants wire 3 2
      (wrapped "failed to receive DHCP request: %w" (external "closed"))
      (unfold serve_rounds handle codes has_prefix in refl)

make_response_server_example :
    (addrs : List Text) × (intf.addrs ≡ ok addrs) × IsLast response.server_addr (v4_all net addrs)
make_response_server_example = make_response_server net constants intf req lease response answers
