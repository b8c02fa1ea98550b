-- ===== src/Dhcp/Panics.antt =====
-- An address of IPv6 among the gateways.
use teleskop.Common.{ℕ, ◌≡◌, refl, false, none, some, List, [], eq_bytes}
use teleskop.Dhcp.Packet.{Options, put_option, slice, Packet, Constants, Interface, DhcpLease}
use teleskop.Dhcp.Response.{
  not_nil, four, with_dns, with_metadata, with_gateway, first_options, last_v4, make_response,
  pointer,
}
use teleskop.Go.Error.{Outcome, ok, err, panic, or_else, plain, wrapped, ◌>>=◌}
use teleskop.Go.Net.{Net}
use teleskop.Go.Net.To4.{to4}

bind_panics :
    {A B : Type 0} (o : Outcome A) (f g : A → Outcome B) (b : B)
    → ((a : A) → f a ≡ ok b → g a ≡ panic)
    → (o >>= f) ≡ ok b
    → (o >>= g) ≡ panic
bind_panics (ok a) f g b next h = next a h
bind_panics (err e) f g b next h = cc
bind_panics panic f g b next h = refl

module _ (net : Net) (constants : Constants) (intf : Interface) (req : Packet)
    (lease : DhcpLease) where
  -- The same lease, with no gateway.
  abbrev pub without_gateway : DhcpLease
  without_gateway = record lease { gateway = [] }

  gateway_panics :
      (addr : List ℕ) (options : Options)
      → eq_bytes lease.gateway [] ≡ false
      → net.parse_ip lease.gateway ≡ some addr
      → to4 addr ≡ none
      → with_gateway net constants lease options ≡ panic
  unfolding with_gateway not_nil four
  gateway_panics addr options there parsed v6 = rw (there, parsed, v6) refl

  -- makeResponse panics on a lease whose gateway parses to an address of IPv6, where it would answer the
  -- lease without the gateway.
  pub make_response_v6_gateway :
      (addr : List ℕ) (resp : Packet)
      → eq_bytes lease.gateway [] ≡ false
      → net.parse_ip lease.gateway ≡ some addr
      → to4 addr ≡ none
      → make_response net constants intf req (some without_gateway) ≡ ok resp
      → make_response net constants intf req (some lease) ≡ panic
  unfolding make_response pointer with_dns with_metadata
  make_response_v6_gateway addr resp there parsed v6 h =
      bind_panics (or_else intf.addrs (wrapped "failed to get interface address: %w")) _ _ resp
        (λ addrs.
          bind_panics
            (not_nil (plain "failed to parse interface address: %w") (last_v4 net none addrs)) _ _
            resp
            λ s_addr.
              bind_panics (not_nil (plain "failed to parse IP: %w") (net.parse_ip lease.ip)) _ _
                resp
                λ your_addr.
                  bind_panics
                    (or_else (net.parse_cidr lease.network) (wrapped "failed to parse network: %w"))
                    _ _ resp
                    λ cidr.
                      bind_panics
                        (with_dns net constants lease
                          (first_options constants cidr.2 (slice (to4 s_addr))))
                        _ _ resp
                        λ with_name.
                          bind_panics (with_metadata net lease (put_option 121 [] with_name)) _ _
                            resp
                            λ with_route h'.
                              rw (gateway_panics addr with_route there parsed v6) refl)
        h
