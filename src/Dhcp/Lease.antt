-- ===== src/Dhcp/Lease.antt =====
-- The routes that a response gives to a lease.
use teleskop.Common.{
  ℕ, ◌≡◌, ◌≢◌, refl, sym, ap, ◌∙◌, Bool, true, false, Option, none, some, List, [], ◌∷◌, ◌++◌,
  arith, All, length, take, eq_bytes, if◌then◌else◌, append-nil, append_assoc,
}
use teleskop.Dhcp.Packet.{
  Options, put_option, append_option, slice, Packet, Constants, Interface, DhcpLease,
}
use teleskop.Dhcp.Response.{
  not_nil, four, with_dns, with_metadata, with_gateway, first_options, last_v4, make_response,
  pointer,
}
use teleskop.Dhcp.Routes.{Route, IsRoute, routes_bytes, read_routes, read_routes-routes_bytes}
use teleskop.Go.Error.{Error, ok, or_else, plain, wrapped, ◌>>=◌}
use teleskop.Go.Net.{Net}
use teleskop.Go.Net.To4.{to4}
use teleskop.Go.Outcome.{bind-ok, ok_inj}

-- The route of a lease to the metadata address, and its default route: by the text's being empty and
-- by the address that it parses to.
abbrev pub metadata_of : Bool → Option (List ℕ) → List Route
metadata_of false (some addr) =
    record {
      width = 32;
      destination = 169 ∷ 254 ∷ 169 ∷ 254 ∷ [];
      router = take 4 (slice (to4 addr));
    }
    ∷ []
metadata_of _ _ = []

abbrev pub default_of : Bool → Option (List ℕ) → List Route
default_of false (some addr) =
    record { width = 0; destination = []; router = take 4 (slice (to4 addr)) } ∷ []
default_of _ _ = []

abbrev pub lease_routes : Net → DhcpLease → List Route
lease_routes net lease =
    metadata_of (eq_bytes lease.metadata_server []) (net.parse_ip lease.metadata_server)
    ++ default_of (eq_bytes lease.gateway []) (net.parse_ip lease.gateway)

four-ok : (ip bs : List ℕ) → four ip ≡ ok bs → (bs ≡ take 4 ip) × (length bs ≡ 4)
unfolding four
four-ok (a ∷ b ∷ c ∷ d ∷ ip) bs h = rw (sym (ok_inj _ bs h)) (refl, refl)
four-ok [] bs h = cc
four-ok (a ∷ []) bs h = cc
four-ok (a ∷ b ∷ []) bs h = cc
four-ok (a ∷ b ∷ c ∷ []) bs h = cc

-- What option 121 holds, with routes that are well formed.
record Holds (options : Options) (routes : List Route) : Type 0 where
  pub bytes : options 121 ≡ some (routes_bytes routes)
  pub valid : All IsRoute routes

append-121 :
    (bs old : List ℕ) (options : Options)
    → options 121 ≡ some old
    → append_option 121 bs options 121 ≡ some (old ++ bs)
unfolding append_option put_option
append-121 bs old options h = rw h refl

metadata_step :
    (empty : Bool) (found : Option (List ℕ)) (e : Error) (options result : Options)
    → options 121 ≡ some []
    → (if empty
        then ok options
        else not_nil e found >>= λ addr. four (slice (to4 addr)) >>= λ md.
            ok (append_option 121 (32 ∷ 169 ∷ 254 ∷ 169 ∷ 254 ∷ md) options))
      ≡ ok result
    → Holds result (metadata_of empty found)
unfolding not_nil
metadata_step true found e options result old h = record {
  bytes = rw (sym (ok_inj options result h)) old;
  valid = tt;
}
metadata_step false none e options result old h = cc
metadata_step false (some addr) e options result old h =
    let (md, e_md, h') = bind-ok (four (slice (to4 addr))) _ result h in
    let (same, size) = four-ok (slice (to4 addr)) md e_md in
    record {
      bytes =
          rw (sym (ok_inj _ result h'), sym same, append-nil md)
            (append-121 (32 ∷ 169 ∷ 254 ∷ 169 ∷ 254 ∷ md) [] options old);
      valid = (
        record { narrow = omega arith; destination_size = refl; router_size = rw (sym same) size },
        tt,
      );
    }

routes_bytes-append :
    (rs qs : List Route) → routes_bytes (rs ++ qs) ≡ routes_bytes rs ++ routes_bytes qs
routes_bytes-append [] qs = refl
routes_bytes-append (r ∷ rs) qs =
    rw
      (
        routes_bytes-append rs qs,
        append_assoc r.destination (r.router ++ routes_bytes rs) (routes_bytes qs),
        append_assoc r.router (routes_bytes rs) (routes_bytes qs),
      )
      refl

All-append : (rs qs : List Route) → All IsRoute rs → All IsRoute qs → All IsRoute (rs ++ qs)
All-append [] qs hr hq = hq
All-append (r ∷ rs) qs (h, hr) hq = (h, All-append rs qs hr hq)

put-121 :
    (code : ℕ) (bs : List ℕ) (options : Options)
    → code ≢ 121
    → put_option code bs options 121 ≡ options 121
unfolding put_option
put-121 code bs options other = ground arith

gateway_step :
    (empty : Bool) (found : Option (List ℕ)) (e : Error) (code : ℕ) (options result : Options)
    (routes : List Route)
    → code ≢ 121
    → Holds options routes
    → (if empty
        then ok options
        else not_nil e found >>= λ addr. four (slice (to4 addr)) >>= λ gw.
            ok (append_option 121 (0 ∷ gw) (put_option code (slice (to4 addr)) options)))
      ≡ ok result
    → Holds result (routes ++ default_of empty found)
unfolding not_nil
gateway_step true found e code options result routes other old h =
    rw (sym (ok_inj options result h), append-nil routes) old
gateway_step false none e code options result routes other old h = cc
gateway_step false (some addr) e code options result routes other old h =
    let (gw, e_gw, h') = bind-ok (four (slice (to4 addr))) _ result h in
    let (same, size) = four-ok (slice (to4 addr)) gw e_gw in
    let route : Route = record { width = 0; destination = []; router = gw } in
    let is_route : IsRoute route = record {
      narrow = omega arith;
      destination_size = refl;
      router_size = size;
    } in
    rw (sym (ok_inj _ result h'), sym same)
      (record {
        bytes =
            append-121 (0 ∷ gw) (routes_bytes routes) (put_option code (slice (to4 addr)) options)
              (put-121 code (slice (to4 addr)) options other ∙ old.bytes)
            ∙ sym (
                ap some (
                  routes_bytes-append routes (route ∷ [])
                  ∙ ap (λ t. routes_bytes routes ++ 0 ∷ t) (append-nil gw)));
        valid = All-append routes (route ∷ []) old.valid (is_route, tt);
      })

module _ (net : Net) (constants : Constants) (intf : Interface) (req : Packet)
    (lease : DhcpLease) where
  options_lem :
      (options with_route result : Options)
      → constants.opt_routers ≢ 121
      → with_metadata net lease (put_option 121 [] options) ≡ ok with_route
      → with_gateway net constants lease with_route ≡ ok result
      → Holds result (lease_routes net lease)
  unfolding with_metadata with_gateway
  options_lem options with_route result other h1 h2 =
      gateway_step (eq_bytes lease.gateway []) (net.parse_ip lease.gateway) _ constants.opt_routers
        with_route result _ other
        (metadata_step (eq_bytes lease.metadata_server []) (net.parse_ip lease.metadata_server) _
          (put_option 121 [] options) with_route (unfold put_option in refl) h1)
        h2

  -- A client that reads option 121 of a response as RFC 3442 says gets the routes of the lease: to
  -- 169.254.169.254 by the metadata server, and the default route by the gateway, each where the lease
  -- names one; the code of the routers option is not 121.
  pub make_response_routes :
      (resp : Packet)
      → constants.opt_routers ≢ 121
      → make_response net constants intf req (some lease) ≡ ok resp
      → (bytes : List ℕ) × (resp.options 121 ≡ some bytes)
        × (read_routes bytes ≡ some (lease_routes net lease))
  unfolding make_response pointer
  make_response_routes resp other h =
      let (addrs, e1, h1) =
        bind-ok (or_else intf.addrs (wrapped "failed to get interface address: %w")) _ resp h in
      let (s_addr, e2, h2) =
        bind-ok (not_nil (plain "failed to parse interface address: %w") (last_v4 net none addrs)) _
          resp h1 in
      let (your_addr, e3, h3) =
        bind-ok (not_nil (plain "failed to parse IP: %w") (net.parse_ip lease.ip)) _ resp h2 in
      let (cidr, e4, h4) =
        bind-ok (or_else (net.parse_cidr lease.network) (wrapped "failed to parse network: %w")) _
          resp h3 in
      let (with_name, e5, h5) =
        bind-ok (with_dns net constants lease (first_options constants cidr.2 (slice (to4 s_addr))))
          _ resp h4 in
      let (with_route, e6, h6) =
        bind-ok (with_metadata net lease (put_option 121 [] with_name)) _ resp h5 in
      let (options, e7, h7) = bind-ok (with_gateway net constants lease with_route) _ resp h6 in
      let holds = options_lem with_name with_route options other e6 e7 in
      (
        routes_bytes (lease_routes net lease),
        ap (λ (p : Packet). p.options 121) (sym (ok_inj _ resp h7)) ∙ holds.bytes,
        read_routes-routes_bytes (lease_routes net lease) holds.valid,
      )
