-- ===== src/Dhcp/Address.antt =====
-- The address that a response gives as the server's.
use teleskop.Common.{ℕ, ◌≡◌, refl, sym, ap, ◌∙◌, ◌⊎◌, inl, inr, Option, none, some, List, [], ◌∷◌}
use teleskop.Dhcp.Packet.{put_option, slice, Packet, Constants, Interface, DhcpLease}
use teleskop.Dhcp.Response.{
  not_nil, with_dns, with_metadata, with_gateway, first_options, take_v4, last_v4, make_response,
  pointer,
}
use teleskop.Go.Error.{Error, Outcome, ok, err, panic, or_else, plain, wrapped}
use teleskop.Go.Keeps.{or_else-ok}
use teleskop.Go.Net.{Net}
use teleskop.Go.Net.To4.{to4}
use teleskop.Go.Outcome.{bind-ok, ok_inj}
use teleskop.Go.Text.{Text}

-- An address text as an IPv4 address, and those of a list.
abbrev pub v4_bytes : Outcome (List ℕ × List ℕ × List ℕ) → Option (List ℕ)
v4_bytes (ok (ip, network, mask)) = to4 ip
v4_bytes _ = none

abbrev pub add_some : Option (List ℕ) → List (List ℕ) → List (List ℕ)
add_some none ips = ips
add_some (some ip) ips = ip ∷ ips

abbrev pub v4_all : Net → List Text → List (List ℕ)
v4_all net [] = []
v4_all net (addr ∷ addrs) = add_some (v4_bytes (net.parse_cidr addr)) (v4_all net addrs)

-- The last of a list.
pub data IsLast {A : Type 0} (a : A) : List A → Type 0 where
  only : IsLast a (a ∷ [])
  behind : (b : A) (xs : List A) → IsLast a xs → IsLast a (b ∷ xs)

IsLast-add_some :
    (a : List ℕ) (o : Option (List ℕ)) (ips : List (List ℕ))
    → IsLast a ips
    → IsLast a (add_some o ips)
IsLast-add_some a none ips last = last
IsLast-add_some a (some b) ips last = behind b ips last

some_inj : (a b : List ℕ) → some a ≡ some b → a ≡ b
some_inj a b h = cc

-- What one address adds, where no address behind it is of IPv4.
module _ (net : Net) (acc : Option (List ℕ)) (ip : List ℕ) where
  take_v6 :
      (ip' network mask : List ℕ) → to4 ip' ≡ none → take_v4 net acc (ok (ip', network, mask)) ≡ acc
  unfolding take_v4
  take_v6 ip' network mask v6 = rw (v6, take_v4) refl

  take_some :
      (ip' network mask b : List ℕ)
      → to4 ip' ≡ some b
      → take_v4 net acc (ok (ip', network, mask)) ≡ some ip'
  unfolding take_v4
  take_some ip' network mask b v4 = rw (v4, take_v4) refl

  v4_step :
      (ip' network mask : List ℕ) (bytes : Option (List ℕ))
      → to4 ip' ≡ bytes
      → take_v4 net acc (ok (ip', network, mask)) ≡ some ip
      → IsLast (slice (to4 ip)) (add_some bytes []) ⊎ ((add_some bytes [] ≡ []) × (acc ≡ some ip))
  v4_step ip' network mask none v6 h = inr (refl, sym (take_v6 ip' network mask v6) ∙ h)
  v4_step ip' network mask (some b) v4 h =
      inl (rw (some_inj ip ip' (sym h ∙ take_some ip' network mask b v4), v4) only)

  round_step :
      (o : Outcome (List ℕ × List ℕ × List ℕ))
      → take_v4 net acc o ≡ some ip
      → IsLast (slice (to4 ip)) (add_some (v4_bytes o) [])
        ⊎ ((add_some (v4_bytes o) [] ≡ []) × (acc ≡ some ip))
  round_step (ok (ip', network, mask)) h = v4_step ip' network mask (to4 ip') refl h
  round_step (err e) h = inr (refl, unfold take_v4 in h)
  round_step panic h = inr (refl, unfold take_v4 in h)

module _ (net : Net) where
  IsLast-step :
      (acc : Option (List ℕ)) (o : Outcome (List ℕ × List ℕ × List ℕ)) (ip : List ℕ)
      (ips : List (List ℕ))
      → IsLast (slice (to4 ip)) ips ⊎ ((ips ≡ []) × (take_v4 net acc o ≡ some ip))
      → IsLast (slice (to4 ip)) (add_some (v4_bytes o) ips)
        ⊎ ((add_some (v4_bytes o) ips ≡ []) × (acc ≡ some ip))
  IsLast-step acc o ip ips (inl last) = inl (IsLast-add_some _ (v4_bytes o) ips last)
  IsLast-step acc o ip ips (inr (empty, h)) = rw empty (round_step net acc ip o h)

  last_v4-IsLast :
      (addrs : List Text) (acc : Option (List ℕ)) (ip : List ℕ)
      → last_v4 net acc addrs ≡ some ip
      → IsLast (slice (to4 ip)) (v4_all net addrs) ⊎ ((v4_all net addrs ≡ []) × (acc ≡ some ip))
  unfolding last_v4
  last_v4-IsLast [] acc ip h = inr (refl, h)
  last_v4-IsLast (addr ∷ addrs) acc ip h =
      IsLast-step acc (net.parse_cidr addr) ip (v4_all net addrs)
        (last_v4-IsLast addrs (take_v4 net acc (net.parse_cidr addr)) ip h)

  last_v4_lem :
      (addrs : List Text) (ip : List ℕ)
      → last_v4 net none addrs ≡ some ip
      → IsLast (slice (to4 ip)) (v4_all net addrs)
  last_v4_lem addrs ip h = pick (last_v4-IsLast addrs none ip h)
    where
      pick :
          IsLast (slice (to4 ip)) (v4_all net addrs)
            ⊎ ((v4_all net addrs ≡ []) × (◌≡◌ {A = Option (List ℕ)} none (some ip)))
          → IsLast (slice (to4 ip)) (v4_all net addrs)
      pick (inl last) = last
      pick (inr (empty, bad)) = cc

not_nil-ok : (e : Error) (o : Option (List ℕ)) (a : List ℕ) → not_nil e o ≡ ok a → o ≡ some a
unfolding not_nil
not_nil-ok e none a h = cc
not_nil-ok e (some b) a h = ap some (ok_inj b a h)

-- The server address of a response is the last of the IPv4 addresses of the interface.
pub make_response_server :
    (net : Net) (constants : Constants) (intf : Interface) (req : Packet) (lease : DhcpLease)
    (resp : Packet)
    → make_response net constants intf req (some lease) ≡ ok resp
    → (addrs : List Text) × (intf.addrs ≡ ok addrs) × IsLast resp.server_addr (v4_all net addrs)
unfolding make_response pointer
make_response_server net constants intf req lease resp h =
    let (addrs, e1, h1) =
      bind-ok (or_else intf.addrs (wrapped "failed to get interface address: %w")) _ resp h in
    let (s_addr, e2, h2) =
      bind-ok (not_nil (plain "failed to parse interface address: %w") (last_v4 net none addrs)) _
        resp h1 in
    let (your_addr, e3, h3) =
      bind-ok (not_nil (plain "failed to parse IP: %w") (net.parse_ip lease.ip)) _ resp h2 in
    let (cidr, e4, h4) =
      bind-ok (or_else (net.parse_cidr lease.network) (wrapped "failed to parse network: %w")) _
        resp h3 in
    let server = slice (to4 s_addr) in
    let (with_name, e5, h5) =
      bind-ok (with_dns net constants lease (first_options constants cidr.2 server)) _ resp h4 in
    let (with_route, e6, h6) =
      bind-ok (with_metadata net lease (put_option 121 [] with_name)) _ resp h5 in
    let (options, e7, h7) = bind-ok (with_gateway net constants lease with_route) _ resp h6 in
    let same : server ≡ resp.server_addr = ap (λ (p : Packet). p.server_addr) (ok_inj _ resp h7) in
    (
      addrs,
      or_else-ok intf.addrs _ addrs e1,
      rw (sym same) (last_v4_lem net addrs s_addr (not_nil-ok _ _ s_addr e2)),
    )
