-- ===== src/Dhcp/Routes.antt =====
-- RFC 3442: the classless static routes of option 121, written and read.
use teleskop.Common.{
  ℕ, zero, suc, ◌+◌, ◌/◌, ◌≤◌, ◌≡◌, refl, ap, false, ◌||◌, Option, none, some, List, [], ◌∷◌, ◌++◌,
  arith, length, length-append, take, drop, ltb, if◌then◌else◌, All,
}

pub record Route : Type 0 where
  pub width : ℕ
  pub destination : List ℕ
  pub router : List ℕ

-- The significant bytes of a destination.
abbrev pub significant : ℕ → ℕ
significant width = (width + 7) / 8

abbrev pub with_route : Route → Option (List Route) → Option (List Route)
with_route route none = none
with_route route (some routes) = some (route ∷ routes)

-- As a client reads the option. Each route takes a byte at least, so the number of bytes is fuel enough.
unfoldable pub read_from : ℕ → List ℕ → Option (List Route)
read_from n [] = some []
read_from zero (width ∷ bytes) = none
read_from (suc n) (width ∷ bytes) =
    let k = significant width in
    let rest = read_from n (drop (k + 4) bytes) in
    if ltb 32 width || ltb (length bytes) (k + 4)
    then none
    else with_route
        (record { width = width; destination = take k bytes; router = take 4 (drop k bytes) }) rest

unfoldable pub read_routes : List ℕ → Option (List Route)
read_routes bytes = read_from (length bytes) bytes

abbrev pub routes_bytes : List Route → List ℕ
routes_bytes [] = []
routes_bytes (route ∷ routes) =
    route.width ∷ route.destination ++ (route.router ++ routes_bytes routes)

pub record IsRoute (route : Route) : Type 0 where
  pub narrow : route.width ≤ 32
  pub destination_size : length route.destination ≡ significant route.width
  pub router_size : length route.router ≡ 4

take-append : (n : ℕ) (xs ys : List ℕ) → length xs ≡ n → take n (xs ++ ys) ≡ xs
take-append zero [] ys e = refl
take-append (suc n) [] ys e = ground arith
take-append zero (x ∷ xs) ys e = ground arith
take-append (suc n) (x ∷ xs) ys e = ap (λ t. x ∷ t) (take-append n xs ys (omega arith))

drop-append : (n : ℕ) (xs ys : List ℕ) → length xs ≡ n → drop n (xs ++ ys) ≡ ys
drop-append zero [] ys e = refl
drop-append (suc n) [] ys e = ground arith
drop-append zero (x ∷ xs) ys e = ground arith
drop-append (suc n) (x ∷ xs) ys e = drop-append n xs ys (omega arith)

next_room : (k : ℕ) → suc k + 4 ≡ suc (k + 4)
next_room k = omega arith

drop_both :
    (k : ℕ) (xs ys zs : List ℕ)
    → length xs ≡ k
    → length ys ≡ 4
    → drop (k + 4) (xs ++ (ys ++ zs)) ≡ zs
drop_both zero [] ys zs ex ey = drop-append 4 ys zs ey
drop_both (suc k) [] ys zs ex ey = ground arith
drop_both zero (x ∷ xs) ys zs ex ey = ground arith
drop_both (suc k) (x ∷ xs) ys zs ex ey = rw (next_room k) (drop_both k xs ys zs (omega arith) ey)

length_both : (xs ys zs : List ℕ) → length (xs ++ (ys ++ zs)) ≡ length xs + length ys + length zs
length_both xs ys zs = omega (arith, length-append xs (ys ++ zs), length-append ys zs)

fits : (width k size : ℕ) → width ≤ 32 → k + 4 ≤ size → (ltb 32 width || ltb size (k + 4)) ≡ false
fits width k size narrow room = ground arith

read_from-routes_bytes :
    (n : ℕ) (routes : List Route)
    → All IsRoute routes
    → length (routes_bytes routes) ≤ n
    → read_from n (routes_bytes routes) ≡ some routes
unfolding read_from
read_from-routes_bytes zero [] all h = refl
read_from-routes_bytes (suc n) [] all h = refl
read_from-routes_bytes zero (route ∷ routes) all h = absurd (omega arith)
read_from-routes_bytes (suc n) (route ∷ routes) (r, all) h =
    let rest = routes_bytes routes in
    let size = length_both route.destination route.router rest in
    rw
      (
        fits route.width (significant route.width)
            (length (route.destination ++ (route.router ++ rest))) r.narrow
            (omega (arith, size, r.destination_size, r.router_size)),
        take-append (significant route.width) route.destination (route.router ++ rest)
            r.destination_size,
        drop-append (significant route.width) route.destination (route.router ++ rest)
            r.destination_size,
        take-append 4 route.router rest r.router_size,
        drop_both (significant route.width) route.destination route.router rest r.destination_size
            r.router_size,
        read_from-routes_bytes n routes all (omega (arith, size)),
      )
      refl

-- What is written is read back.
pub read_routes-routes_bytes :
    (routes : List Route) → All IsRoute routes → read_routes (routes_bytes routes) ≡ some routes
unfolding read_routes
read_routes-routes_bytes routes all =
    read_from-routes_bytes (length (routes_bytes routes)) routes all (omega arith)
