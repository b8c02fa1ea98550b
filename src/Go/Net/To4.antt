-- ===== src/Go/Net/To4.antt =====
-- net.IP.To4.
use teleskop.Common.{
  ℕ, Option, none, some, List, [], ◌∷◌, ◌==◌, ◌&&◌, eq_bytes, length, take, drop, if◌then◌else◌,
}

-- The prefix of an IPv4 address in 16 bytes.
abbrev pub v4_prefix : List ℕ
v4_prefix = 0 ∷ 0 ∷ 0 ∷ 0 ∷ 0 ∷ 0 ∷ 0 ∷ 0 ∷ 0 ∷ 0 ∷ 255 ∷ 255 ∷ []

-- The four bytes of an IPv4 address in either length, and none for nil.
unfoldable pub to4 : List ℕ → Option (List ℕ)
to4 ip =
    if length ip == 4
    then some ip
    else if (length ip == 16) && eq_bytes (take 12 ip) v4_prefix
    then some (drop 12 ip)
    else none
