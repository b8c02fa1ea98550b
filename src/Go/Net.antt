-- ===== src/Go/Net.antt =====
-- The functions of package net that the agent calls and that this development does not follow into
-- the standard library: parsing and printing of addresses.
pub mod To4
use teleskop.Common.{ℕ, Option, List}
use teleskop.Go.Error.{Outcome}
use teleskop.Go.Text.{Text}

-- An address is the list of its bytes. `parse_ip` returns none for nil.
pub record Net : Type 0 where
  pub parse_ip : Text → Option (List ℕ)
  pub ip_string : List ℕ → Text
  pub parse_mac : Text → Outcome (List ℕ)
  pub mac_string : List ℕ → Text
  -- ParseCIDR: the address, the network's address and its mask.
  pub parse_cidr : Text → Outcome (List ℕ × List ℕ × List ℕ)
  -- IPMask.Size: the number of leading ones.
  pub mask_size : List ℕ → ℕ
