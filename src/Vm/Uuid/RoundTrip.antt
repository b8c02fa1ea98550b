-- ===== src/Vm/Uuid/RoundTrip.antt =====
-- The text that a handler prints for a UUID, read back by the lookup.
use teleskop.Common.{
  ℕ, ◌≡◌, refl, sym, ap, List, [], ◌∷◌, append-nil, All, arith, length, replicate,
}
use teleskop.Go.Error.{ok}
use teleskop.Go.Hex.{hex_digit, hex_text}
use teleskop.Go.Hex.Print.{IsByte, hex_decode-hex_text}
use teleskop.Go.Text.{Text, remove_all}
use teleskop.Vm.Uuid.{parse_uuid}

remove_all-hex_text : (bytes : List ℕ) → remove_all (hex_text bytes) b'-' ≡ hex_text bytes
unfolding remove_all hex_text hex_digit
remove_all-hex_text [] = refl
remove_all-hex_text (b ∷ bytes) = ground (arith, remove_all-hex_text bytes)

-- domainLookupByUUID reads the 32 printed hex digits of the 16 bytes of a UUID as that UUID, whatever
-- dashes stand among them.
pub parse_uuid_print :
    (uuid : List ℕ) (s : Text)
    → All IsByte uuid
    → length uuid ≡ 16
    → remove_all s b'-' ≡ hex_text uuid
    → parse_uuid s ≡ ok uuid
unfolding parse_uuid
parse_uuid_print uuid s valid size dashes =
    rw (dashes, hex_decode-hex_text uuid (replicate 16 0) [] valid (sym size))
      (ap ok (append-nil uuid))
