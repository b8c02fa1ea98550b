-- ===== src/Vm/Uuid/Sound.antt =====
-- The texts that the lookup of a domain takes for a UUID, and the texts on which it panics.
use teleskop.Common.{
  ℕ, ◌≡◌, ◌≤◌, ◌<◌, refl, List, [], ◌∷◌, ◌++◌, All, arith, length, drop, replicate,
}
use teleskop.Go.Error.{ok, panic}
use teleskop.Go.Hex.{hex_text}
use teleskop.Go.Hex.Print.{IsByte, hex_decode_overflow}
use teleskop.Go.Hex.Sound.{Reads, hex_decode-Reads}
use teleskop.Go.Keeps.{or_else-ok}
use teleskop.Go.Text.{Text, remove_all}
use teleskop.Vm.Uuid.{parse_uuid}

overwrite-length :
    (bytes dst : List ℕ)
    → length bytes ≤ length dst
    → length (bytes ++ drop (length bytes) dst) ≡ length dst
overwrite-length [] dst h = refl
overwrite-length (b ∷ bytes) [] h = absurd (omega arith)
overwrite-length (b ∷ bytes) (d ∷ dst) h = omega (arith, overwrite-length bytes dst (omega arith))

-- Whatever text domainLookupByUUID accepts, the UUID has 16 bytes: without its dashes the text is, in
-- lower case, the print of at most 16 bytes, which the UUID starts with; its other bytes are zero.
pub parse_uuid-Reads :
    (s : Text) (uuid : List ℕ)
    → parse_uuid s ≡ ok uuid
    → (length uuid ≡ 16) × Reads (replicate 16 0) (remove_all s b'-') uuid
unfolding parse_uuid
parse_uuid-Reads s uuid h =
    let reads =
      hex_decode-Reads (replicate 16 0) (remove_all s b'-') uuid (or_else-ok _ _ uuid h) in
    (rw reads.result (overwrite-length reads.bytes (replicate 16 0) reads.fits), reads)

-- domainLookupByUUID panics on a text that is, without its dashes, the print of more than 16 bytes.
pub parse_uuid_overflow :
    (bytes : List ℕ) (s : Text)
    → All IsByte bytes
    → 16 < length bytes
    → remove_all s b'-' ≡ hex_text bytes
    → parse_uuid s ≡ panic
unfolding parse_uuid
parse_uuid_overflow bytes s valid long dashes =
    rw (dashes, hex_decode_overflow (replicate 16 0) bytes valid long) refl
