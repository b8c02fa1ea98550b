-- ===== src/Vm/Uuid.antt =====
-- util.go: the lookup of a domain by the text of its UUID.
pub mod RoundTrip
pub mod Sound
use teleskop.Common.{ℕ, List, replicate}
use teleskop.Go.Action.{Action, lift, wrap_error, ◌>>=◌}
use teleskop.Go.Error.{Outcome, or_else, status, invalid_argument, internal}
use teleskop.Go.Hex.{hex_decode}
use teleskop.Go.Text.{Text, remove_all}
use teleskop.Vm.Libvirt.{Libvirt, Domain}

-- `var uuid libvirt.UUID; hex.Decode(uuid[:], ...)`.
unfoldable pub parse_uuid : Text → Outcome (List ℕ)
parse_uuid uuid_str =
    or_else (hex_decode (replicate 16 0) (remove_all uuid_str b'-'))
      (status invalid_argument "failed to parse uuid string: %+v")

module _ {Host : Type 0} (libvirt : Libvirt Host) where
  unfoldable pub lookup_domain : Text → Action Host Domain
  lookup_domain uuid_str = do
    uuid ← lift (parse_uuid uuid_str)
    wrap_error (libvirt.domain_lookup_by_uuid uuid) (status internal "failed to lookup domain: %+v")
