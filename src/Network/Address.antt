-- ===== src/Network/Address.antt =====
-- bridge.go: the address of a bridge's metadata interface.
use teleskop.Api.Requests.{AddBridgeRequest}
use teleskop.Common.{ℕ, Option, none, some, List, if◌then◌else◌}
use teleskop.Go.Error.{Outcome, ok, or_else, ◌>>=◌, status_text, invalid_argument}
use teleskop.Go.Net.{Net}

-- The address and the mask, where the bridge has a metadata interface.
unfoldable pub metadata_address : Net → AddBridgeRequest → Outcome (Option (List ℕ × List ℕ))
metadata_address net req = if req.internal_only then ok none else do
  cidr ←
      or_else (net.parse_cidr req.metadata_cidr)
        λ _. status_text invalid_argument "failed to parse request metadata cidr"
  ok (some (cidr.0, cidr.2))
