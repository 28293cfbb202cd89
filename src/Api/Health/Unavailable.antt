-- ===== src/Api/Health/Unavailable.antt =====
-- When the gateway calls itself unavailable (src/api/gateway.rs, `health_check`).
use express402_relayer.Common.{ℕ, Bool, true, false, Option, none, some}
use express402_relayer.Types.Error.{RelayerError, Answer, answered, refused}

-- The status of the response, by whether some wallet is healthy.
abbrev code : Bool → Option RelayerError → Answer ℕ → ℕ
code true (some e) (answered chain_id) = 503
code true (some e) (refused m) = 200
code true none provider = 200
code false database provider = 200
