-- ===== src/Api/Middleware/Tests.antt =====
-- The theorems about the middlewares at concrete requests (src/api/middleware.rs).
use express402_relayer.Common.{none, some, String, List, [], ◌∷◌, ◌≡◌, map, arith}
use express402_relayer.Common.Samples.{fixed}
use express402_relayer.Types.Error.{ok}
use express402_relayer.Api.Middleware.{new, get_stats, Headers}
use express402_relayer.Api.Middleware.Counts.{Passage, IsCount, run, metrics_middleware-counts}

abbrev from_ip : String → Headers
from_ip address = ("x-forwarded-for", some address) ∷ ("user-agent", some "curl") ∷ []

abbrev unreadable : Headers
unreadable = ("x-forwarded-for", none) ∷ ("x-real-ip", some "10.0.0.1") ∷ []

abbrev requests : List Passage
requests =
    record {
      headers = from_ip "10.0.0.7";
      status = 200;
      duration = 3_000_000;
      now = 1;
      then_now = 2;
    }
    ∷ record { headers = unreadable; status = 404; duration = 1_000_000; now = 3; then_now = 4 }
    ∷ record {
      headers = from_ip "10.0.0.7";
      status = 500;
      duration = 2_000_000;
      now = 5;
      then_now = 6;
    }
    ∷ []

metrics_middleware-counts_example :
    IsCount fixed (get_stats fixed (run new requests).0) requests
    × ((run new requests).1 ≡ map (λ (p : Passage). ok p.status) requests)
metrics_middleware-counts_example = metrics_middleware-counts fixed requests (omega arith)
