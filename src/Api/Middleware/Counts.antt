-- ===== src/Api/Middleware/Counts.antt =====
-- What the counters of the middlewares sum to (src/api/middleware.rs, `metrics_middleware` and `get_stats`).
use express402_relayer.Common.{
  ℕ, suc, ◌+◌, ◌^◌, ◌<◌, ◌≡◌, refl, ap, ◌∙◌, sym, subst, Bool, true, false, String, List, [], ◌∷◌,
  if◌then◌else◌, length, count_if, map, ltb, string_eq, arith,
}
use express402_relayer.Common.Float.{F64}
use express402_relayer.Types.Error.{Result, ok}
use express402_relayer.Api.Middleware.{
  MiddlewareManager, new, store, record_error, respond, values, MiddlewareStats, get_stats, Headers,
  extract_identifier, is_success, metrics_middleware,
}
use express402_relayer.Api.Middleware.Sums.{
  sum_from-sum, total, successes, failures, errors, stored, Sums, record_request-stored,
  stored-Sums, record_error-sum, sum,
}

-- A request that passes the middleware.
pub record Passage : Type 0 where
  pub headers : Headers
  pub status : ℕ
  pub duration : ℕ
  pub now : ℕ
  pub then_now : ℕ

abbrev pub succeeded : Passage → Bool
succeeded p = is_success p.status

abbrev passage : MiddlewareManager → Passage → MiddlewareManager × Result ℕ
passage m p = metrics_middleware m p.headers p.status p.duration p.now p.then_now

unfoldable pub run : MiddlewareManager → List Passage → MiddlewareManager × List (Result ℕ)
run m [] = (m, [])
run m (p ∷ rest) =
    let (m', answer) = metrics_middleware m p.headers p.status p.duration p.now p.then_now in
    let (end, answers) = run m' rest in (end, answer ∷ answers)

counted-Sums :
    (success : Bool) (m : MiddlewareManager) (i : String) (status now n k : ℕ)
    → sum total (values m.request_counters) ≡ n + 1
    → sum successes (values m.request_counters) ≡ (if success then k + 1 else k)
    → sum failures (values m.request_counters) + (if success then k + 1 else k) ≡ n + 1
    → sum errors (values m.error_counters) + k ≡ n
    → n + 1 < 2 ^ 64
    → Sums
        (if success then m else record_error m i status now)
        (n + 1)
        (if success then k + 1 else k)
unfolding record_error
counted-Sums true m i status now n k t g b e small = record {
  requests = t;
  good = g;
  bad = b;
  failed = omega arith;
}
counted-Sums false m i status now n k t g b e small = record {
  requests = t;
  good = g;
  bad = b;
  failed = omega (arith, record_error-sum m i status now (omega arith));
}

passage-recorded :
    (m : MiddlewareManager) (p : Passage) (n k : ℕ)
    → Sums m n k
    → n + 1 < 2 ^ 64
    → passage m p
      ≡ respond (extract_identifier p.headers) p.status p.then_now (
        store
            (extract_identifier p.headers)
            (stored m (extract_identifier p.headers) (succeeded p) p.duration p.now)
            m,
        ok tt,
      )
unfolding metrics_middleware
passage-recorded m p n k v small =
    let i = extract_identifier p.headers in
    ap (respond i p.status p.then_now)
      (record_request-stored m i (succeeded p) p.duration p.now n v.requests small)

passage-Sums :
    (m : MiddlewareManager) (p : Passage) (n k : ℕ)
    → Sums m n k
    → n + 1 < 2 ^ 64
    → Sums (passage m p).0 (n + 1) (if succeeded p then k + 1 else k)
      × ((passage m p).1 ≡ ok p.status)
unfolding respond
passage-Sums m p n k v small =
    let i = extract_identifier p.headers in
    let m' = store i (stored m i (succeeded p) p.duration p.now) m in
    let sums = stored-Sums m i (succeeded p) p.duration p.now n k v small in
    subst (λ r. Sums r.0 (n + 1) (if succeeded p then k + 1 else k) × (r.1 ≡ ok p.status))
      (sym (passage-recorded m p n k v small))
      (
        counted-Sums (succeeded p) m' i p.status p.then_now n k sums.0 sums.1 sums.2 v.failed small,
        refl,
      )

recount : (m : MiddlewareManager) {n k n' k' : ℕ} → Sums m n k → n ≡ n' → k ≡ k' → Sums m n' k'
recount m v e f = record {
  requests = omega (arith, v.requests);
  good = omega (arith, v.good);
  bad = omega (arith, v.bad);
  failed = omega (arith, v.failed);
}

tally : (b : Bool) (k n : ℕ) → (if b then k + 1 else k) + n ≡ k + (if b then suc n else n)
tally true k n = omega arith
tally false k n = refl

run-Sums :
    (m : MiddlewareManager) (ps : List Passage) (n k : ℕ)
    → Sums m n k
    → n + length ps < 2 ^ 64
    → Sums (run m ps).0 (n + length ps) (k + count_if succeeded ps)
      × ((run m ps).1 ≡ map (λ p. ok p.status) ps)
unfolding run count_if
run-Sums m [] n k v small = (recount m v (omega arith) (omega arith), refl)
run-Sums m (p ∷ ps) n k v small =
    let here = passage-Sums m p n k v (omega arith) in
    let later =
      run-Sums (passage m p).0 ps (n + 1) (if succeeded p then k + 1 else k) here.0 (omega arith) in
    (
      recount (run (passage m p).0 ps).0 later.0 (omega arith)
          (tally (succeeded p) k (count_if succeeded ps)),
      ap (λ a. a ∷ (run (passage m p).0 ps).1) here.1 ∙ ap (λ r. ok p.status ∷ r) later.1,
    )

module _ (F : F64) where
  -- The statistics after requests, as their list has them.
  abbrev pub IsCount : MiddlewareStats F → List Passage → Type 0
  IsCount stats ps =
      (stats.total_requests ≡ length ps)
      × (stats.total_successful ≡ count_if succeeded ps)
      × (stats.total_failed + count_if succeeded ps ≡ length ps)
      × (stats.total_errors ≡ stats.total_failed)
      × (stats.success_rate ≡ (
          if ltb 0 (length ps)
          then F.div (F.of_u64 (count_if succeeded ps)) (F.of_u64 (length ps))
          else F.decimal 0 0))

  Sums-IsCount :
      (m : MiddlewareManager) (ps : List Passage)
      → Sums m (length ps) (count_if succeeded ps)
      → length ps < 2 ^ 64
      → IsCount (get_stats F m) ps
  unfolding get_stats
  Sums-IsCount m ps v small =
      let t = sum_from-sum total 0 (values m.request_counters) (omega (arith, v.requests)) in
      let g = sum_from-sum successes 0 (values m.request_counters) (omega (arith, v.good, v.bad)) in
      let b = sum_from-sum failures 0 (values m.request_counters) (omega (arith, v.bad)) in
      let e = sum_from-sum errors 0 (values m.error_counters) (omega (arith, v.failed)) in
      let requests : (get_stats F m).total_requests ≡ length ps = omega (arith, t, v.requests) in
      let good : (get_stats F m).total_successful ≡ count_if succeeded ps =
        omega (arith, g, v.good) in
      (
        requests,
        good,
        omega (arith, b, v.bad),
        omega (arith, b, e, v.bad, v.failed),
        rw (requests, good) refl,
      )

  -- After any requests that went through the middleware of new counters, fewer than 2 ^ 64, each got the status
  -- of its response, and the statistics are those of the list of the requests: how many there were, how many
  -- succeeded and failed, an error for each that failed, and the quotient as the rate of success.
  pub metrics_middleware-counts :
      (ps : List Passage)
      → length ps < 2 ^ 64
      → IsCount (get_stats F (run new ps).0) ps × ((run new ps).1 ≡ map (λ p. ok p.status) ps)
  unfolding new
  metrics_middleware-counts ps small =
      let v =
        run-Sums new ps 0 0 (record { requests = refl; good = refl; bad = refl; failed = refl })
          (omega arith) in
      (
        Sums-IsCount (run new ps).0 ps (recount (run new ps).0 v.0 (omega arith) (omega arith))
            small,
        v.1,
      )
