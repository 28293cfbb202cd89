-- ===== src/Utils/Retry/Tests.antt =====
-- The theorems about retries at concrete operations (src/utils/retry.rs).
use express402_relayer.Common.{
  ℕ, zero, suc, ◌*◌, ◌/◌, ◌<◌, ◌≡◌, refl, inl, inr, true, false, some, List, [], ◌∷◌, ◌++◌, length,
  arith,
}
use express402_relayer.Common.Samples.{fixed}
use express402_relayer.Common.Text.{codes, occurs_in}
use express402_relayer.Types.Error.{
  Piece, Message, text, num, debug, printed, RelayerError, network, display, err,
}
use express402_relayer.Utils.Retry.{
  Durations, default_config, Outcome, success, failure, done, is_retryable, next_delay, attempt_all,
  retry, is_retryable_error,
}
use express402_relayer.Utils.Retry.Stops.{attempt_all-stops, is_final}
use express402_relayer.Utils.Retry.Defaults.{default_patterns, retry-once}

abbrev durations : Durations fixed
durations = record { as_secs_f64 = λ n. n / 1_000_000; from_secs_f64 = λ x. some (x * 1_000_000) }

abbrev piece_codes : Piece → List ℕ
piece_codes (text s) = codes s
piece_codes (num n) = []
piece_codes (debug n) = []
piece_codes (printed s) = codes s

abbrev render : Message → List ℕ
render [] = []
render (p ∷ m) = piece_codes p ++ render m

abbrev flaky : ℕ → Outcome RelayerError ℕ
flaky zero = failure (network (text "network down" ∷ []))
flaky (suc i) = success 7

abbrev refusing : ℕ → Outcome RelayerError ℕ
refusing i = failure (network (text "connection refused" ∷ []))

flaky_first :
    (i : ℕ) → i < 1 → is_final default_patterns (λ x. render (display x)) (flaky i) ≡ false
unfolding is_retryable occurs_in display
flaky_first zero h = refl
flaky_first (suc i) h = absurd (omega arith)

attempt_all-stops_example :
    ((attempt_all fixed durations (λ x. render (display x)) (default_config fixed) flaky).calls ≡ 2)
    × (length
          (attempt_all fixed durations
            (λ x. render (display x))
            (default_config fixed)
            flaky).sleeps
        ≡ 1)
    × ((attempt_all fixed durations (λ x. render (display x)) (default_config fixed) flaky).end
        ≡ done 7)
unfolding default_config next_delay
attempt_all-stops_example =
    attempt_all-stops fixed durations (λ x. render (display x)) 1 (default_config fixed) flaky
      (omega arith) (λ d. (_, refl)) flaky_first (inr refl)

quiet : is_retryable default_patterns (render (text "connection refused" ∷ [])) ≡ false
unfolding is_retryable occurs_in
quiet = refl

retry-once_example :
    (retry fixed durations render (default_config fixed) refusing
      ≡ err (network (text "connection refused" ∷ [])))
    × ((attempt_all fixed durations (λ x. render (display x)) (default_config fixed) refusing).calls
        ≡ 1)
    × (is_retryable_error (network (text "connection refused" ∷ [])) ≡ true)
retry-once_example =
    retry-once render (λ s m. refl) fixed durations refusing
      (network (text "connection refused" ∷ [])) (text "connection refused" ∷ []) (inl refl) quiet
      refl
