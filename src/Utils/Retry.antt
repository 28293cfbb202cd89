-- ===== src/Utils/Retry.antt =====
-- src/utils/retry.rs: `RetryHelper`, which calls an operation until it succeeds. `outcomes` gives what the
-- successive calls of the operation answer. Delays are in nanoseconds; `Durations` are the conversions of
-- the standard library, of which `from_secs_f64` panics on a number that is no duration. `render` gives
-- the code points of a formatted message.
mod Stops
mod Defaults
mod Tests
use express402_relayer.Common.{
  ℕ, zero, suc, ◌+◌, ◌%◌, ◌^◌, Bool, true, false, ◌||◌, Option, none, some, String, List, [], ◌∷◌,
  ◌++◌, if◌then◌else◌, any, map,
}
use express402_relayer.Common.Float.{F64}
use express402_relayer.Common.Text.{codes, occurs_in}
use express402_relayer.Types.Error.{
  Message, text, num, RelayerError, config, database, redis, ethereum, signature_verification,
  replay_attack, insufficient_balance, wallet_pool, queue, cache, api, serialization, io, internal,
  network, timeout, validation, display, Result, ok, err, panic,
}

pub record Durations (F : F64) : Type 0 where
  pub as_secs_f64 : ℕ → F.Carrier
  pub from_secs_f64 : F.Carrier → Option ℕ

pub record RetryConfig (F : F64) : Type 0 where
  pub max_retries : ℕ
  pub initial_delay : ℕ
  pub max_delay : ℕ
  pub backoff_multiplier : F.Carrier
  pub retryable_errors : List String

unfoldable pub default_config : (F : F64) → RetryConfig F
default_config F = record {
  max_retries = 3;
  initial_delay = 1_000_000_000;
  max_delay = 60_000_000_000;
  backoff_multiplier = F.decimal 2 0;
  retryable_errors = "network" ∷ "timeout" ∷ "temporary" ∷ [];
}

-- What one call of the operation answers.
pub data Outcome (E T : Type 0) : Type 0 where
  success : T → Outcome E T
  failure : E → Outcome E T

-- How the loop ends: with a value, with the last error, or in a panic.
pub data End (E T : Type 0) : Type 0 where
  done : T → End E T
  gave_up : E → End E T
  panicked : End E T

-- The calls that have been made, the delays that have been slept, and the end.
pub record Run (E T : Type 0) : Type 0 where
  pub calls : ℕ
  pub sleeps : List ℕ
  pub end : End E T

abbrev pub is_empty : List String → Bool
is_empty [] = true
is_empty (x ∷ xs) = false

-- `config.retryable_errors.is_empty() || ...any(|pattern| error_string.contains(pattern))`.
unfoldable pub is_retryable : List String → List ℕ → Bool
unfolding occurs_in any
is_retryable patterns error_string =
    is_empty patterns || any (λ (p : String). occurs_in (codes p) error_string) patterns

module _ (F : F64) (D : Durations F) where
  -- The exponential backoff.
  unfoldable pub next_delay : RetryConfig F → ℕ → Option ℕ
  next_delay c delay =
      D.from_secs_f64
        (F.min (F.mul (D.as_secs_f64 delay) c.backoff_multiplier) (D.as_secs_f64 c.max_delay))

  module _ {E T : Type 0} (error_string : E → List ℕ) where
    abbrev pub after_sleep : ℕ → Run E T → Run E T
    after_sleep delay r = record r { calls = suc r.calls; sleeps = delay ∷ r.sleeps }

    -- The loop over `0..=max_retries`, with the attempts that are left after this one.
    unfoldable pub attempt_from : RetryConfig F → ℕ → ℕ → (ℕ → Outcome E T) → Run E T
    unfolding is_retryable next_delay
    attempt_from c zero delay outcomes = elim (outcomes 0) [
      | success t ↦ record { calls = 1; sleeps = []; end = done t }
      | failure e ↦ record { calls = 1; sleeps = []; end = gave_up e }
    ]
    attempt_from c (suc left) delay outcomes = elim (outcomes 0) [
      | success t ↦ record { calls = 1; sleeps = []; end = done t }
      | failure e ↦ elim (is_retryable c.retryable_errors (error_string e)) [
        | false ↦ record { calls = 1; sleeps = []; end = gave_up e }
        | true ↦ elim (next_delay c delay) [
          | none ↦ record { calls = 1; sleeps = delay ∷ []; end = panicked }
          | some later ↦ after_sleep delay (attempt_from c left later (λ i. outcomes (suc i)))
        ]
      ]
    ]

    unfoldable pub attempt_all : RetryConfig F → (ℕ → Outcome E T) → Run E T
    unfolding attempt_from
    attempt_all c outcomes = attempt_from c c.max_retries c.initial_delay outcomes

  -- The errors of the generic version are wrapped; `show` prints one.
  unfoldable pub wrap_end : {E T : Type 0} → (E → Message) → ℕ → End E T → Result T
  wrap_end show max_retries (done t) = ok t
  wrap_end show max_retries (gave_up e) = err (
      internal (
        text "Operation failed after "
        ∷ num ((max_retries + 1) % 2 ^ 32)
        ∷ text " retries: "
        ∷ show e))
  wrap_end show max_retries panicked = panic

  unfoldable pub retry_with_backoff :
      {E T : Type 0}
      → (E → Message)
      → (Message → List ℕ)
      → RetryConfig F
      → (ℕ → Outcome E T)
      → Result T
  unfolding attempt_all wrap_end
  retry_with_backoff show render c outcomes =
      wrap_end show c.max_retries (attempt_all (λ e. render (show e)) c outcomes).end

  unfoldable pub plain_end : {T : Type 0} → End RelayerError T → Result T
  plain_end (done t) = ok t
  plain_end (gave_up e) = err e
  plain_end panicked = panic

  unfoldable pub retry :
      {T : Type 0} → (Message → List ℕ) → RetryConfig F → (ℕ → Outcome RelayerError T) → Result T
  unfolding attempt_all plain_end
  retry render c outcomes = plain_end (attempt_all (λ e. render (display e)) c outcomes).end

unfoldable pub is_retryable_error : RelayerError → Bool
is_retryable_error (ethereum _) = true
is_retryable_error (database _) = true
is_retryable_error (redis _) = true
is_retryable_error (network _) = true
is_retryable_error (timeout _) = true
is_retryable_error (wallet_pool _) = true
is_retryable_error _ = false

pub record ErrorContext : Type 0 where
  pub operation : String
  pub details : List (String × String)

unfoldable pub new : String → ErrorContext
new operation = record { operation = operation; details = [] }

unfoldable pub add_detail : ErrorContext → String → String → ErrorContext
add_detail c key value = record c { details = c.details ++ (key, value) ∷ [] }

-- The parts after the first, each behind the separator of `join`.
unfoldable pub joined : List (String × String) → Message
joined [] = []
joined ((key, value) ∷ rest) = text ", " ∷ text key ∷ text ": " ∷ text value ∷ joined rest

unfoldable pub format : ErrorContext → Message
unfolding joined
format c = text "Operation: " ∷ text c.operation ∷ joined c.details

unfoldable pub wrap_error : ErrorContext → Message → RelayerError
unfolding format
wrap_error c error = internal (format c ++ text " - " ∷ error)
