-- ===== src/Utils/Retry/Defaults.antt =====
-- What the default configuration retries (src/utils/retry.rs).
use express402_relayer.Common.{
  ℕ, ◌≡◌, refl, ap, ◌∙◌, ◌⊎◌, inl, inr, true, false, not, String, List, [], ◌∷◌, ◌++◌,
}
use express402_relayer.Common.Float.{F64}
use express402_relayer.Common.Text.{codes, occurs_in}
use express402_relayer.Types.Error.{Message, text, RelayerError, network, timeout, display, err}
use express402_relayer.Utils.Retry.{
  Durations, default_config, Outcome, failure, Run, is_retryable, is_retryable_error, attempt_all,
  retry, plain_end,
}
use express402_relayer.Utils.Retry.Stops.{is_final, at_final}

abbrev pub default_patterns : List String
default_patterns = "network" ∷ "timeout" ∷ "temporary" ∷ []

-- The texts "Network error: " and "Timeout error: " hold no part of the patterns, which are in lower case.
network_prefix :
    (s : List ℕ)
    → is_retryable default_patterns (codes "Network error: " ++ s) ≡ is_retryable default_patterns s
unfolding is_retryable occurs_in
network_prefix s = refl

timeout_prefix :
    (s : List ℕ)
    → is_retryable default_patterns (codes "Timeout error: " ++ s) ≡ is_retryable default_patterns s
unfolding is_retryable occurs_in
timeout_prefix s = refl

-- A network error or a timeout.
abbrev pub IsTransient : RelayerError → Message → Type 0
IsTransient e m = (e ≡ network m) ⊎ (e ≡ timeout m)

module _ (render : Message → List ℕ)
    (prints : (s : String) (m : Message) → render (text s ∷ m) ≡ codes s ++ render m) where
  display-is_retryable :
      (e : RelayerError) (m : Message)
      → IsTransient e m
      → is_retryable default_patterns (render m) ≡ false
      → is_retryable default_patterns (render (display e)) ≡ false
  unfolding display
  display-is_retryable e m (inl same) h =
      rw (same, display)
        (ap (is_retryable default_patterns) (prints "Network error: " m)
          ∙ network_prefix (render m)
          ∙ h)
  display-is_retryable e m (inr same) h =
      rw (same, display)
        (ap (is_retryable default_patterns) (prints "Timeout error: " m)
          ∙ timeout_prefix (render m)
          ∙ h)

  transient-is_retryable_error :
      (e : RelayerError) (m : Message) → IsTransient e m → is_retryable_error e ≡ true
  unfolding is_retryable_error
  transient-is_retryable_error e m (inl same) = rw same refl
  transient-is_retryable_error e m (inr same) = rw same refl

  -- Under the default configuration a network error or a timeout is not retried, unless its own text happens
  -- to hold a pattern: the patterns are in lower case and the printed names of the errors are not. The
  -- operation is called once and its error returned, although `is_retryable_error` calls it retryable.
  pub retry-once :
      (F : F64) (D : Durations F) {T : Type 0} (outcomes : ℕ → Outcome RelayerError T)
      (e : RelayerError) (m : Message)
      → IsTransient e m
      → is_retryable default_patterns (render m) ≡ false
      → outcomes 0 ≡ failure e
      → (retry F D render (default_config F) outcomes ≡ err e)
        × ((attempt_all F D (λ x. render (display x)) (default_config F) outcomes).calls ≡ 1)
        × (is_retryable_error e ≡ true)
  unfolding retry attempt_all default_config
  retry-once F D outcomes e m kind quiet fails =
      let final : is_final {T = Unit {0}} default_patterns (λ x. render (display x)) (failure e)
          ≡ true =
        ap not (display-is_retryable e m kind quiet) in
      let stops =
        at_final F D (λ x. render (display x)) (default_config F) 2 1_000_000_000 outcomes
          (failure e) fails final in
      (
        ap (λ (r : Run RelayerError _). plain_end F D r.end) stops,
        ap (λ (r : Run RelayerError _). r.calls) stops,
        transient-is_retryable_error e m kind,
      )
