-- ===== src/Queue/Executor/Panics.antt =====
-- When an execution does not panic (src/queue/executor.rs). The code panics where a `U256` does not
-- fit in 64 bits, and where it indexes an empty slice.
use express402_relayer.Common.{
  ℕ, ◌^◌, ◌<◌, ◌≡◌, ◌≢◌, refl, ◌∙◌, ◌⊎◌, List-cases, inl, inr, Option, none, some, List, [], String,
  length, arith,
}
use express402_relayer.Common.Float.{F64}
use express402_relayer.Common.Uint.{Uint}
use express402_relayer.Types.Error.{
  Message, Answer, answered, refused, Result, ok, err, panic, or_ethereum, ◌>>=◌,
}
use express402_relayer.Types.Transaction.{TransactionRequest}
use express402_relayer.Types.Wallet.{WalletInfo}
use express402_relayer.Utils.Gas.{GasPriceInfo, GasPriceOracle, scale, get_recommended_gas_price}
use express402_relayer.Wallet.Pool.{
  WalletPool, get_next_wallet, acquire_wallet, release_wallet, update_wallet_usage,
}
use express402_relayer.Wallet.Pool.Total.{select-Member}
use express402_relayer.Queue.Scheduler.{ScheduledTask}
use express402_relayer.Queue.Executor.{
  TaskExecutor, Attempt, sign, recommended, choose_fees, send_with_key, execute_transaction, settle,
  with_wallet, execute_task, priority_str,
}

>>=-no_panic {ℓ κ} :
    {A : Type ℓ} {B : Type κ} (m : Result A) (f : A → Result B)
    → m ≢ panic
    → ((a : A) → m ≡ ok a → f a ≢ panic)
    → (m >>= f) ≢ panic
>>=-no_panic (ok a) f h k = k a refl
>>=-no_panic (err e) f h k = λ p. cc
>>=-no_panic panic f h k = absurd (h refl)

or_ethereum-no_panic : (what : String) {A : Type 0} (a : Answer A) → or_ethereum what a ≢ panic
or_ethereum-no_panic what (answered x) e = cc
or_ethereum-no_panic what (refused m) e = cc

sign-no_panic : (a : Answer ℕ) → sign a ≢ panic
sign-no_panic (answered x) e = cc
sign-no_panic (refused m) e = cc

-- The draw of the generator is within the range that it is asked for.
abbrev pub InRange : List ℕ → ℕ → Type 0
InRange addresses draw = (addresses ≡ []) ⊎ (draw < length addresses)

-- The number in an answer, if there is one, fits in 64 bits.
abbrev pub FitsAnswer : Answer ℕ → Type 0
FitsAnswer (answered n) = n < 2 ^ 64
FitsAnswer (refused m) = Unit

-- The answers of the chain that the code converts to 64 bits.
abbrev pub FitsAttempt : Attempt → Type 0
FitsAttempt a = FitsAnswer a.wallet_nonce × FitsAnswer a.chain_id

or_ethereum-fits :
    (what : String) (a : Answer ℕ) (n : ℕ) → FitsAnswer a → or_ethereum what a ≡ ok n → n < 2 ^ 64
or_ethereum-fits what (answered m) n h e = let same : m ≡ n = ground arith in omega arith
or_ethereum-fits what (refused m) n h e = cc

-- The amounts of a request that the code converts to 64 bits.
abbrev pub FitsRequest : TransactionRequest → Type 0
FitsRequest r = (r.gas_limit < 2 ^ 64) × (r.max_fee_per_gas < 2 ^ 64)

module _ (F : F64) where
  get_next_wallet-no_panic :
      (p : WalletPool F) (now draw : ℕ)
      → InRange p.active_wallets draw
      → get_next_wallet F p now draw ≢ panic
  unfolding get_next_wallet
  get_next_wallet-no_panic p now draw h = elim (List-cases p.active_wallets) [
    | inl e ↦ λ q. ground arith
    | inr (a, rest, e) ↦
        let (x, picked, _) =
          select-Member F p.rotation_strategy p now draw (rw e (λ q. cc)) (ground arith) in
        λ q. ground arith
  ]

  acquire_wallet-no_panic :
      (p : WalletPool F) (closed : Option Message) (now draw used : ℕ)
      → InRange p.active_wallets draw
      → ((acquire_wallet F p closed now draw used).1 ≢ panic)
        × ((acquire_wallet F p closed now draw used).0.active_wallets ≡ p.active_wallets)
  unfolding acquire_wallet update_wallet_usage
  acquire_wallet-no_panic p closed now draw used h =
      let calm = get_next_wallet-no_panic p now draw h in (λ q. ground arith, ground arith)

module _ (F : F64) (U : Uint) where
  -- The prices of the oracle that the code converts to 64 bits.
  abbrev pub FitsOracle : Option (GasPriceOracle F U) → Type 0
  FitsOracle none = Unit
  FitsOracle (some o) =
      (o.current_gas_price.max_fee_per_gas < 2 ^ 64)
      × (o.current_gas_price.max_priority_fee_per_gas < 2 ^ 64)
      × (o.max_gas_price < 2 ^ 64)

  -- The recommended price is given, and its fee fits.
  recommended-fits :
      (o : GasPriceOracle F U) (priority : String) (now : ℕ)
      → FitsOracle (some o)
      → (info : GasPriceInfo) × (recommended F U o (get_recommended_gas_price F U o priority now)
          ≡ ok info)
        × (info.max_fee_per_gas < 2 ^ 64)
  unfolding get_recommended_gas_price scale
  recommended-fits o priority now h = rw (U.u64_fits _ h.0, U.u64_fits _ h.1) (_, refl, omega arith)

  choose_fees-no_panic :
      (oracle : Option (GasPriceOracle F U)) (r : TransactionRequest) (now : ℕ)
      → FitsOracle oracle
      → FitsRequest r
      → choose_fees F U oracle r now ≢ panic
  unfolding choose_fees
  choose_fees-no_panic none r now h k = λ q. cc
  choose_fees-no_panic (some o) r now h k =
      let (info, given, fits) = recommended-fits o (priority_str r.priority) now h in
      rw (given, U.u64_fits _ k.1, U.u64_fits _ fits) (λ q. cc)

  send_with_key-no_panic :
      (a : Attempt) (r : TransactionRequest) (fees : ℕ × ℕ) (nonce chain_id : ℕ) (key : Option ℕ)
      → FitsRequest r
      → nonce < 2 ^ 64
      → chain_id < 2 ^ 64
      → send_with_key F U a r fees nonce chain_id key ≢ panic
  unfolding send_with_key
  send_with_key-no_panic a r fees nonce chain_id none h fits_nonce fits_chain = λ q. cc
  send_with_key-no_panic a r fees nonce chain_id (some key) h fits_nonce fits_chain =
      >>=-no_panic (sign (a.signer key)) _ (sign-no_panic (a.signer key)) (λ from e.
        rw (U.u64_fits _ h.0, U.u64_fits _ fits_nonce, U.u64_fits _ fits_chain)
          (or_ethereum-no_panic _ _))

  execute_transaction-no_panic :
      (oracle : Option (GasPriceOracle F U)) (a : Attempt) (r : TransactionRequest)
      (w : WalletInfo F)
      → FitsOracle oracle
      → FitsRequest r
      → FitsAttempt a
      → execute_transaction F U oracle a r w ≢ panic
  unfolding execute_transaction
  execute_transaction-no_panic oracle a r w h k answers =
      >>=-no_panic (or_ethereum "Failed to get wallet nonce: " a.wallet_nonce) _
        (or_ethereum-no_panic _ _)
        (λ nonce e.
          >>=-no_panic (or_ethereum "Failed to get chain ID: " a.chain_id) _
            (or_ethereum-no_panic _ _)
            (λ chain_id e'.
              >>=-no_panic (choose_fees F U oracle r (a.clock 0)) _
                (choose_fees-no_panic oracle r (a.clock 0) h k)
                (λ fees chosen.
                  send_with_key-no_panic a r fees nonce chain_id w.private_key k
                    (or_ethereum-fits _ a.wallet_nonce nonce answers.0 e)
                    (or_ethereum-fits _ a.chain_id chain_id answers.1 e'))))

  -- What an execution keeps of the executor.
  abbrev pub SameWorld : TaskExecutor F U → TaskExecutor F U → Type 0
  SameWorld x y =
      (y.wallet_pool.active_wallets ≡ x.wallet_pool.active_wallets)
      × (y.gas_price_oracle ≡ x.gas_price_oracle)

  settle-no_panic :
      (x : TaskExecutor F U) (a : Attempt) (i address : ℕ) (r : Result String)
      → r ≢ panic
      → ((settle F U x a i address r).1 ≢ panic) × SameWorld x (settle F U x a i address r).0
  unfolding settle release_wallet
  settle-no_panic x a i address (ok hash) h = (λ q. cc, (refl, refl))
  settle-no_panic x a i address (err e) h = (λ q. cc, (refl, refl))
  settle-no_panic x a i address panic h = absurd (h refl)

  with_wallet-no_panic :
      (x : TaskExecutor F U) (a : Attempt) (task : ScheduledTask)
      (w : Result (Option (WalletInfo F)))
      → FitsOracle x.gas_price_oracle
      → FitsRequest task.request
      → FitsAttempt a
      → w ≢ panic
      → ((with_wallet F U x a task w).1 ≢ panic) × SameWorld x (with_wallet F U x a task w).0
  unfolding with_wallet
  with_wallet-no_panic x a task (ok none) h k u n = (λ q. cc, (refl, refl))
  with_wallet-no_panic x a task (ok (some w)) h k u n =
      settle-no_panic x a task.id w.address _
        (execute_transaction-no_panic x.gas_price_oracle a task.request w h k u)
  with_wallet-no_panic x a task (err e) h k u n = (λ q. cc, (refl, refl))
  with_wallet-no_panic x a task panic h k u n = absurd (n refl)

  -- An execution does not panic, if the draw is in its range and the amounts fit.
  pub execute_task-no_panic :
      (x : TaskExecutor F U) (a : Attempt) (task : ScheduledTask)
      → InRange x.wallet_pool.active_wallets a.draw
      → FitsOracle x.gas_price_oracle
      → FitsRequest task.request
      → FitsAttempt a
      → ((execute_task F U x a task).1 ≢ panic) × SameWorld x (execute_task F U x a task).0
  unfolding execute_task
  execute_task-no_panic x a task d h k u =
      let (calm, same) =
        acquire_wallet-no_panic F x.wallet_pool a.closed (a.clock 5) a.draw (a.clock 6) d in
      let acquired : TaskExecutor F U = record x {
        wallet_pool = (acquire_wallet F x.wallet_pool a.closed (a.clock 5) a.draw (a.clock 6)).0;
      } in
      let (calm', kept) = with_wallet-no_panic acquired a task _ h k u calm in
      (calm', (kept.0 ∙ same, kept.1))
