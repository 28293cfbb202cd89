-- ===== src/Utils/Gas/Bounds.antt =====
-- The prices that the oracle gives, and its history (src/utils/gas.rs).
use express402_relayer.Common.{
  ℕ, ◌+◌, ◌-◌, if◌then◌else◌, ◌%◌, ◌^◌, ◌≤◌, ◌<◌, ◌≡◌, refl, inl, inr, sym, ap, ◌∙◌, Bool, true,
  false, Option, List, [], ◌∷◌, ◌++◌, String, ltb, length, length-append, Bool-cases, arith,
}
use express402_relayer.Common.Float.{F64}
use express402_relayer.Common.Uint.{Uint}
use express402_relayer.Types.Error.{Answer, or_ethereum, Result, ok, err, panic, or_panic, >>=-ok}
use express402_relayer.Utils.Gas.{
  GasPriceInfo, GasPriceSnapshot, GasPriceOracle, Header, remove_first, priority_fee,
  base_fee_or_default, or_missing, scale, multipliers, price_of, store, log_price, keep_price,
  fetch_price, fetch_gas_price, get_recommended_gas_price,
}

length-remove_first {ℓ} : {A : Type ℓ} (xs : List A) → length (remove_first xs) ≡ length xs - 1
length-remove_first [] = omega arith
length-remove_first (x ∷ xs) = omega arith

module _ (F : F64) (U : Uint) where
  -- A price within the configured limits; the tip has only the lower one.
  pub record IsBounded (o : GasPriceOracle F U) (info : GasPriceInfo) : Type 0 where
    pub above : o.min_gas_price ≤ info.max_fee_per_gas
    pub below : info.max_fee_per_gas ≤ o.max_gas_price
    pub tip : o.min_gas_price ≤ info.max_priority_fee_per_gas

  price_of-IsBounded :
      (o : GasPriceOracle F U) (b : ℕ) (fee : Option ℕ) (now : ℕ) (info : GasPriceInfo)
      → o.min_gas_price ≤ o.max_gas_price
      → price_of F U o b fee now ≡ ok info
      → IsBounded o info × (priority_fee ≤ info.max_priority_fee_per_gas)
  unfolding price_of
  price_of-IsBounded o b fee now info h e =
      let (adjusted, _, e₁) =
        >>=-ok (scale F U ((base_fee_or_default fee + priority_fee) % 2 ^ 256) o.multiplier) _ e in
      ground arith

  log_price-same :
      (debug : Bool) (i info : GasPriceInfo) → log_price F U debug i ≡ ok info → i ≡ info
  unfolding log_price
  log_price-same false i info e = ground arith
  log_price-same true i info e =
      let (a, _, e₁) = >>=-ok (or_panic (U.to_u64 i.max_fee_per_gas)) _ e in
      let (b, _, e₂) = >>=-ok (or_panic (U.to_u64 i.max_priority_fee_per_gas)) _ e₁ in
      let (c, _, e₃) = >>=-ok (or_panic (U.to_u64 i.base_fee)) _ e₂ in ground arith

  keep_price_inv :
      (o o' : GasPriceOracle F U) (debug : Bool) (at : ℕ) (r : Result GasPriceInfo)
      (info : GasPriceInfo)
      → keep_price F U o debug at r ≡ (o', ok info)
      → (r ≡ ok info) × (o' ≡ store F U o info at)
  unfolding keep_price
  keep_price_inv o o' debug at (ok i) info e =
      let same : i ≡ info =
        log_price-same debug i info
          (ap (λ (x : GasPriceOracle F U × Result GasPriceInfo). x.1) e) in
      (
        ap ok same,
        sym (ap (λ (x : GasPriceOracle F U × Result GasPriceInfo). x.0) e)
            ∙ ap (λ (x : GasPriceInfo). store F U o x at) same,
      )
  keep_price_inv o o' debug at (err x) info e = absurd (ground arith)
  keep_price_inv o o' debug at panic info e = absurd (ground arith)

  -- What a successful fetch stores: the prices that it returns, as the current ones.
  fetch_inv :
      (o o' : GasPriceOracle F U) (latest : Answer (Option Header)) (g : Answer ℕ) (debug : Bool)
      (now at : ℕ) (info : GasPriceInfo)
      → fetch_gas_price F U o latest g debug now at ≡ (o', ok info)
      → (b : ℕ) × (fee : Option ℕ) × (price_of F U o b fee now ≡ ok info)
        × (o' ≡ store F U o info at)
  unfolding fetch_gas_price fetch_price
  fetch_inv o o' latest g debug now at info e =
      let (fetched, stored) =
        keep_price_inv o o' debug at (fetch_price F U o latest g now) info e in
      let (block, _, e₁) = >>=-ok (or_ethereum "Failed to get latest block: " latest) _ fetched in
      let (header, _, e₂) = >>=-ok (or_missing block "Latest block not found") _ e₁ in
      let (number, _, e₃) = >>=-ok (or_missing header.number "Block number missing") _ e₂ in
      let (b, _, e₄) = >>=-ok (or_panic (U.to_u64 number)) _ e₃ in
      let (price, _, e₅) = >>=-ok (or_ethereum "Failed to get gas price: " g) _ e₄ in
      (b, header.base_fee, e₅, stored)

  -- A history one entry longer is cut back to its bound.
  cut_back :
      (xs : List GasPriceSnapshot) (x : GasPriceSnapshot) (n : ℕ)
      → length xs ≤ n
      → length (if ltb n (length (xs ++ x ∷ [])) then remove_first (xs ++ x ∷ []) else xs ++ x ∷ [])
        ≤ n
  cut_back xs x n h = elim (Bool-cases (ltb n (length (xs ++ x ∷ [])))) [
    | inl long ↦
        rw long (omega (arith, length-append xs (x ∷ []), length-remove_first (xs ++ x ∷ [])))
    | inr short ↦ rw short (ground arith)
  ]

  store-length :
      (o : GasPriceOracle F U) (info : GasPriceInfo) (at : ℕ)
      → length o.gas_price_history ≤ o.max_history_size
      → length (store F U o info at).gas_price_history ≤ (store F U o info at).max_history_size
  unfolding store
  store-length o info at h = cut_back o.gas_price_history _ o.max_history_size h

  -- A fetched price lies within the limits (if these are in order), the tip is at least two gwei and
  -- the lower limit, the price becomes the current one, and the history keeps its bound.
  pub fetch_gas_price-IsBounded :
      (o o' : GasPriceOracle F U) (latest : Answer (Option Header)) (g : Answer ℕ) (debug : Bool)
      (now at : ℕ) (info : GasPriceInfo)
      → o.min_gas_price ≤ o.max_gas_price
      → length o.gas_price_history ≤ o.max_history_size
      → fetch_gas_price F U o latest g debug now at ≡ (o', ok info)
      → IsBounded o info
        × (priority_fee ≤ info.max_priority_fee_per_gas)
        × (o'.current_gas_price ≡ info)
        × (length o'.gas_price_history ≤ o'.max_history_size)
  unfolding store
  fetch_gas_price-IsBounded o o' latest g debug now at info h k e =
      let (b, fee, priced, stored) = fetch_inv o o' latest g debug now at info e in
      let (bounds, tip) = price_of-IsBounded o b fee now info h priced in
      (bounds, tip, rw stored refl, rw stored (store-length o info at k))

  -- A recommended price lies within the limits (if these are in order), whatever the priority says.
  get_recommended_gas_price-IsBounded :
      (o : GasPriceOracle F U) (priority : String) (now : ℕ) (info : GasPriceInfo)
      → o.min_gas_price ≤ o.max_gas_price
      → get_recommended_gas_price F U o priority now ≡ ok info
      → IsBounded o info
  unfolding get_recommended_gas_price
  get_recommended_gas_price-IsBounded o priority now info h e =
      let (fee, _, e₁) =
        >>=-ok (scale F U o.current_gas_price.max_fee_per_gas (multipliers F U priority).0) _ e in
      let (tip, _, e₂) =
        >>=-ok (scale F U o.current_gas_price.max_priority_fee_per_gas (multipliers F U priority).1)
          _ e₁ in
      ground arith

  -- The tip is not held to the upper limit: where that is below two gwei, each fetched price has a tip
  -- above its maximal fee, which the chain refuses.
  fetch_gas_price-tip_above :
      (o o' : GasPriceOracle F U) (latest : Answer (Option Header)) (g : Answer ℕ) (debug : Bool)
      (now at : ℕ) (info : GasPriceInfo)
      → o.max_gas_price < priority_fee
      → fetch_gas_price F U o latest g debug now at ≡ (o', ok info)
      → info.max_fee_per_gas < info.max_priority_fee_per_gas
  unfolding price_of
  fetch_gas_price-tip_above o o' latest g debug now at info h e =
      let (b, fee, priced, _) = fetch_inv o o' latest g debug now at info e in
      let (adjusted, _, e₁) =
        >>=-ok (scale F U ((base_fee_or_default fee + priority_fee) % 2 ^ 256) o.multiplier) _
          priced in
      ground arith
