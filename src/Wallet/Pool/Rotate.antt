-- ===== src/Wallet/Pool/Rotate.antt =====
-- Successive acquisitions under the round robin (src/wallet/pool.rs, `acquire_wallet`).
use express402_relayer.Common.{
  ℕ, ◌<◌, ◌≡◌, ◌≢◌, sym, ◌∙◌, ap, inl, inr, true, none, some, ◌==◌, ==_iff, find, find-some, lookup,
  nat_eq, lookup-update, arith,
}
use express402_relayer.Types.Error.{ok, ◌>>=◌, >>=-ok, Result-cases}
use express402_relayer.Common.Float.{F64}
use express402_relayer.Types.Wallet.{WalletInfo}
use express402_relayer.Wallet.Pool.{
  WalletPool, round_robin, select, acquire_wallet, get_next_wallet, update_wallet_usage,
  WalletUsageStats, select_round_robin,
}
use express402_relayer.Wallet.Pool.Select.{is_in, select_round_robin-oldest}

module _ (F : F64) where
  get_next_wallet_inv :
      (p : WalletPool F) (now draw : ℕ) (w : WalletInfo F)
      → get_next_wallet F p now draw ≡ ok (some w)
      → select F p.rotation_strategy p now draw ≡ ok w.address
  unfolding get_next_wallet
  get_next_wallet_inv p now draw w e =
      let chosen : (select F p.rotation_strategy p now draw >>= λ a.
      ok (find (λ (v : WalletInfo F). v.address == a) p.wallets))
          ≡ ok (some w) =
        ground arith in
      let (x, picked, found) = >>=-ok (select F p.rotation_strategy p now draw) _ chosen in
      let there : (w.address == x) ≡ true =
        find-some (λ (v : WalletInfo F). v.address == x) p.wallets w (ground arith) in
      rw ((==_iff w.address x).0 there) picked

  -- What a successful `acquire_wallet` under the round robin selects, and what it leaves behind.
  acquire_wallet_inv :
      (p q : WalletPool F) (now draw used : ℕ) (w : WalletInfo F)
      → p.rotation_strategy ≡ round_robin
      → acquire_wallet F p none now draw used ≡ (q, ok (some w))
      → (select_round_robin p.wallet_usage now p.active_wallets ≡ ok w.address)
        × (q ≡ update_wallet_usage F p w.address used)
  unfolding acquire_wallet select
  acquire_wallet_inv p q now draw used w robin e =
      elim (Result-cases (get_next_wallet F p now draw)) [
        | inl (v, r) ↦
            let found : v ≡ some w = ground arith in
            let picked = get_next_wallet_inv p now draw w (ground arith) in
            (ground arith, ground arith)
        | inr r ↦ absurd (ground arith)
      ]

  usage_after :
      (p : WalletPool F) (a b used : ℕ) (stats : WalletUsageStats)
      → lookup b (update_wallet_usage F p a used).wallet_usage ≡ some stats
      → a ≡ b
      → stats.last_used ≡ used
  unfolding update_wallet_usage
  usage_after p a b used stats e same = ground (
    arith,
    (==_iff a b).1 same,
    lookup-update a b (λ (s : WalletUsageStats). record s { last_used = used }) p.wallet_usage,
  )

  usage_unchanged :
      (p : WalletPool F) (a b used : ℕ)
      → a ≢ b
      → lookup b (update_wallet_usage F p a used).wallet_usage ≡ lookup b p.wallet_usage
  unfolding update_wallet_usage
  usage_unchanged p a b used other = ground (
    arith,
    (==_iff a b).0,
    lookup-update a b (λ (s : WalletUsageStats). record s { last_used = used }) p.wallet_usage,
  )

  -- Under the round robin two acquisitions in a row give two different wallets, as long as some other
  -- active wallet was last used before the first of them, and the clock moves on.
  acquire_wallet-rotates :
      (p q r : WalletPool F) (now draw used now' draw' used' b : ℕ) (w w' : WalletInfo F)
      (sb : WalletUsageStats)
      → p.rotation_strategy ≡ round_robin
      → acquire_wallet F p none now draw used ≡ (q, ok (some w))
      → acquire_wallet F q none now' draw' used' ≡ (r, ok (some w'))
      → is_in p.active_wallets b ≡ true
      → lookup b p.wallet_usage ≡ some sb
      → w.address ≢ b
      → sb.last_used < used
      → used < now'
      → w'.address ≢ w.address
  unfolding update_wallet_usage
  acquire_wallet-rotates p q r now draw used now' draw' used' b w w' sb robin e e' active known
        other before later same =
      let (_, after) = acquire_wallet_inv p q now draw used w robin e in
      let robin' : q.rotation_strategy ≡ round_robin = rw after robin in
      let (picked, _) = acquire_wallet_inv q r now' draw' used' w' robin' e' in
      let active' : is_in q.active_wallets b ≡ true = rw after active in
      let known' : lookup b q.wallet_usage ≡ some sb =
        rw after (usage_unchanged p w.address b used other ∙ known) in
      let (sx, found, _, oldest) =
        select_round_robin-oldest q.wallet_usage now' q.active_wallets w'.address b sb picked
          active' known' (omega arith) in
      let fresh : sx.last_used ≡ used =
        usage_after p w.address w'.address used sx
          (sym (ap (λ (t : WalletPool F). lookup w'.address t.wallet_usage) after) ∙ found)
          (sym same) in
      omega arith
