-- ===== src/Queue/Tracker/Rounds.antt =====
-- What a round of polling leaves in the tracker (src/queue/tracker.rs,
-- `process_pending_transactions`), and when a transaction counts as confirmed.
use express402_relayer.Common.{
  ◌+◌, ◌≡◌, refl, ◌∙◌, inl, inr, Option, none, some, [], ◌∷◌, String, ltb, if◌then◌else◌, Map,
  Unique, lookup, string_eq, lookup-remove, lookup-update, Bool-cases, arith,
}
use express402_relayer.Types.Error.{ok, Result-cases}
use express402_relayer.Queue.Tracker.{
  PendingTransaction, TransactionTracker, TransactionCheckResult, pending, processing, confirmed,
  failed, Environment, check_transaction, Progress, Progress, ProcessResult, StatusUpdate, finish,
  touch, settle, visit, visit_all, process_pending_transactions,
}

-- What a round makes of an entry: a skipped entry and one whose check fails stay as they are; a final
-- verdict removes the entry if the database took it; otherwise the check is counted.
abbrev pub kept :
    Environment → String → PendingTransaction → TransactionCheckResult → Option PendingTransaction
kept env tx_hash p (confirmed b g c) = elim (env.database_error tx_hash) [
  | none ↦ none
  | some e ↦ some p
]
kept env tx_hash p (failed b g) = elim (env.database_error tx_hash) [
  | none ↦ none
  | some e ↦ some p
]
kept env tx_hash p (processing b c r) = some (touch (env.now tx_hash) p)
kept env tx_hash p pending = some (touch (env.now tx_hash) p)

abbrev pub remains :
    Environment → TransactionTracker → String → PendingTransaction → Option PendingTransaction
remains env t tx_hash p =
    if ltb (env.elapsed p) t.check_interval
    then some p
    else elim (check_transaction env t tx_hash) [
      | ok result ↦ kept env tx_hash p result
      | _ ↦ some p
    ]

-- The entries of a round in progress.
abbrev pub entries : Progress → Map String PendingTransaction
entries r = r.tracker.pending_transactions

-- The settings of the tracker `t`, which no step of a round changes.
abbrev SameSettings : TransactionTracker → Progress → Type 0
SameSettings t r =
    (r.tracker.check_interval ≡ t.check_interval)
    × (r.tracker.confirmation_blocks ≡ t.confirmation_blocks)

module _ (env : Environment) (h j : String) (p : PendingTransaction) where
  finish-lookup :
      (change : StatusUpdate) (r : Progress)
      → lookup h (entries r) ≡ some p
      → lookup j (entries (finish env h change r)) ≡ (
          if string_eq.beq h j
          then elim (env.database_error h) [ none ↦ none | some e ↦ some p ]
          else lookup j (entries r))
  unfolding finish
  finish-lookup change r there =
      ground (arith, lookup-remove h j (entries r), string_eq.beq_iff h j)

  settle-lookup :
      (result : TransactionCheckResult) (r : Progress)
      → lookup h (entries r) ≡ some p
      → lookup j (entries (settle env h p result r))
        ≡ (if string_eq.beq h j then kept env h p result else lookup j (entries r))
  unfolding settle
  settle-lookup (confirmed b g c) r there = finish-lookup _ _ there
  settle-lookup (failed b g) r there = finish-lookup _ _ there
  settle-lookup (processing b c q) r there =
      ground (arith, lookup-update h j (touch (env.now h)) (entries r), string_eq.beq_iff h j)
  settle-lookup pending r there =
      ground (arith, lookup-update h j (touch (env.now h)) (entries r), string_eq.beq_iff h j)

  -- `check_transaction` reads nothing but the number of confirmations wanted.
  check_transaction-cong :
      (s t : TransactionTracker)
      → s.confirmation_blocks ≡ t.confirmation_blocks
      → check_transaction env s h ≡ check_transaction env t h
  unfolding check_transaction
  check_transaction-cong s t e = rw e

  processed_one : Progress → Progress
  processed_one r = record r { result = record q { processed = q.processed + 1 } }
    where
      q : ProcessResult
      q = r.result

  visit-lookup :
      (t : TransactionTracker) (r : Progress)
      → SameSettings t r
      → lookup h (entries r) ≡ some p
      → lookup j (entries (visit env h p r))
        ≡ (if string_eq.beq h j then remains env t h p else lookup j (entries r))
  unfolding visit processed_one
  visit-lookup t r same there = elim (Bool-cases (ltb (env.elapsed p) t.check_interval)) [
    | inl early ↦ ground (arith, string_eq.beq_iff h j)
    | inr due ↦ elim (Result-cases (check_transaction env t h)) [
      | inl (result, e) ↦ ground (
        arith,
        check_transaction-cong r.tracker t same.1,
        settle-lookup result (processed_one r) there,
      )
      | inr e ↦ ground (arith, check_transaction-cong r.tracker t same.1, string_eq.beq_iff h j)
    ]
  ]

  visit-settings :
      (t : TransactionTracker) (r : Progress) → SameSettings t r → SameSettings t (visit env h p r)
  unfolding visit
  visit-settings t r same = ground arith

-- What the loop makes of the entry of `j`.
abbrev pub swept :
    Environment
    → TransactionTracker
    → String
    → Option PendingTransaction
    → Option PendingTransaction
    → Option PendingTransaction
swept env t j none now = now
swept env t j (some p) now = remains env t j p

AllThere : Progress → Map String PendingTransaction → Type 0
AllThere r m =
    (k : String) (p : PendingTransaction) → lookup k m ≡ some p → lookup k (entries r) ≡ some p

visit_all-lookup :
    (env : Environment) (t : TransactionTracker) (j : String) (m : Map String PendingTransaction)
    (r : Progress)
    → SameSettings t r
    → Unique m
    → AllThere r m
    → lookup j (entries (visit_all env m r)) ≡ swept env t j (lookup j m) (lookup j (entries r))
unfolding visit_all lookup AllThere
visit_all-lookup env t j [] r same u there = refl
visit_all-lookup env t j ((h, p) ∷ m) r same u there =
    let first : lookup h (entries r) ≡ some p = there h p (ground (arith, string_eq.beq_iff h h)) in
    visit_all-lookup env t j m (visit env h p r) (visit-settings env h j p t r same) u.1 (λ k q e.
      ground (arith, there k q, visit-lookup env h k p t r same first, string_eq.beq_iff h k, u.0))
    ∙ ground (arith, visit-lookup env h j p t r same first, string_eq.beq_iff h j, u.0)

-- A round of polling does to each entry what `remains` says of that entry alone: it is untouched if
-- it was checked too recently or its check fails, it is dropped exactly if the verdict is final and
-- the database takes it, and otherwise its check is counted. No other entry appears. (Each hash has
-- one entry.)
pub process_pending_transactions-lookup :
    (env : Environment) (t : TransactionTracker) (j : String)
    → Unique t.pending_transactions
    → lookup j (entries (process_pending_transactions env t))
      ≡ swept env t j (lookup j t.pending_transactions) none
unfolding process_pending_transactions AllThere
process_pending_transactions-lookup env t j u =
    visit_all-lookup env t j t.pending_transactions start (refl, refl) u (λ k p e. e) ∙ ground arith
  where
    start : Progress
    start = record {
      tracker = t;
      result = record { processed = 0; confirmed = 0; failed = 0; errors = 0; pending_count = 0 };
      updates = [];
    }
