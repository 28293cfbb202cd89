-- ===== src/Queue/Tracker/Reached.antt =====
-- The trackers that calls can reach (src/queue/tracker.rs): each hash has one entry.
use express402_relayer.Common.{
  ℕ, ◌≡◌, inl, inr, none, List, [], ◌∷◌, String, Map, Unique, lookup, string_eq, insert-Unique,
  remove-Unique, update-Unique, ltb, Bool-cases, arith,
}
use express402_relayer.Types.Error.{Result-cases}
use express402_relayer.Queue.Tracker.{
  check_transaction, PendingTransaction, TransactionTracker, TransactionCheckResult, pending,
  processing, confirmed, failed, Environment, StatusUpdate, Progress, new, add_transaction, finish,
  touch, touch_entry, settle, visit, visit_all, process_pending_transactions, remove_transaction,
}
use express402_relayer.Queue.Tracker.Rounds.{entries, swept, process_pending_transactions-lookup}

-- The calls that change the tracker.
pub data Call : Type 0 where
  adds : ℕ → String → ℕ → ℕ → Call
  removes : String → Call
  polls : Environment → Call

unfoldable pub step : TransactionTracker → Call → TransactionTracker
step t (adds id tx_hash submitted last_checked) =
    add_transaction t id tx_hash submitted last_checked
step t (removes tx_hash) = (remove_transaction t tx_hash).0
step t (polls env) = (process_pending_transactions env t).tracker

unfoldable pub run : TransactionTracker → List Call → TransactionTracker
unfolding step
run t [] = t
run t (c ∷ cs) = run (step t c) cs

module _ (env : Environment) (h : String) where
  finish-Unique :
      (change : StatusUpdate) (r : Progress)
      → Unique (entries r)
      → Unique (entries (finish env h change r))
  unfolding finish
  finish-Unique change r u = ground (arith, u, remove-Unique h (entries r) u)

  touch_entry-Unique : (r : Progress) → Unique (entries r) → Unique (entries (touch_entry env h r))
  unfolding touch_entry
  touch_entry-Unique r u = update-Unique h (touch (env.now h)) (entries r) u

  settle-Unique :
      (p : PendingTransaction) (result : TransactionCheckResult) (r : Progress)
      → Unique (entries r)
      → Unique (entries (settle env h p result r))
  unfolding settle
  settle-Unique p (confirmed b g c) r u = finish-Unique _ _ u
  settle-Unique p (failed b g) r u = finish-Unique _ _ u
  settle-Unique p (processing b c q) r u =
      ground (arith, u, update-Unique h (touch (env.now h)) (entries r) u)
  settle-Unique p pending r u = touch_entry-Unique r u

  visit-Unique :
      (p : PendingTransaction) (r : Progress)
      → Unique (entries r)
      → Unique (entries (visit env h p r))
  unfolding visit
  visit-Unique p r u = elim (Bool-cases (ltb (env.elapsed p) r.tracker.check_interval)) [
    | inl soon ↦ rw (soon, visit) u
    | inr due ↦ elim (Result-cases (check_transaction env r.tracker h)) [
      | inl (result, e) ↦ rw (due, e, visit) (settle-Unique p result _ u)
      | inr (inl (error, e)) ↦ rw (due, e, visit) u
      | inr (inr e) ↦ rw (due, e, visit) u
    ]
  ]

visit_all-Unique :
    (env : Environment) (m : Map String PendingTransaction) (r : Progress)
    → Unique (entries r)
    → Unique (entries (visit_all env m r))
unfolding visit_all
visit_all-Unique env [] r u = u
visit_all-Unique env ((h, p) ∷ m) r u =
    visit_all-Unique env m (visit env h p r) (visit-Unique env h p r u)

step-Unique :
    (t : TransactionTracker) (c : Call)
    → Unique t.pending_transactions
    → Unique (step t c).pending_transactions
unfolding step add_transaction remove_transaction process_pending_transactions
step-Unique t (adds id h a b) u = insert-Unique h _ t.pending_transactions u
step-Unique t (removes h) u = remove-Unique h t.pending_transactions u
step-Unique t (polls env) u = visit_all-Unique env t.pending_transactions _ u

run-Unique :
    (t : TransactionTracker) (cs : List Call)
    → Unique t.pending_transactions
    → Unique (run t cs).pending_transactions
unfolding run
run-Unique t [] u = u
run-Unique t (c ∷ cs) u = run-Unique (step t c) cs (step-Unique t c u)

-- Whatever calls were made on a new tracker, a further round of polling does to each entry what
-- `remains` says of that entry alone, and no other entry appears.
run-lookup :
    (check_interval confirmation_blocks : ℕ) (cs : List Call) (env : Environment) (j : String)
    → lookup j (
        entries
          (process_pending_transactions env (run (new check_interval confirmation_blocks) cs)))
      ≡ swept env
          (run (new check_interval confirmation_blocks) cs)
          j
          (lookup j (run (new check_interval confirmation_blocks) cs).pending_transactions)
          none
unfolding new
run-lookup check_interval confirmation_blocks cs env j =
    process_pending_transactions-lookup env (run (new check_interval confirmation_blocks) cs) j
      (run-Unique (new check_interval confirmation_blocks) cs tt)
