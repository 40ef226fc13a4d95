-- ===== src/Indexer/Finality/Reconcile.antt =====
-- A sync: the reconciliation with the source, then the loop, from any chain.
use pactum.Prelude.{
  ℕ, ◌+◌, ◌≤◌, ◌≡◌, refl, ap, ◌∙◌, inl, inr, ◌⊎◌, [], true, Option, none, some, Option-cases,
  Bool-cases, text_eq→eq, arith,
}
use pactum.Prelude.Results.{Result, ok, err}
use pactum.Prelude.Js.{nat_key}
use pactum.Indexer.Types.{LedgerCheckpoint, LedgerSource}
use pactum.Indexer.Store.{IndexerStore, rollback_to, delete_above}
use pactum.Indexer.Store.Chain.{IsChain}
use pactum.Indexer.Store.Rollback.{
  rollback_zero, rollback_stored, positive, cleared-IsChain, shortened-IsChain,
}
use pactum.Indexer.Finality.{
  min, FinalityIndexer, SyncError, SyncResult, Synced, find_common_ancestor, finalized_sequence,
  is_canonical, roll_back, reconcile, next_sequence, commit_batch, sync_result, finish_sync, sync,
}
use pactum.Indexer.Finality.Ancestor.{IsHighest, find_common_ancestor-IsHighest}
use pactum.Indexer.Finality.Chain.{
  IsCanonical, IsNumbered, IsOutcome, LoopEnd, commit_loop-LoopEnd, loop_checkpoint,
}

is_canonical-IsCanonical :
    (source : LedgerSource) (indexer : FinalityIndexer) (c : LedgerCheckpoint)
    → is_canonical source indexer c ≡ true
    → IsCanonical source (some c)
unfolding is_canonical
is_canonical-IsCanonical source indexer c e = elim (Option-cases (source.get_ledger c.sequence)) [
  | inl absent ↦ ground (arith, absent)
  | inr (l, known) ↦ (l, known, text_eq→eq l.hash c.hash (ground (arith, known)))
]

-- What a rollback leaves.
pub record Rollback (source : LedgerSource) (s : IndexerStore) (ancestor : ℕ) : Type 0 where
  pub left : IndexerStore
  pub done : rollback_to s ancestor ≡ (none, left)
  pub chain : IsChain left
  pub canonical : IsCanonical source left.checkpoint

abbrev pub IsReconciled : LedgerSource → Result SyncError (Option ℕ) × IndexerStore → Type 0
IsReconciled source (ok _, s) = IsChain s × IsCanonical source s.checkpoint
IsReconciled source (err e, s) = IsChain s × IsOutcome source s (err e)

module _ (source : LedgerSource) (indexer : FinalityIndexer) (s : IndexerStore)
    (h : IsChain s) where
  pub rolled_back_at :
      (n floor first : ℕ) → (n ≡ 0) ⊎ IsHighest source s floor first n → Rollback source s n
  rolled_back_at n floor first (inl z) = record {
    left = record { ledgers = delete_above 0 s.ledgers; checkpoint = none };
    done = ap (rollback_to s) z ∙ rollback_zero s;
    chain = cleared-IsChain s h;
    canonical = tt;
  }
  rolled_back_at n floor first (inr top) =
      let a = top.agrees in
      record {
        left = record {
          ledgers = delete_above n s.ledgers;
          checkpoint = some (record { sequence = n; hash = a.stored.hash });
        };
        done = rollback_stored s n a.stored (positive s h n a.stored a.in_store) a.in_store;
        chain = shortened-IsChain s h n a.stored a.in_store;
        canonical = (a.canonical, a.in_source, a.same_hash);
      }

  roll_back-IsReconciled :
      (c : LedgerCheckpoint)
      → 1 ≤ indexer.start_sequence
      → IsReconciled source (roll_back source indexer s c)
  unfolding roll_back
  roll_back-IsReconciled c p =
      let ceiling = min source.latest (finalized_sequence source indexer) in
      elim (Option-cases (find_common_ancestor source indexer s c.sequence ceiling)) [
        | inl lost ↦ rw (lost, roll_back) (h, tt)
        | inr (n, found) ↦
            let r =
              rolled_back_at n _ _
                (find_common_ancestor-IsHighest source s indexer c.sequence ceiling n p found) in
            let e : roll_back source indexer s c ≡ (ok (some c.sequence), r.left) =
              rw (found, r.done, roll_back) (ap (λ x. (ok (some c.sequence), x.1)) r.done) in
            rw e (r.chain, r.canonical)
      ]

  pub reconcile-IsReconciled :
      1 ≤ indexer.start_sequence → IsReconciled source (reconcile source indexer s s.checkpoint)
  unfolding reconcile
  reconcile-IsReconciled p = elim (Option-cases s.checkpoint) [
    | inl fresh ↦ rw (fresh, reconcile) (h, rw fresh tt)
    | inr (c, e) ↦ elim (Bool-cases (is_canonical source indexer c)) [
      | inl fine ↦
          rw (e, fine, reconcile) (h, rw e (is_canonical-IsCanonical source indexer c fine))
      | inr stale ↦ rw (e, stale, reconcile) (roll_back-IsReconciled c p)
    ]
  ]

abbrev pub sync_checkpoint :
    Result SyncError SyncResult → Result SyncError (Option LedgerCheckpoint)
sync_checkpoint (ok r) = ok r.checkpoint
sync_checkpoint (err e) = err e

-- The stored ledgers are a chain, and the outcome says where the store stands.
pub record IsSynced (source : LedgerSource) (o : Synced) : Type 0 where
  pub chain : IsChain o.store
  pub end : IsOutcome source o.store (sync_checkpoint o.outcome)

module _ (source : LedgerSource) (indexer : FinalityIndexer) where
  sync_result_checkpoint :
      (rolled : Option ℕ) (r : Result SyncError (Option LedgerCheckpoint × ℕ))
      → sync_checkpoint (sync_result source indexer rolled r) ≡ loop_checkpoint r
  unfolding sync_result
  sync_result_checkpoint rolled (ok (checkpoint, committed)) = refl
  sync_result_checkpoint rolled (err e) = refl

  pub next_positive :
      (o : Option LedgerCheckpoint)
      → 1 ≤ indexer.start_sequence
      → 1 ≤ next_sequence source indexer o
  unfolding next_sequence
  next_positive none p = p
  next_positive (some c) p = omega arith

  pub next_after :
      (o : Option LedgerCheckpoint) (c : LedgerCheckpoint)
      → o ≡ some c
      → next_sequence source indexer o ≡ c.sequence + 1
  unfolding next_sequence
  next_after none c e = ground arith
  next_after (some d) c e = let q : d ≡ c = cc in ap (λ x. x.sequence + 1) q

  module _ (numbers : IsNumbered source) (p : 1 ≤ indexer.start_sequence) where
    commit_batch-LoopEnd :
        (s : IndexerStore)
        → IsChain s
        → IsCanonical source s.checkpoint
        → LoopEnd source (commit_batch source indexer s)
    unfolding commit_batch
    commit_batch-LoopEnd s h can =
        commit_loop-LoopEnd source numbers _ s _ 0 [] h can (next_positive s.checkpoint p)
          (next_after s.checkpoint)

    finish_sync-IsSynced :
        (r : Result SyncError (Option ℕ) × IndexerStore)
        → IsReconciled source r
        → IsSynced source (finish_sync source indexer r)
    unfolding finish_sync
    finish_sync-IsSynced (ok rolled, s) h =
        let o = commit_batch-LoopEnd s h.0 h.1 in
        record {
          chain = o.chain;
          end = rw (sync_result_checkpoint rolled (commit_batch source indexer s).outcome) o.end;
        }
    finish_sync-IsSynced (err e, s) h = record { chain = h.0; end = h.1 }

    -- From a chain of stored ledgers, when the source numbers its ledgers and the start is positive,
    -- a sync leaves a chain on every path. If it succeeds, the store stands at the checkpoint it
    -- returns, and the source has a ledger with that sequence and hash. If it fails, it is for want
    -- of an ancestor, of a ledger or of a link, and never by an error of the store.
    pub sync-IsSynced : (s : IndexerStore) → IsChain s → IsSynced source (sync source indexer s)
    unfolding sync
    sync-IsSynced s h =
        let r = reconcile-IsReconciled source indexer s h p in
        finish_sync-IsSynced (reconcile source indexer s s.checkpoint) r
