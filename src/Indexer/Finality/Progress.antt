-- ===== src/Indexer/Finality/Progress.antt =====
-- When a sync succeeds, and how many ledgers it commits.
use pactum.Prelude.{ℕ, ◌+◌, ◌-◌, ◌≤◌, ◌≡◌, Option, arith, length}
use pactum.Prelude.Results.{ok}
use pactum.Indexer.Types.{LedgerSource}
use pactum.Indexer.Store.{IndexerStore}
use pactum.Indexer.Finality.{
  FinalityIndexerOptions, new_finality_indexer, min, FinalityIndexer, SyncResult, Synced,
  finalized_sequence, reconcile, next_sequence,
}

-- A sync succeeded: the reconciliation left `store`, and the batch committed from there the ledgers
-- that were missing or a whole batch, and gave each of them to the hook.
pub record Advances (source : LedgerSource) (indexer : FinalityIndexer) (s : IndexerStore)
    (o : Synced) : Type 0 where
  pub rolled : Option ℕ
  pub store : IndexerStore
  pub reconciled : reconcile source indexer s s.checkpoint ≡ (ok rolled, store)
  pub result : SyncResult
  pub succeeds : o.outcome ≡ ok result
  pub rolled_back : result.rolled_back_from ≡ rolled
  pub committed :
      result.committed
      ≡ min
          (finalized_sequence source indexer + 1 - next_sequence source indexer store.checkpoint)
          indexer.max_batch_size
  pub reached :
      next_sequence source indexer result.checkpoint
      ≡ next_sequence source indexer store.checkpoint + result.committed
  pub notices : length o.notified ≡ result.committed

-- An indexer that the constructor accepts starts at a positive sequence, and its batches and its
-- rollbacks have a positive size: what the other theorems ask of a configuration.
pub new_finality_indexer-positive :
    (o : FinalityIndexerOptions) (indexer : FinalityIndexer)
    → new_finality_indexer o ≡ ok indexer
    → (1 ≤ indexer.start_sequence) × (1 ≤ indexer.max_batch_size) × (1 ≤ indexer.max_rollback_depth)
unfolding new_finality_indexer
new_finality_indexer-positive o indexer h = ground arith
