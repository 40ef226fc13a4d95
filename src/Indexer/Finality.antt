-- ===== src/Indexer/Finality.antt =====
-- backend/src/indexer/listener.ts: `FinalityIndexer`. The source answers the same while one `sync`
-- runs; the hook `onLedgerCommitted` appends to `notified`. An error leaves the store of its moment.
pub mod Chain
pub mod Reconcile
pub mod Batches
pub mod Progress
pub mod Ancestor
pub mod Window
pub mod Recovery
use pactum.Prelude.{
  ℕ, zero, suc, ◌+◌, ◌-◌, ◌*◌, List, [], ◌∷◌, ◌++◌, Bool, true, false, ◌&&◌, not, if◌then◌else◌,
  ltb, leb, ◌==◌, Option, none, some, Text, text_eq,
}
use pactum.Prelude.Results.{Result, ok, err}
use pactum.Indexer.Types.{LedgerSnapshot, LedgerCheckpoint, LedgerSource}
use pactum.Indexer.Store.{
  IndexerStore, StoreError, get_ledger, links_to, checkpoint_of, append_ledger, rollback_to,
}

pub record FinalityIndexerOptions : Type 0 where
  pub finality_depth : ℕ
  pub start_sequence : Option ℕ
  pub max_batch_size : Option ℕ
  pub max_rollback_depth : Option ℕ

pub record FinalityIndexer : Type 0 where
  pub finality_depth : ℕ
  pub start_sequence : ℕ
  pub max_batch_size : ℕ
  pub max_rollback_depth : ℕ

pub data OptionError : Type 0 where
  bad_start_sequence bad_max_batch_size bad_max_rollback_depth : OptionError

-- `option ?? fallback`
unfoldable pub or_default : Option ℕ → ℕ → ℕ
or_default none fallback = fallback
or_default (some n) fallback = n

unfoldable pub max : ℕ → ℕ → ℕ
max a b = if leb a b then b else a

unfoldable pub min : ℕ → ℕ → ℕ
min a b = if leb a b then a else b

unfoldable pub new_finality_indexer : FinalityIndexerOptions → Result OptionError FinalityIndexer
new_finality_indexer o =
    let start = or_default o.start_sequence 1 in
    let batch = or_default o.max_batch_size 100 in
    let depth = or_default o.max_rollback_depth (max 100 (o.finality_depth * 2)) in
    if ltb start 1
    then err bad_start_sequence
    else if ltb batch 1
    then err bad_max_batch_size
    else if ltb depth 1
    then err bad_max_rollback_depth
    else ok (record {
      finality_depth = o.finality_depth;
      start_sequence = start;
      max_batch_size = batch;
      max_rollback_depth = depth;
    })

pub data SyncError : Type 0 where
  no_common_ancestor : ℕ → SyncError
  not_returned : ℕ → SyncError
  linkage : ℕ → Text → Option Text → SyncError
  store_failed : StoreError → SyncError

pub record SyncResult : Type 0 where
  pub latest_sequence : ℕ
  pub finalized_sequence : ℕ
  pub committed : ℕ
  pub rolled_back_from : Option ℕ
  pub checkpoint : Option LedgerCheckpoint

-- The error that the loop throws for a ledger that does not link to the checkpoint.
unfoldable pub link_error : ℕ → Option LedgerCheckpoint → LedgerSnapshot → Option SyncError
link_error next none ledger = none
link_error next (some c) ledger =
    if links_to ledger.previous_hash c.hash
    then none
    else some (linkage next c.hash ledger.previous_hash)

-- What a loop has done: its checkpoint and the number of ledgers it committed, or its error.
pub record Committed : Type 0 where
  pub outcome : Result SyncError (Option LedgerCheckpoint × ℕ)
  pub store : IndexerStore
  pub notified : List LedgerSnapshot

pub record Synced : Type 0 where
  pub outcome : Result SyncError SyncResult
  pub store : IndexerStore
  pub notified : List LedgerSnapshot

module _ (source : LedgerSource) where
  -- The body of the `while` loop, `steps` times.
  unfoldable pub commit_loop :
      ℕ → IndexerStore → Option LedgerCheckpoint → ℕ → ℕ → List LedgerSnapshot → Committed
  commit_loop zero s checkpoint next committed notified = record {
    outcome = ok (checkpoint, committed);
    store = s;
    notified = notified;
  }
  commit_loop (suc steps) s checkpoint next committed notified = elim (source.get_ledger next) [
    | none ↦ record { outcome = err (not_returned next); store = s; notified = notified }
    | some ledger ↦ elim (link_error next checkpoint ledger) [
      | some e ↦ record { outcome = err e; store = s; notified = notified }
      | none ↦
          let (error, s1) = append_ledger s ledger in
          elim error [
            | some e ↦ record { outcome = err (store_failed e); store = s1; notified = notified }
            | none ↦
                commit_loop steps s1 (some (checkpoint_of ledger)) (next + 1) (committed + 1)
                  (notified ++ ledger ∷ [])
          ]
    ]
  ]

  -- The loop over the candidates, downward from `candidate`.
  unfoldable pub search_ancestor : Bool → IndexerStore → ℕ → ℕ → Bool → Option ℕ
  search_ancestor at_start s zero candidate saw = if at_start && saw then some 0 else none
  search_ancestor at_start s (suc steps) candidate saw = elim (get_ledger s candidate) [
    | none ↦ search_ancestor at_start s steps (candidate - 1) saw
    | some stored ↦ elim (source.get_ledger candidate) [
      | none ↦ search_ancestor at_start s steps (candidate - 1) saw
      | some canonical ↦
          if text_eq canonical.hash stored.hash
          then some candidate
          else search_ancestor at_start s steps (candidate - 1) true
    ]
  ]

  module _ (indexer : FinalityIndexer) where
    unfoldable pub find_common_ancestor : IndexerStore → ℕ → ℕ → Option ℕ
    find_common_ancestor s sequence ceiling =
        let first = min (sequence - 1) ceiling in
        let floor = max indexer.start_sequence (sequence - indexer.max_rollback_depth) in
        search_ancestor (floor == indexer.start_sequence) s (first + 1 - floor) first false

    unfoldable pub finalized_sequence : ℕ
    finalized_sequence = source.latest - indexer.finality_depth

    -- `!canonicalCheckpoint || canonicalCheckpoint.hash !== checkpoint.hash`, negated.
    unfoldable pub is_canonical : LedgerCheckpoint → Bool
    is_canonical c =
        if not (leb c.sequence source.latest) then false else elim (source.get_ledger c.sequence) [
          | none ↦ false
          | some ledger ↦ text_eq ledger.hash c.hash
        ]

    -- The rollback of a checkpoint that is not canonical; the result is `rolledBackFrom`.
    unfoldable pub roll_back :
        IndexerStore → LedgerCheckpoint → Result SyncError (Option ℕ) × IndexerStore
    roll_back s c =
        elim (find_common_ancestor s c.sequence (min source.latest finalized_sequence)) [
          | none ↦ (err (no_common_ancestor c.sequence), s)
          | some ancestor ↦
              let (error, s1) = rollback_to s ancestor in
              elim error [ some e ↦ (err (store_failed e), s1) | none ↦ (ok (some c.sequence), s1) ]
        ]

    unfoldable pub reconcile :
        IndexerStore → Option LedgerCheckpoint → Result SyncError (Option ℕ) × IndexerStore
    reconcile s none = (ok none, s)
    reconcile s (some c) = if is_canonical c then (ok none, s) else roll_back s c

    unfoldable pub next_sequence : Option LedgerCheckpoint → ℕ
    next_sequence none = indexer.start_sequence
    next_sequence (some c) = c.sequence + 1

    -- The loop of `sync` with its bounds.
    unfoldable pub commit_batch : IndexerStore → Committed
    commit_batch s =
        let next = next_sequence s.checkpoint in
        let end_sequence = min finalized_sequence (next + indexer.max_batch_size - 1) in
        commit_loop (end_sequence + 1 - next) s s.checkpoint next 0 []

    unfoldable pub sync_result :
        Option ℕ → Result SyncError (Option LedgerCheckpoint × ℕ) → Result SyncError SyncResult
    sync_result rolled (err e) = err e
    sync_result rolled (ok (checkpoint, committed)) = ok (record {
      latest_sequence = source.latest;
      finalized_sequence = finalized_sequence;
      committed = committed;
      rolled_back_from = rolled;
      checkpoint = checkpoint;
    })

    -- What follows the reconciliation.
    unfoldable pub finish_sync : Result SyncError (Option ℕ) × IndexerStore → Synced
    finish_sync (err e, s) = record { outcome = err e; store = s; notified = [] }
    finish_sync (ok rolled, s) =
        let o = commit_batch s in
        record { outcome = sync_result rolled o.outcome; store = o.store; notified = o.notified }

    unfoldable pub sync : IndexerStore → Synced
    sync s = finish_sync (reconcile s s.checkpoint)
