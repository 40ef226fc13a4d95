-- ===== src/Indexer/Store.antt =====
-- backend/src/indexer/store.ts: `InMemoryIndexerStore`. An operation returns the error it throws,
-- if any, and the store it leaves.
pub mod Chain
pub mod Rollback
use pactum.Prelude.{
  ℕ, zero, ◌+◌, ◌-◌, List, [], ◌∷◌, Bool, true, false, ◌&&◌, not, if◌then◌else◌, ltb, leb, ◌==◌,
  Option, none, some, Text, text_eq,
}
use pactum.Prelude.Js.{JsMap, get, put, nat_key}
use pactum.Indexer.Types.{LedgerSnapshot, LedgerCheckpoint}

pub record IndexerStore : Type 0 where
  pub ledgers : JsMap ℕ LedgerSnapshot
  pub checkpoint : Option LedgerCheckpoint

abbrev pub new_store : IndexerStore
new_store = record { ledgers = []; checkpoint = none }

pub data StoreError : Type 0 where
  not_next : ℕ → ℕ → StoreError
  bad_link : ℕ → Option Text → Text → StoreError
  missing_ledger : ℕ → StoreError

-- `previousHash === hash`
unfoldable pub links_to : Option Text → Text → Bool
links_to none hash = false
links_to (some previous) hash = text_eq previous hash

unfoldable pub get_ledger : IndexerStore → ℕ → Option LedgerSnapshot
get_ledger s sequence = get s.ledgers sequence

abbrev pub checkpoint_of : LedgerSnapshot → LedgerCheckpoint
checkpoint_of ledger = record { sequence = ledger.sequence; hash = ledger.hash }

unfoldable pub refusal : Option LedgerCheckpoint → LedgerSnapshot → Option StoreError
refusal none ledger = none
refusal (some current) ledger =
    if not (ledger.sequence == current.sequence + 1)
    then some (not_next ledger.sequence current.sequence)
    else if not (links_to ledger.previous_hash current.hash)
    then some (bad_link ledger.sequence ledger.previous_hash current.hash)
    else none

unfoldable pub append_ledger : IndexerStore → LedgerSnapshot → Option StoreError × IndexerStore
append_ledger s ledger = elim (refusal s.checkpoint ledger) [
  | some error ↦ (some error, s)
  | none ↦ (
    none,
    record {
      ledgers = put s.ledgers ledger.sequence ledger;
      checkpoint = some (checkpoint_of ledger);
    },
  )
]

-- The loop of `rollbackTo`.
unfoldable pub delete_above : ℕ → JsMap ℕ LedgerSnapshot → JsMap ℕ LedgerSnapshot
delete_above sequence [] = []
delete_above sequence ((existing, ledger) ∷ m) =
    if ltb sequence existing
    then delete_above sequence m
    else (existing, ledger) ∷ delete_above sequence m

-- The deletions are kept when the ledger is missing.
unfoldable pub rollback_to : IndexerStore → ℕ → Option StoreError × IndexerStore
rollback_to s sequence =
    let ledgers = delete_above sequence s.ledgers in
    if sequence == 0
    then (none, record { ledgers = ledgers; checkpoint = none })
    else elim (get ledgers sequence) [
      | none ↦ (some (missing_ledger sequence), record s { ledgers = ledgers })
      | some ledger ↦ (
        none,
        record {
          ledgers = ledgers;
          checkpoint = some (record { sequence = sequence; hash = ledger.hash });
        },
      )
    ]
