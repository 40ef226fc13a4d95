-- ===== src/Tests/Ledger.antt =====
-- Runs of the indexers: a source of four ledgers that replaced one that the store has.
use pactum.Prelude.{ℕ, ◌-◌, ◌≡◌, refl, sym, ap, inl, [], ◌∷◌, none, some, text_eq, arith}
use pactum.Prelude.Js.{get, put, nat_key}
use pactum.Indexer.Types.{LedgerSnapshot, LedgerSource}
use pactum.Indexer.Store.{IndexerStore, append_ledger, rollback_to, new_store, refusal, links_to}
use pactum.Indexer.Store.Chain.{IsChain, append_ledger-IsChain, new_store-IsChain}
use pactum.Indexer.Store.Rollback.{rollback_to-IsChain}
use pactum.Indexer.Finality.{FinalityIndexer, sync, find_common_ancestor, min, max}
use pactum.Indexer.Finality.Window.{IsAnswer, find_common_ancestor-IsAnswer}
use pactum.Indexer.Finality.Chain.{IsNumbered}
use pactum.Indexer.Finality.Reconcile.{IsSynced, sync-IsSynced}

-- The hash of ledger `n` is the text of one unit `n`.
abbrev ledger : ℕ → LedgerSnapshot
ledger n = record {
  sequence = n;
  hash = n ∷ [];
  previous_hash = some ((n - 1) ∷ []);
  closed_at = [];
  events = [];
}

abbrev source : LedgerSource
source = record { latest = 4; get_ledger = λ n. some (ledger n) }

source-IsNumbered : IsNumbered source
source-IsNumbered = record {
  numbered = λ n l e. let q : ledger n ≡ l = cc in sym (ap (λ x. x.sequence) q);
}

abbrev indexer : FinalityIndexer
indexer = record {
  finality_depth = 1;
  start_sequence = 1;
  max_batch_size = 2;
  max_rollback_depth = 100;
}

sync-IsSynced_example : IsSynced source (sync source indexer new_store)
sync-IsSynced_example =
    sync-IsSynced source indexer source-IsNumbered (omega arith) new_store new_store-IsChain

rollback_to-IsChain_example :
    ((rollback_to (append_ledger new_store (ledger 1)).1 0).0 ≡ none)
    × IsChain (rollback_to (append_ledger new_store (ledger 1)).1 0).1
rollback_to-IsChain_example =
    rollback_to-IsChain (append_ledger new_store (ledger 1)).1 0
      (append_ledger-IsChain new_store (ledger 1) new_store-IsChain (omega arith)) (inl refl)

-- The store has another ledger 2 than the source.
abbrev forked : IndexerStore
forked = record {
  ledgers = (1, ledger 1) ∷ (2, record (ledger 2) { hash = 99 ∷ [] }) ∷ [];
  checkpoint = some (record { sequence = 2; hash = 99 ∷ [] });
}

abbrev other_2 : LedgerSnapshot
other_2 = record (ledger 2) { hash = 99 ∷ [] }

appended : (append_ledger (append_ledger new_store (ledger 1)).1 other_2).1 ≡ forked
unfolding append_ledger refusal links_to put get text_eq
appended = refl

find_common_ancestor-IsAnswer_example :
    IsAnswer source forked 1
      (max 1 (2 - 100))
      (min (2 - 1) 3)
      (find_common_ancestor source indexer forked 2 3)
find_common_ancestor-IsAnswer_example =
    find_common_ancestor-IsAnswer source forked indexer 2 3 (omega arith)
