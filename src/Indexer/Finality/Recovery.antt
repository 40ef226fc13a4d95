-- ===== src/Indexer/Finality/Recovery.antt =====
-- When the reconciliation of a checkpoint succeeds.
use pactum.Prelude.{
  ℕ, ◌-◌, ◌≤◌, ◌≡◌, refl, ap, text_eq_refl, arith, true, false, leb, Bool-cases, Option-cases, inl,
  inr, ◌⊎◌, Option, none, some,
}
use pactum.Prelude.Results.{ok}
use pactum.Indexer.Types.{LedgerSnapshot, LedgerCheckpoint, LedgerSource}
use pactum.Indexer.Store.{IndexerStore}
use pactum.Indexer.Store.Chain.{IsChain}
use pactum.Indexer.Finality.{
  max, min, FinalityIndexer, finalized_sequence, is_canonical, find_common_ancestor, roll_back,
  reconcile,
}
use pactum.Indexer.Finality.Ancestor.{Agree, find_common_ancestor-IsHighest}
use pactum.Indexer.Finality.Window.{find_common_ancestor-IsAnswer}
use pactum.Indexer.Finality.Reconcile.{rolled_back_at}

-- The source has the checkpoint, or agrees with the store on a ledger of the window below it.
abbrev pub IsRecoverable :
    LedgerSource → FinalityIndexer → IndexerStore → Option LedgerCheckpoint → Type 0
IsRecoverable source indexer s none = Unit {0}
IsRecoverable source indexer s (some c) =
    ((l : LedgerSnapshot) × (c.sequence ≤ source.latest)
      × (source.get_ledger c.sequence ≡ some l)
      × (l.hash ≡ c.hash))
    ⊎ ((k : ℕ) × (max indexer.start_sequence (c.sequence - indexer.max_rollback_depth) ≤ k)
        × (k ≤ min (c.sequence - 1) (min source.latest (finalized_sequence source indexer)))
        × Agree source s k)

-- The reconciliation succeeded.
pub record Recovers (source : LedgerSource) (indexer : FinalityIndexer) (s : IndexerStore)
    (o : Option LedgerCheckpoint) : Type 0 where
  pub rolled : Option ℕ
  pub store : IndexerStore
  pub reconciled : reconcile source indexer s o ≡ (ok rolled, store)

module _ (source : LedgerSource) (indexer : FinalityIndexer) (s : IndexerStore) (h : IsChain s)
    (p : 1 ≤ indexer.start_sequence) where
  canonical_is_canonical :
      (c : LedgerCheckpoint) (l : LedgerSnapshot)
      → c.sequence ≤ source.latest
      → source.get_ledger c.sequence ≡ some l
      → l.hash ≡ c.hash
      → is_canonical source indexer c ≡ true
  unfolding is_canonical
  canonical_is_canonical c l q known same =
      let r : leb c.sequence source.latest ≡ true = ground arith in
      rw (r, is_canonical, known, same) (text_eq_refl c.hash)

  kept :
      (c : LedgerCheckpoint)
      → is_canonical source indexer c ≡ true
      → Recovers source indexer s (some c)
  unfolding reconcile
  kept c fine = record { rolled = none; store = s; reconciled = rw fine refl }

  found_rolls_back :
      (c : LedgerCheckpoint) (k : ℕ)
      → is_canonical source indexer c ≡ false
      → max indexer.start_sequence (c.sequence - indexer.max_rollback_depth) ≤ k
      → k ≤ min (c.sequence - 1) (min source.latest (finalized_sequence source indexer))
      → Agree source s k
      → Recovers source indexer s (some c)
  unfolding reconcile roll_back
  found_rolls_back c k stale low high agreement =
      let ceiling = min source.latest (finalized_sequence source indexer) in
      let answer = find_common_ancestor-IsAnswer source s indexer c.sequence ceiling p in
      elim (Option-cases (find_common_ancestor source indexer s c.sequence ceiling)) [
        | inl lost ↦ absurd ((rw lost at answer).0 k low high agreement)
        | inr (n, found) ↦
            let r =
              rolled_back_at source indexer s h n _ _
                (find_common_ancestor-IsHighest source s indexer c.sequence ceiling n p found) in
            record {
              rolled = some c.sequence;
              store = r.left;
              reconciled =
                  rw (stale, found, r.done, roll_back)
                    (ap (λ x. (ok (some c.sequence), x.1)) r.done);
            }
      ]

  pub reconcile_recovers :
      (o : Option LedgerCheckpoint) → IsRecoverable source indexer s o → Recovers source indexer s o
  unfolding reconcile
  reconcile_recovers none t = record { rolled = none; store = s; reconciled = refl }
  reconcile_recovers (some c) (inl (l, q, known, same)) =
      kept c (canonical_is_canonical c l q known same)
  reconcile_recovers (some c) (inr (k, low, high, agreement)) =
      elim (Bool-cases (is_canonical source indexer c)) [
        | inl fine ↦ kept c fine
        | inr stale ↦ found_rolls_back c k stale low high agreement
      ]
