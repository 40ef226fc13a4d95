-- ===== src/Indexer/Finality/Chain.antt =====
-- The commit loop keeps the chain, ends at a canonical checkpoint, and never fails in the store.
use pactum.Prelude.{
  ℕ, zero, suc, ◌+◌, ◌≤◌, ◌≡◌, refl, ap, subst, ◌∙◌, inl, inr, List, [], ◌∷◌, ◌++◌, Option, none,
  some, Option-cases, Bool-cases, arith,
}
use pactum.Prelude.Results.{Result, ok, err}
use pactum.Prelude.Js.{nat_key}
use pactum.Indexer.Types.{LedgerSnapshot, LedgerCheckpoint, LedgerSource}
use pactum.Indexer.Store.{IndexerStore, links_to, checkpoint_of, refusal}
use pactum.Indexer.Store.Chain.{IsChain, extend, append_accepted, extended-IsChain}
use pactum.Indexer.Finality.{
  SyncError, no_common_ancestor, not_returned, linkage, store_failed, Committed, link_error,
  commit_loop,
}

-- `getLedger(n)` answers with the ledger of sequence `n`.
pub record IsNumbered (source : LedgerSource) : Type 0 where
  pub numbered : (n : ℕ) (l : LedgerSnapshot) → source.get_ledger n ≡ some l → l.sequence ≡ n

-- The source has a ledger with the sequence and the hash of the checkpoint.
abbrev pub IsCanonical : LedgerSource → Option LedgerCheckpoint → Type 0
IsCanonical source none = Unit {0}
IsCanonical source (some c) =
    (l : LedgerSnapshot) × (source.get_ledger c.sequence ≡ some l) × (l.hash ≡ c.hash)

-- The store stands at the checkpoint that was returned; no error is the store's own.
abbrev pub IsOutcome :
    LedgerSource → IndexerStore → Result SyncError (Option LedgerCheckpoint) → Type 0
IsOutcome source s (ok checkpoint) = (s.checkpoint ≡ checkpoint) × IsCanonical source checkpoint
IsOutcome source s (err (no_common_ancestor _)) = Unit {0}
IsOutcome source s (err (not_returned _)) = Unit {0}
IsOutcome source s (err (linkage _ _ _)) = Unit {0}
IsOutcome source s (err (store_failed _)) = ⊥

abbrev pub loop_checkpoint :
    Result SyncError (Option LedgerCheckpoint × ℕ) → Result SyncError (Option LedgerCheckpoint)
loop_checkpoint (ok (checkpoint, _)) = ok checkpoint
loop_checkpoint (err e) = err e

link_error-linkage :
    (next : ℕ) (o : Option LedgerCheckpoint) (l : LedgerSnapshot) (e : SyncError)
    (source : LedgerSource) (s : IndexerStore)
    → link_error next o l ≡ some e
    → IsOutcome source s (err e)
unfolding link_error
link_error-linkage next none l e source s r = ground arith
link_error-linkage next (some c) l e source s r =
    elim (Bool-cases (links_to l.previous_hash c.hash)) [
      | inl link ↦ ground arith
      | inr break ↦
          let q : linkage next c.hash l.previous_hash ≡ e = ground arith in
          subst (λ x. IsOutcome source s (err x)) q tt
    ]

pub link_error-refusal :
    (next : ℕ) (o : Option LedgerCheckpoint) (l : LedgerSnapshot)
    → link_error next o l ≡ none
    → ((c : LedgerCheckpoint) → o ≡ some c → l.sequence ≡ c.sequence + 1)
    → refusal o l ≡ none
unfolding link_error refusal
link_error-refusal next none l r q = refl
link_error-refusal next (some c) l r q = let z = q c refl in ground arith

-- The parts of a loop's end that a sync relies on.
pub record LoopEnd (source : LedgerSource) (o : Committed) : Type 0 where
  pub chain : IsChain o.store
  pub end : IsOutcome source o.store (loop_checkpoint o.outcome)

module _ (source : LedgerSource) (steps : ℕ) (s : IndexerStore) (next committed : ℕ)
    (notified : List LedgerSnapshot) where
  pub commit_absent :
      source.get_ledger next ≡ none
      → commit_loop source (suc steps) s s.checkpoint next committed notified
        ≡ record { outcome = err (not_returned next); store = s; notified = notified }
  unfolding commit_loop
  commit_absent e = rw (e, commit_loop) refl

  commit_unlinked :
      (ledger : LedgerSnapshot) (e : SyncError)
      → source.get_ledger next ≡ some ledger
      → link_error next s.checkpoint ledger ≡ some e
      → commit_loop source (suc steps) s s.checkpoint next committed notified
        ≡ record { outcome = err e; store = s; notified = notified }
  unfolding commit_loop
  commit_unlinked ledger e k b = rw (k, b, commit_loop) refl

  pub commit_accepted :
      (ledger : LedgerSnapshot)
      → source.get_ledger next ≡ some ledger
      → link_error next s.checkpoint ledger ≡ none
      → refusal s.checkpoint ledger ≡ none
      → commit_loop source (suc steps) s s.checkpoint next committed notified
        ≡ commit_loop source steps
            (extend s ledger)
            (some (checkpoint_of ledger))
            (next + 1)
            (committed + 1)
            (notified ++ ledger ∷ [])
  unfolding commit_loop
  commit_accepted ledger k b r =
      rw (k, b, append_accepted s ledger r, commit_loop)
        (ap
          (λ x.
            commit_loop source steps x.1 (some (checkpoint_of ledger)) (next + 1) (committed + 1)
              (notified ++ ledger ∷ []))
          (append_accepted s ledger r))

module _ (source : LedgerSource) (numbers : IsNumbered source) where
  pub commit_loop-LoopEnd :
      (steps : ℕ) (s : IndexerStore) (next committed : ℕ) (notified : List LedgerSnapshot)
      → IsChain s
      → IsCanonical source s.checkpoint
      → 1 ≤ next
      → ((c : LedgerCheckpoint) → s.checkpoint ≡ some c → next ≡ c.sequence + 1)
      → LoopEnd source (commit_loop source steps s s.checkpoint next committed notified)
  unfolding commit_loop
  commit_loop-LoopEnd zero s next committed notified h can p q = record {
    chain = h;
    end = (refl, can);
  }
  commit_loop-LoopEnd (suc steps) s next committed notified h can p q =
      elim (Option-cases (source.get_ledger next)) [
        | inl absent ↦
            rw (commit_absent source steps s next committed notified absent)
              (record { chain = h; end = tt })
        | inr (ledger, known) ↦
            let same = numbers.numbered next ledger known in
            elim (Option-cases (link_error next s.checkpoint ledger)) [
              | inr (e, bad) ↦
                  rw (commit_unlinked source steps s next committed notified ledger e known bad)
                    (record {
                      chain = h;
                      end = link_error-linkage next s.checkpoint ledger e source s bad;
                    })
              | inl fine ↦
                  let accepted =
                    link_error-refusal next s.checkpoint ledger fine (λ c e. same ∙ q c e) in
                  rw
                    (commit_accepted source steps s next committed notified ledger known fine
                      accepted)
                    (commit_loop-LoopEnd steps (extend s ledger) (next + 1) (committed + 1)
                      (notified ++ ledger ∷ []) (extended-IsChain s ledger h accepted (omega arith))
                      (ledger, ap source.get_ledger same ∙ known, refl) (omega arith)
                      (λ c e.
                        let z : checkpoint_of ledger ≡ c = cc in
                        omega (arith, ap (λ x. x.sequence) z)))
            ]
      ]
