-- ===== src/Indexer/Finality/Batches.antt =====
-- The batch of a sync, when the source has a linked ledger for every finalized sequence.
use pactum.Prelude.{
  ℕ, zero, suc, ◌+◌, ◌-◌, ◌≤◌, ◌≡◌, refl, sym, ap, subst, ◌∙◌, List, [], ◌∷◌, ◌++◌, Option, none,
  some, text_eq_refl, arith, leb, Bool-cases, inl, inr, length, length-append,
}
use pactum.Prelude.Results.{ok}
use pactum.Indexer.Types.{LedgerSnapshot, LedgerCheckpoint, LedgerSource}
use pactum.Indexer.Store.{IndexerStore, links_to, checkpoint_of}
use pactum.Indexer.Store.Chain.{extend}
use pactum.Indexer.Finality.{
  min, FinalityIndexer, Committed, link_error, commit_loop, finalized_sequence, next_sequence,
  commit_batch,
}
use pactum.Indexer.Finality.Chain.{IsNumbered, IsCanonical, commit_accepted, link_error-refusal}
use pactum.Indexer.Finality.Reconcile.{next_positive, next_after}

-- The source has every ledger up to `bound`, each linked to the one before it.
pub record IsComplete (source : LedgerSource) (bound : ℕ) : Type 0 where
  pub present : (n : ℕ) → 1 ≤ n → n ≤ bound → (l : LedgerSnapshot) × (source.get_ledger n ≡ some l)
  pub linked :
      (n : ℕ) (l l' : LedgerSnapshot)
      → source.get_ledger n ≡ some l
      → source.get_ledger (n + 1) ≡ some l'
      → l'.previous_hash ≡ some l.hash

link_error-none :
    (next : ℕ) (o : Option LedgerCheckpoint) (l : LedgerSnapshot)
    → ((c : LedgerCheckpoint) → o ≡ some c → l.previous_hash ≡ some c.hash)
    → link_error next o l ≡ none
unfolding link_error links_to
link_error-none next none l h = refl
link_error-none next (some c) l h = rw (h c refl, text_eq_refl c.hash) refl

module _ (source : LedgerSource) (indexer : FinalityIndexer) where
  -- The loop ran all its steps.
  pub record RanAll (next committed steps : ℕ) (notified : List LedgerSnapshot) (o : Committed)
      : Type 0 where
    pub checkpoint : Option LedgerCheckpoint
    pub result : o.outcome ≡ ok (checkpoint, committed + steps)
    pub reached : next_sequence source indexer checkpoint ≡ next + steps
    pub notices : length o.notified ≡ length notified + steps

  commit_loop-none :
      (s : IndexerStore)
      → RanAll
          (next_sequence source indexer s.checkpoint)
          0
          0
          []
          (commit_loop source 0 s s.checkpoint (next_sequence source indexer s.checkpoint) 0 [])
  unfolding commit_loop
  commit_loop-none s = record {
    checkpoint = s.checkpoint;
    result = refl;
    reached = omega arith;
    notices = refl;
  }

  module _ (numbers : IsNumbered source) (bound : ℕ) (complete : IsComplete source bound) where
    -- A ledger of the source after a canonical checkpoint links to it.
    canonical_link :
        (o : Option LedgerCheckpoint)
        → IsCanonical source o
        → (next : ℕ) (ledger : LedgerSnapshot) → source.get_ledger next ≡ some ledger
        → ((c : LedgerCheckpoint) → o ≡ some c → next ≡ c.sequence + 1)
        → (c : LedgerCheckpoint) → o ≡ some c
        → ledger.previous_hash ≡ some c.hash
    canonical_link none can next ledger known t c e = ground arith
    canonical_link (some d) (l, before, hash_same) next ledger known t c e =
        let q : d ≡ c = cc in
        let z : source.get_ledger (d.sequence + 1) ≡ some ledger =
          ap source.get_ledger (sym (t d refl)) ∙ known in
        complete.linked d.sequence l ledger before z ∙ ap some (hash_same ∙ ap (λ x. x.hash) q)

    ledger_next :
        (ledger : LedgerSnapshot)
        → next_sequence source indexer (some (checkpoint_of ledger)) ≡ ledger.sequence + 1
    unfolding next_sequence
    ledger_next ledger = refl

    commit_loop-RanAll :
        (steps : ℕ) (s : IndexerStore) (next committed : ℕ) (notified : List LedgerSnapshot)
        → IsCanonical source s.checkpoint
        → 1 ≤ next
        → next + steps ≤ bound + 1
        → next_sequence source indexer s.checkpoint ≡ next
        → ((c : LedgerCheckpoint) → s.checkpoint ≡ some c → next ≡ c.sequence + 1)
        → RanAll next committed steps notified
            (commit_loop source steps s s.checkpoint next committed notified)
    unfolding commit_loop
    commit_loop-RanAll zero s next committed notified can p b q t = record {
      checkpoint = s.checkpoint;
      result = ap (λ x. ok (s.checkpoint, x)) (omega arith);
      reached = omega arith;
      notices = omega arith;
    }
    commit_loop-RanAll (suc steps) s next committed notified can p b q t =
        let (ledger, known) = complete.present next p (omega arith) in
        let same = numbers.numbered next ledger known in
        let link =
          link_error-none next s.checkpoint ledger
            (canonical_link s.checkpoint can next ledger known t) in
        let accepted = link_error-refusal next s.checkpoint ledger link (λ c e. same ∙ t c e) in
        let r =
          commit_loop-RanAll steps (extend s ledger) (next + 1) (committed + 1)
            (notified ++ ledger ∷ []) (ledger, ap source.get_ledger same ∙ known, refl)
            (omega arith) (omega arith) (ledger_next ledger ∙ ap (λ x. x + 1) same)
            (λ c e.
              let z : checkpoint_of ledger ≡ c = cc in omega (arith, ap (λ x. x.sequence) z)) in
        rw (commit_accepted source steps s next committed notified ledger known link accepted)
          (record {
            checkpoint = r.checkpoint;
            result = r.result ∙ ap (λ x. ok (r.checkpoint, x)) (omega arith);
            reached = omega (arith, r.reached);
            notices = omega (arith, r.notices, length-append notified (ledger ∷ []));
          })

batch_steps :
    (bound next batch : ℕ)
    → 1 ≤ next
    → 1 ≤ batch
    → min bound (next + batch - 1) + 1 - next ≡ min (bound + 1 - next) batch
unfolding min
batch_steps bound next batch p q = ground arith

steps_bound :
    (bound next batch : ℕ)
    → next ≤ bound + 1
    → 1 ≤ next
    → next + (min bound (next + batch - 1) + 1 - next) ≤ bound + 1
unfolding min
steps_bound bound next batch p q = ground arith

no_steps : (bound next batch : ℕ) → bound + 1 ≤ next → min bound (next + batch - 1) + 1 - next ≡ 0
unfolding min
no_steps bound next batch p = ground arith

-- The batch after a reconciliation runs all its steps, none of them when nothing more is finalized.
pub commit_batch-RanAll :
    (source : LedgerSource) (indexer : FinalityIndexer)
    → IsNumbered source
    → IsComplete source (finalized_sequence source indexer)
    → 1 ≤ indexer.start_sequence
    → 1 ≤ indexer.max_batch_size
    → (s : IndexerStore) → IsCanonical source s.checkpoint
    → let next = next_sequence source indexer s.checkpoint in
      RanAll source indexer next 0
        (min (finalized_sequence source indexer + 1 - next) indexer.max_batch_size)
        []
        (commit_batch source indexer s)
unfolding commit_batch
commit_batch-RanAll source indexer numbers complete p b s can =
    let next = next_sequence source indexer s.checkpoint in
    let bound = finalized_sequence source indexer in
    let batch = indexer.max_batch_size in
    let low = next_positive source indexer s.checkpoint p in
    let steps = min bound (next + batch - 1) + 1 - next in
    let all : RanAll source indexer next 0 steps []
        (commit_loop source steps s s.checkpoint next 0 []) =
      elim (Bool-cases (leb next (bound + 1))) [
        | inl q ↦
            commit_loop-RanAll source indexer numbers bound complete steps s next 0 [] can low
              (steps_bound bound next batch (ground arith) low) refl
              (next_after source indexer s.checkpoint)
        | inr q ↦
            subst
              (λ n.
                RanAll source indexer next 0 n [] (commit_loop source n s s.checkpoint next 0 []))
              (sym (no_steps bound next batch (ground arith))) (commit_loop-none source indexer s)
      ] in
    subst (λ n. RanAll source indexer next 0 n [] (commit_batch source indexer s))
      (batch_steps bound next batch low b) all
