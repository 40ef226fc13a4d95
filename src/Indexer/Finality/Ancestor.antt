-- ===== src/Indexer/Finality/Ancestor.antt =====
-- The ancestor that a rollback goes to: a stored ledger on which the source agrees, the highest one
-- in the window, or the start.
use pactum.Prelude.{
  ℕ, zero, suc, ◌+◌, ◌-◌, ◌≤◌, ◌≡◌, refl, sym, ap, subst, ◌∙◌, inl, inr, ◌⊎◌, Bool, true, false,
  ◌==◌, none, some, Option-cases, Bool-cases, text_eq, text_eq→eq, text_eq_refl, arith,
}
use pactum.Prelude.Js.{get, nat_key}
use pactum.Indexer.Types.{LedgerSnapshot, LedgerSource}
use pactum.Indexer.Store.{IndexerStore, get_ledger}
use pactum.Indexer.Finality.{max, min, search_ancestor, FinalityIndexer, find_common_ancestor}

pub le_max : (a b : ℕ) → 1 ≤ a → 1 ≤ max a b
unfolding max
le_max a b p = ground arith

-- The source has the stored ledger of this sequence.
pub record Agree (source : LedgerSource) (s : IndexerStore) (n : ℕ) : Type 0 where
  pub stored : LedgerSnapshot
  pub canonical : LedgerSnapshot
  pub in_store : get s.ledgers n ≡ some stored
  pub in_source : source.get_ledger n ≡ some canonical
  pub same_hash : canonical.hash ≡ stored.hash

-- What the search says of the sequences between `floor` and `first`.
pub record IsHighest (source : LedgerSource) (s : IndexerStore) (floor first n : ℕ) : Type 0 where
  pub agrees : Agree source s n
  pub low : floor ≤ n
  pub high : n ≤ first
  pub highest : (k : ℕ) → n + 1 ≤ k → k ≤ first → ¬ Agree source s k

module _ (source : LedgerSource) (s : IndexerStore) where
  pub disagree : (n : ℕ) → get s.ledgers n ≡ none → ¬ Agree source s n
  disagree n e a = let q = a.in_store in ground arith

  pub distinct_hash :
      (n : ℕ) (stored canonical : LedgerSnapshot)
      → get s.ledgers n ≡ some stored
      → source.get_ledger n ≡ some canonical
      → text_eq canonical.hash stored.hash ≡ false
      → ¬ Agree source s n
  distinct_hash n stored canonical f k d a =
      let i = a.in_store in
      let j = a.in_source in
      let h = a.same_hash in
      let p : stored ≡ a.stored = cc in
      let q : canonical ≡ a.canonical = cc in
      let e : canonical.hash ≡ stored.hash = ap (λ x. x.hash) q ∙ h ∙ ap (λ x. x.hash) (sym p) in
      let t = text_eq_refl stored.hash in cc

  -- `IsHighest` below `first`, given that `first` itself does not agree.
  pub extend_up :
      (floor first n : ℕ)
      → 1 ≤ first
      → ¬ Agree source s first
      → IsHighest source s floor (first - 1) n
      → IsHighest source s floor first n
  extend_up floor first n p no_agreement h = record {
    agrees = h.agrees;
    low = h.low;
    high = omega (arith, h.high);
    highest = λ k q r. elim (Bool-cases (k == first)) [
      | inl same ↦
          let z : k ≡ first = ground arith in λ a. no_agreement (subst (Agree source s) z a)
      | inr distinct ↦ h.highest k q (ground arith)
    ];
  }

  zero_steps :
      (at_start saw : Bool) (n first floor candidate : ℕ)
      → search_ancestor source at_start s zero candidate saw ≡ some n
      → (n ≡ 0) ⊎ IsHighest source s floor first n
  unfolding search_ancestor
  zero_steps true true n first floor candidate r = inl (ground arith)
  zero_steps true false n first floor candidate r = ground arith
  zero_steps false saw n first floor candidate r = ground arith

  -- One candidate that does not agree, or agrees.
  step_cases :
      (at_start : Bool) (steps first : ℕ) (saw : Bool)
      → (Agree source s first
          × (search_ancestor source at_start s (suc steps) first saw ≡ some first))
        ⊎ ((saw' : Bool) × (¬ Agree source s first)
            × (search_ancestor source at_start s (suc steps) first saw
                ≡ search_ancestor source at_start s steps (first - 1) saw'))
  unfolding search_ancestor get_ledger
  step_cases at_start steps first saw = elim (Option-cases (get s.ledgers first)) [
    | inl absent ↦ inr (saw, disagree first absent, rw (absent, search_ancestor) refl)
    | inr (stored, found) ↦ elim (Option-cases (source.get_ledger first)) [
      | inl unknown ↦ inr (
        saw,
        (λ a. let q = a.in_source in ground arith),
        rw (found, unknown, search_ancestor) refl,
      )
      | inr (canonical, known) ↦ elim (Bool-cases (text_eq canonical.hash stored.hash)) [
        | inl same ↦ inl (
          record {
            stored = stored;
            canonical = canonical;
            in_store = found;
            in_source = known;
            same_hash = text_eq→eq canonical.hash stored.hash same;
          },
          rw (found, known, same, search_ancestor) refl,
        )
        | inr distinct ↦ inr (
          true,
          distinct_hash first stored canonical found known distinct,
          rw (found, known, distinct, search_ancestor) refl,
        )
      ]
    ]
  ]

  search_ancestor-IsHighest :
      (at_start : Bool) (steps floor first : ℕ) (saw : Bool) (n : ℕ)
      → steps ≡ first + 1 - floor
      → 1 ≤ floor
      → search_ancestor source at_start s steps first saw ≡ some n
      → (n ≡ 0) ⊎ IsHighest source s floor first n
  search_ancestor-IsHighest at_start zero floor first saw n e p r =
      zero_steps at_start saw n first floor first r
  search_ancestor-IsHighest at_start (suc steps) floor first saw n e p r =
      let below : (saw' : Bool)
          → ¬ Agree source s first
          → search_ancestor source at_start s steps (first - 1) saw' ≡ some n
          → (n ≡ 0) ⊎ IsHighest source s floor first n =
        λ saw' no_agreement q.
          elim (search_ancestor-IsHighest at_start steps floor (first - 1) saw' n (omega arith) p
            q) [
              | inl z ↦ inl z
              | inr h ↦ inr (extend_up floor first n (omega arith) no_agreement h)
            ] in
      elim (step_cases at_start steps first saw) [
        | inl (agreement, e') ↦
            let z : first ≡ n = (let q : some first ≡ some n = sym e' ∙ r in cc) in
            inr (
              subst (IsHighest source s floor first) z (record {
                agrees = agreement;
                low = omega arith;
                high = omega arith;
                highest = λ k q t. ground arith;
              }))
        | inr (saw', no_agreement, e') ↦ below saw' no_agreement (sym e' ∙ r)
      ]

  -- The ancestor that a rollback of the checkpoint goes to, unless it is the start, is a stored
  -- ledger below the checkpoint on which the source agrees, and no higher one below the ceiling does.
  pub find_common_ancestor-IsHighest :
      (indexer : FinalityIndexer) (sequence ceiling n : ℕ)
      → 1 ≤ indexer.start_sequence
      → find_common_ancestor source indexer s sequence ceiling ≡ some n
      → (n ≡ 0)
        ⊎ IsHighest source s
            (max indexer.start_sequence (sequence - indexer.max_rollback_depth))
            (min (sequence - 1) ceiling)
            n
  unfolding find_common_ancestor
  find_common_ancestor-IsHighest indexer sequence ceiling n p r =
      search_ancestor-IsHighest _ _ _ _ false n refl (le_max indexer.start_sequence _ p) r
