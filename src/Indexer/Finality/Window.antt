-- ===== src/Indexer/Finality/Window.antt =====
-- What the search for the common ancestor answers, found or not.
use pactum.Prelude.{
  ℕ, zero, suc, ◌+◌, ◌-◌, ◌≤◌, ◌≡◌, refl, sym, subst, ◌∙◌, inl, inr, ◌⊎◌, Bool, true, false, ◌==◌,
  Option, none, some, Option-cases, Bool-cases, text_eq, text_eq→eq, arith,
}
use pactum.Prelude.Js.{get, nat_key}
use pactum.Indexer.Types.{LedgerSnapshot, LedgerSource}
use pactum.Indexer.Store.{IndexerStore, get_ledger}
use pactum.Indexer.Finality.{max, min, search_ancestor, FinalityIndexer, find_common_ancestor}
use pactum.Indexer.Finality.Ancestor.{Agree, IsHighest, disagree, distinct_hash, extend_up, le_max}

module _ (source : LedgerSource) (s : IndexerStore) where
  -- The store and the source both have a ledger of this sequence.
  abbrev pub Comparable : ℕ → Type 0
  Comparable k =
      (stored : LedgerSnapshot) × (canonical : LedgerSnapshot) × (get s.ledgers k ≡ some stored)
      × (source.get_ledger k ≡ some canonical)

  abbrev pub NoneAgrees : ℕ → ℕ → Type 0
  NoneAgrees floor first = (k : ℕ) → floor ≤ k → k ≤ first → ¬ Agree source s k

  abbrev pub SomeComparable : ℕ → ℕ → Type 0
  SomeComparable floor first = (k : ℕ) × (floor ≤ k) × (k ≤ first) × Comparable k

  -- The highest sequence that agrees. Where none does: 0, when the window reaches the start and was
  -- compared somewhere, and nothing otherwise.
  abbrev pub IsAnswer : ℕ → ℕ → ℕ → Option ℕ → Type 0
  IsAnswer start floor first (some n) =
      IsHighest source s floor first n
      ⊎ ((n ≡ 0) × (floor ≡ start) × NoneAgrees floor first × SomeComparable floor first)
  IsAnswer start floor first none =
      NoneAgrees floor first × (floor ≡ start → ¬ SomeComparable floor first)

  -- The same for the rest of the search, with its two flags.
  abbrev Rest : Bool → Bool → ℕ → ℕ → Option ℕ → Type 0
  Rest at_start saw floor first (some n) =
      IsHighest source s floor first n
      ⊎ ((n ≡ 0)
          × (at_start ≡ true)
          × NoneAgrees floor first
          × ((saw ≡ true) ⊎ SomeComparable floor first))
  Rest at_start saw floor first none =
      NoneAgrees floor first × (at_start ≡ true → (saw ≡ false) × (¬ SomeComparable floor first))

  -- A candidate that does not agree, with the flag after it.
  abbrev Passed : ℕ → Bool → Bool → Type 0
  Passed first saw saw' =
      (¬ Agree source s first)
      × (((saw' ≡ saw) × (¬ Comparable first)) ⊎ ((saw' ≡ true) × Comparable first))

  empty_NoneAgrees : (floor first : ℕ) → first + 1 ≤ floor → NoneAgrees floor first
  empty_NoneAgrees floor first h k p q = absurd (omega arith)

  empty_window : (floor first : ℕ) → first + 1 ≤ floor → ¬ SomeComparable floor first
  empty_window floor first h (k, p, q, c) = absurd (omega arith)

  zero-Rest :
      (at_start saw : Bool) (floor first candidate : ℕ)
      → first + 1 ≤ floor
      → Rest at_start saw floor first (search_ancestor source at_start s zero candidate saw)
  unfolding search_ancestor
  zero-Rest true true floor first candidate h =
      inr (refl, refl, empty_NoneAgrees floor first h, inl refl)
  zero-Rest true false floor first candidate h =
      (empty_NoneAgrees floor first h, λ e. (refl, empty_window floor first h))
  zero-Rest false saw floor first candidate h = (empty_NoneAgrees floor first h, λ e. ground arith)

  up_NoneAgrees :
      (floor first : ℕ)
      → ¬ Agree source s first
      → NoneAgrees floor (first - 1)
      → NoneAgrees floor first
  up_NoneAgrees floor first differs below k p q a = elim (Bool-cases (k == first)) [
    | inl same ↦ let z : k ≡ first = ground arith in differs (subst (Agree source s) z a)
    | inr distinct ↦ below k p (ground arith) a
  ]

  up_SomeComparable :
      (floor first : ℕ) → SomeComparable floor (first - 1) → SomeComparable floor first
  up_SomeComparable floor first (k, p, q, c) = (k, p, omega arith, c)

  down_SomeComparable :
      (floor first : ℕ)
      → ¬ Comparable first
      → ¬ SomeComparable floor (first - 1)
      → ¬ SomeComparable floor first
  down_SomeComparable floor first differs below (k, p, q, c) = elim (Bool-cases (k == first)) [
    | inl same ↦ let z : k ≡ first = ground arith in differs (subst Comparable z c)
    | inr distinct ↦ below (k, p, ground arith, c)
  ]

  pass :
      (at_start saw saw' : Bool) (floor first : ℕ) (o : Option ℕ)
      → 1 ≤ floor
      → floor ≤ first
      → Passed first saw saw'
      → Rest at_start saw' floor (first - 1) o
      → Rest at_start saw floor first o
  pass at_start saw saw' floor first (some n) p f (differs, seen) (inl h) =
      inl (extend_up source s floor first n (omega arith) differs h)
  pass at_start saw saw' floor first (some n) p f (differs, inl (e, c)) (inr (z, a, below, inl t)) =
      inr (z, a, up_NoneAgrees floor first differs below, inl (sym e ∙ t))
  pass at_start saw saw' floor first (some n) p f (differs, inl (e, c)) (inr (z, a, below, inr t)) =
      inr (z, a, up_NoneAgrees floor first differs below, inr (up_SomeComparable floor first t))
  pass at_start saw saw' floor first (some n) p f (differs, inr (e, c)) (inr (z, a, below, t)) =
      inr (z, a, up_NoneAgrees floor first differs below, inr (first, f, omega arith, c))
  pass at_start saw saw' floor first none p f (differs, inl (e, c)) (below, h) = (
    up_NoneAgrees floor first differs below,
    λ a. (sym e ∙ (h a).0, down_SomeComparable floor first c (h a).1),
  )
  pass at_start saw saw' floor first none p f (differs, inr (e, c)) (below, h) =
      (up_NoneAgrees floor first differs below, λ a. let q = (h a).0 in absurd (ground arith))

  -- One candidate that agrees, or does not.
  step_cases :
      (at_start : Bool) (steps first : ℕ) (saw : Bool)
      → (Agree source s first
          × (search_ancestor source at_start s (suc steps) first saw ≡ some first))
        ⊎ ((saw' : Bool) × Passed first saw saw'
            × (search_ancestor source at_start s (suc steps) first saw
                ≡ search_ancestor source at_start s steps (first - 1) saw'))
  unfolding search_ancestor get_ledger
  step_cases at_start steps first saw = elim (Option-cases (get s.ledgers first)) [
    | inl absent ↦ inr (
      saw,
      (disagree source s first absent, inl (refl, λ c. let q = c.2 in ground arith)),
      rw (absent, search_ancestor) refl,
    )
    | inr (stored, found) ↦ elim (Option-cases (source.get_ledger first)) [
      | inl unknown ↦ inr (
        saw,
        (λ a. let q = a.in_source in ground arith, inl (refl, λ c. let q = c.3 in ground arith)),
        rw (found, unknown, search_ancestor) refl,
      )
      | inr (canonical, known) ↦ elim (Bool-cases (text_eq canonical.hash stored.hash)) [
        | inl same ↦ inl (
          record {
            stored = stored;
            canonical = canonical;
            in_store = found;
            in_source = known;
            same_hash = text_eq→eq canonical.hash stored.hash same;
          },
          rw (found, known, same, search_ancestor) refl,
        )
        | inr distinct ↦ inr (
          true,
          (
            distinct_hash source s first stored canonical found known distinct,
            inr (refl, (stored, canonical, found, known)),
          ),
          rw (found, known, distinct, search_ancestor) refl,
        )
      ]
    ]
  ]

  search-Rest :
      (at_start : Bool) (steps floor first : ℕ) (saw : Bool)
      → steps ≡ first + 1 - floor
      → 1 ≤ floor
      → Rest at_start saw floor first (search_ancestor source at_start s steps first saw)
  search-Rest at_start zero floor first saw e p =
      zero-Rest at_start saw floor first first (omega arith)
  search-Rest at_start (suc steps) floor first saw e p =
      elim (step_cases at_start steps first saw) [
        | inl (agreement, found) ↦ subst (Rest at_start saw floor first) (sym found) (
            inl (record {
              agrees = agreement;
              low = omega arith;
              high = omega arith;
              highest = λ k q t. ground arith;
            }))
        | inr (saw', passed, found) ↦ subst (Rest at_start saw floor first) (sym found) (
            pass at_start saw saw' floor first _ p (omega arith) passed
              (search-Rest at_start steps floor (first - 1) saw' (omega arith) p))
      ]

  answer :
      (start floor first : ℕ) (o : Option ℕ)
      → Rest (floor == start) false floor first o
      → IsAnswer start floor first o
  answer start floor first (some n) (inl h) = inl h
  answer start floor first (some n) (inr (z, a, differs, inl t)) = absurd (ground arith)
  answer start floor first (some n) (inr (z, a, differs, inr t)) = inr (z, ground arith, differs, t)
  answer start floor first none (differs, h) = (differs, λ e. (h (ground arith)).1)

  -- In the window from `maxRollbackDepth` below the checkpoint, or the start, up to the sequence below
  -- the checkpoint, or the ceiling: the search answers the highest sequence on which store and source
  -- agree. Where they agree on none it answers 0 exactly if the window reaches the start and both
  -- have a ledger of some sequence in it, and nothing otherwise.
  pub find_common_ancestor-IsAnswer :
      (indexer : FinalityIndexer) (sequence ceiling : ℕ)
      → 1 ≤ indexer.start_sequence
      → IsAnswer indexer.start_sequence
          (max indexer.start_sequence (sequence - indexer.max_rollback_depth))
          (min (sequence - 1) ceiling)
          (find_common_ancestor source indexer s sequence ceiling)
  unfolding find_common_ancestor
  find_common_ancestor-IsAnswer indexer sequence ceiling p =
      answer indexer.start_sequence _ _ _
        (search-Rest _ _ _ _ false refl (le_max indexer.start_sequence _ p))
