-- ===== src/Indexer/Store/Rollback.antt =====
-- A rollback leaves a chain that ends at the ledger it goes back to.
use pactum.Prelude.{
  ℕ, ◌+◌, ◌≤◌, ◌≡◌, refl, sym, ap, inl, inr, ◌⊎◌, false, ◌==◌, none, some, Option-cases, arith,
}
use pactum.Prelude.Js.{get, nat_key}
use pactum.Indexer.Types.{LedgerSnapshot}
use pactum.Indexer.Store.{IndexerStore, delete_above, rollback_to}
use pactum.Indexer.Store.Chain.{IsChain, get-delete_above}

module _ (s : IndexerStore) (h : IsChain s) where
  zero_missing : get s.ledgers 0 ≡ none
  zero_missing = elim (Option-cases s.checkpoint) [
    | inl fresh ↦ h.empty fresh 0
    | inr (c, e) ↦ elim (Option-cases (get s.ledgers 0)) [
      | inl absent ↦ absent
      | inr (l, found) ↦ let (low, high) = h.range c 0 l e found in ground arith
    ]
  ]

  kept_entry :
      (n k : ℕ) (l : LedgerSnapshot)
      → get (delete_above n s.ledgers) k ≡ some l
      → (k ≤ n) × (get s.ledgers k ≡ some l)
  kept_entry n k l g = ground (arith, get-delete_above n s.ledgers k)

  pub positive : (k : ℕ) (l : LedgerSnapshot) → get s.ledgers k ≡ some l → 1 ≤ k
  positive k l g = elim (Option-cases s.checkpoint) [
    | inl fresh ↦ let z = h.empty fresh k in ground arith
    | inr (c, e) ↦ (h.range c k l e g).0
  ]

  -- Dropping every ledger.
  pub cleared-IsChain : IsChain (record { ledgers = delete_above 0 s.ledgers; checkpoint = none })
  cleared-IsChain =
      let gone : (n : ℕ) → get (delete_above 0 s.ledgers) n ≡ none = λ n.
        elim (Option-cases (get (delete_above 0 s.ledgers) n)) [
          | inl absent ↦ absent
          | inr (l, found) ↦
              let (k, old) = kept_entry 0 n l found in
              let z : n ≡ 0 = omega arith in
              let m : get s.ledgers n ≡ none = rw z zero_missing in ground arith
        ] in
      record {
        empty = λ e n. gone n;
        tip = λ c e. ground arith;
        range = λ c n l e g. ground arith;
        linked = λ n l l' g g'. let m = gone n in ground arith;
      }

  pub shortened-IsChain :
      (n : ℕ) (l : LedgerSnapshot)
      → get s.ledgers n ≡ some l
      → IsChain (record {
        ledgers = delete_above n s.ledgers;
        checkpoint = some (record { sequence = n; hash = l.hash });
      })
  shortened-IsChain n l stored = record {
    empty = λ e k. ground arith;
    tip = λ c e.
        let q : record { sequence = n; hash = l.hash } ≡ c = cc in
        (
          l,
          rw (get-delete_above n s.ledgers c.sequence, sym q) (ground (arith, stored)),
          ap (λ x. x.hash) q,
        );
    range = λ c k l' e g.
        let q : record { sequence = n; hash = l.hash } ≡ c = cc in
        let z : n ≡ c.sequence = ap (λ x. x.sequence) q in
        let (low, old) = kept_entry n k l' g in (positive k l' old, omega arith);
    linked = λ k a b g g'. h.linked k a b (kept_entry n k a g).1 (kept_entry n (k + 1) b g').1;
  }

pub rollback_zero :
    (s : IndexerStore)
    → rollback_to s 0 ≡ (none, record { ledgers = delete_above 0 s.ledgers; checkpoint = none })
unfolding rollback_to
rollback_zero s = refl

pub rollback_stored :
    (s : IndexerStore) (n : ℕ) (l : LedgerSnapshot)
    → 1 ≤ n
    → get s.ledgers n ≡ some l
    → rollback_to s n ≡ (
      none,
      record {
        ledgers = delete_above n s.ledgers;
        checkpoint = some (record { sequence = n; hash = l.hash });
      },
    )
unfolding rollback_to
rollback_stored s n l p g =
    let z : (n == 0) ≡ false = ground arith in
    let k : get (delete_above n s.ledgers) n ≡ some l =
      rw (get-delete_above n s.ledgers n) (ground (arith, g)) in
    rw (z, k, rollback_to) refl

-- From a chain, rolling back to the start or to a stored ledger succeeds and leaves a chain.
pub rollback_to-IsChain :
    (s : IndexerStore) (n : ℕ)
    → IsChain s
    → (n ≡ 0) ⊎ ((l : LedgerSnapshot) × (get s.ledgers n ≡ some l))
    → ((rollback_to s n).0 ≡ none) × IsChain (rollback_to s n).1
rollback_to-IsChain s n h (inl z) = rw (z, rollback_zero s) (refl, cleared-IsChain s h)
rollback_to-IsChain s n h (inr (l, g)) =
    rw (rollback_stored s n l (positive s h n l g) g) (refl, shortened-IsChain s h n l g)
