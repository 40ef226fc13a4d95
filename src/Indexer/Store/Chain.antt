-- ===== src/Indexer/Store/Chain.antt =====
-- The stored ledgers form one hash-linked chain that ends at the checkpoint.
use pactum.Prelude.{
  ℕ, ◌+◌, ◌≤◌, ◌≡◌, refl, sym, ap, ◌∙◌, inl, inr, ◌⊎◌, [], ◌∷◌, true, if◌then◌else◌, ltb, ◌==◌,
  Option, none, some, Option-cases, Bool-cases, Text, text_eq→eq, arith,
}
use pactum.Prelude.Js.{JsMap, get, put, get-put, nat_key, same_refl}
use pactum.Indexer.Types.{LedgerSnapshot, LedgerCheckpoint}
use pactum.Indexer.Store.{
  IndexerStore, new_store, links_to, checkpoint_of, refusal, append_ledger, delete_above,
}

pub record IsChain (s : IndexerStore) : Type 0 where
  pub empty : s.checkpoint ≡ none → (n : ℕ) → get s.ledgers n ≡ none
  pub tip :
      (c : LedgerCheckpoint)
      → s.checkpoint ≡ some c
      → (l : LedgerSnapshot) × (get s.ledgers c.sequence ≡ some l) × (l.hash ≡ c.hash)
  pub range :
      (c : LedgerCheckpoint) (n : ℕ) (l : LedgerSnapshot)
      → s.checkpoint ≡ some c
      → get s.ledgers n ≡ some l
      → (1 ≤ n) × (n ≤ c.sequence)
  pub linked :
      (n : ℕ) (l l' : LedgerSnapshot)
      → get s.ledgers n ≡ some l
      → get s.ledgers (n + 1) ≡ some l'
      → l'.previous_hash ≡ some l.hash

pub get-delete_above :
    (n : ℕ) (m : JsMap ℕ LedgerSnapshot) (k : ℕ)
    → get (delete_above n m) k ≡ (if ltb n k then none else get m k)
unfolding get delete_above
get-delete_above n [] k = ground arith
get-delete_above n ((j, l) ∷ m) k = ground (arith, get-delete_above n m k)

pub new_store-IsChain : IsChain new_store
unfolding get
new_store-IsChain = record {
  empty = λ h n. refl;
  tip = λ c h. ground arith;
  range = λ c n l h g. ground arith;
  linked = λ n l l' g g'. ground arith;
}

pub links_to→eq : (p : Option Text) (h : Text) → links_to p h ≡ true → p ≡ some h
unfolding links_to
links_to→eq none h e = ground arith
links_to→eq (some p) h e = let q = text_eq→eq p h e in cc

-- What an accepted ledger is to the checkpoint.
refusal-none :
    (o : Option LedgerCheckpoint) (l : LedgerSnapshot) (c : LedgerCheckpoint)
    → refusal o l ≡ none
    → o ≡ some c
    → (l.sequence ≡ c.sequence + 1) × (l.previous_hash ≡ some c.hash)
unfolding refusal
refusal-none none l c r e = ground arith
refusal-none (some d) l c r e = elim (Bool-cases (l.sequence == d.sequence + 1)) [
  | inr miss ↦ ground arith
  | inl next ↦ elim (Bool-cases (links_to l.previous_hash d.hash)) [
    | inr miss ↦ ground arith
    | inl link ↦
        let p = links_to→eq l.previous_hash d.hash link in let q : d ≡ c = cc in (ground arith, cc)
  ]
]

module _ (s : IndexerStore) (ledger : LedgerSnapshot) where
  entry_cases :
      (n : ℕ) (l : LedgerSnapshot)
      → get (put s.ledgers ledger.sequence ledger) n ≡ some l
      → ((n ≡ ledger.sequence) × (l ≡ ledger)) ⊎ (get s.ledgers n ≡ some l)
  entry_cases n l g = elim (Bool-cases (ledger.sequence == n)) [
    | inl same ↦
        let e : some ledger ≡ some l =
          (rw (get-put s.ledgers ledger.sequence n ledger, same) at g) in
        inl (ground arith, cc)
    | inr distinct ↦ inr (rw (get-put s.ledgers ledger.sequence n ledger, distinct) at g)
  ]

  module _ (h : IsChain s) (r : refusal s.checkpoint ledger ≡ none) where
    old_range :
        (n : ℕ) (l : LedgerSnapshot)
        → get s.ledgers n ≡ some l
        → (1 ≤ n) × (n + 1 ≤ ledger.sequence)
    old_range n l g = elim (Option-cases s.checkpoint) [
      | inl fresh ↦ let e = h.empty fresh n in ground arith
      | inr (c, e) ↦
          let (next, _) = refusal-none s.checkpoint ledger c r e in
          let (low, high) = h.range c n l e g in (low, omega arith)
    ]

    new_link :
        (n : ℕ) (l : LedgerSnapshot)
        → get s.ledgers n ≡ some l
        → n + 1 ≡ ledger.sequence
        → ledger.previous_hash ≡ some l.hash
    new_link n l g q = elim (Option-cases s.checkpoint) [
      | inl fresh ↦ let e = h.empty fresh n in ground arith
      | inr (c, e) ↦
          let (next, link) = refusal-none s.checkpoint ledger c r e in
          let (l0, found, hash_same) = h.tip c e in
          let k : c.sequence ≡ n = omega arith in
          let found' : get s.ledgers n ≡ some l0 = ap (get s.ledgers) (sym k) ∙ found in
          let same : l0 ≡ l = cc in cc
    ]

    pub extended-IsChain :
        1 ≤ ledger.sequence
        → IsChain (record {
          ledgers = put s.ledgers ledger.sequence ledger;
          checkpoint = some (checkpoint_of ledger);
        })
    extended-IsChain p = record {
      empty = λ e n. ground arith;
      tip = λ c e.
          let q : checkpoint_of ledger ≡ c = cc in
          (
            ledger,
            rw
                (
                  get-put s.ledgers ledger.sequence c.sequence ledger,
                  sym q,
                  same_refl ledger.sequence,
                )
                refl,
            ap (λ x. x.hash) q,
          );
      range = λ c n l e g.
          let q : checkpoint_of ledger ≡ c = cc in
          let k : ledger.sequence ≡ c.sequence = ap (λ x. x.sequence) q in
          elim (entry_cases n l g) [
            | inl (same, _) ↦ (omega arith, omega arith)
            | inr old ↦ let (low, high) = old_range n l old in (low, omega arith)
          ];
      linked = λ n l l' g g'. elim (entry_cases n l g) [
        | inl (same, _) ↦ elim (entry_cases (n + 1) l' g') [
          | inl (same', _) ↦ ground arith
          | inr old' ↦ let (low, high) = old_range (n + 1) l' old' in ground arith
        ]
        | inr old ↦ elim (entry_cases (n + 1) l' g') [
          | inl (same', new') ↦ rw new' (new_link n l old same')
          | inr old' ↦ h.linked n l l' old old'
        ]
      ];
    }

-- The store after an append that is not refused.
abbrev pub extend : IndexerStore → LedgerSnapshot → IndexerStore
extend s ledger = record {
  ledgers = put s.ledgers ledger.sequence ledger;
  checkpoint = some (checkpoint_of ledger);
}

pub append_accepted :
    (s : IndexerStore) (ledger : LedgerSnapshot)
    → refusal s.checkpoint ledger ≡ none
    → append_ledger s ledger ≡ (none, extend s ledger)
unfolding append_ledger put
append_accepted s ledger fine = rw (fine, append_ledger) refl

-- A ledger that is refused changes nothing, one that is accepted is the new end of the chain: the
-- stored ledgers stay one chain, if they were one and the new ledger's sequence is positive.
pub append_ledger-IsChain :
    (s : IndexerStore) (ledger : LedgerSnapshot)
    → IsChain s
    → 1 ≤ ledger.sequence
    → IsChain (append_ledger s ledger).1
unfolding append_ledger
append_ledger-IsChain s ledger h p = elim (Option-cases (refusal s.checkpoint ledger)) [
  | inl fine ↦ rw (append_accepted s ledger fine) (extended-IsChain s ledger h fine p)
  | inr (error, refused) ↦ rw (refused, append_ledger) h
]
