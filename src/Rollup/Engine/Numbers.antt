-- ===== src/Rollup/Engine/Numbers.antt =====
-- The numbers of the records of a rollup, and the keys of its buffer.
use pactum.Prelude.{
  ℕ, zero, suc, ◌+◌, ◌≤◌, ◌≡◌, refl, ap, List, [], ◌∷◌, ◌++◌, map, none, some, ◌==◌, length,
  Bool-cases, inl, inr, arith,
}
use pactum.Prelude.Js.{JsMap, get, put, delete, nat_key}
use pactum.Rollup.Accumulator.{MerkleAccumulator}
use pactum.Rollup.Engine.{MicroCommitment, RollupRecord, RollupEngine, new_engine, refresh_record}

-- 0, 1, … up to n, without n.
abbrev pub up_to : ℕ → List ℕ
up_to zero = []
up_to (suc n) = up_to n ++ n ∷ []

pub up_to_next : (n : ℕ) → up_to (n + 1) ≡ up_to n ++ n ∷ []
up_to_next n = let same : n + 1 ≡ suc n = omega arith in rw same refl

pub get_empty : (m : JsMap ℕ MicroCommitment) (k : ℕ) → length m ≤ 0 → get m k ≡ none
unfolding get
get_empty [] k l = refl
get_empty (x ∷ m) k l = absurd (omega arith)

abbrev pub numbers : List RollupRecord → List ℕ
numbers [] = []
numbers (r ∷ rs) = r.commitment.sequence_id ∷ numbers rs

abbrev pub Keyed : JsMap ℕ MicroCommitment → Type 0
Keyed [] = Unit {0}
Keyed ((k, c) ∷ m) = (c.sequence_id ≡ k) × Keyed m

pub record IsOrdered (e : RollupEngine) : Type 0 where
  pub numbered : numbers e.records ≡ up_to e.next_sequence_id
  pub keyed : Keyed e.out_of_order
  pub drained : get e.out_of_order e.next_sequence_id ≡ none

pub numbers-append : (rs ss : List RollupRecord) → numbers (rs ++ ss) ≡ numbers rs ++ numbers ss
numbers-append [] ss = refl
numbers-append (r ∷ rs) ss = ap (λ ns. r.commitment.sequence_id ∷ ns) (numbers-append rs ss)

pub numbers-map :
    (f : RollupRecord → RollupRecord) (rs : List RollupRecord)
    → ((r : RollupRecord) → (f r).commitment.sequence_id ≡ r.commitment.sequence_id)
    → numbers (map f rs) ≡ numbers rs
numbers-map f [] h = refl
numbers-map f (r ∷ rs) h = rw (h r, numbers-map f rs h) refl

pub refresh-sequence :
    (acc : MerkleAccumulator) (r : RollupRecord)
    → (refresh_record acc r).commitment.sequence_id ≡ r.commitment.sequence_id
unfolding refresh_record
refresh-sequence acc r = ground arith

pub get-Keyed :
    (m : JsMap ℕ MicroCommitment) (k : ℕ) {c : MicroCommitment}
    → Keyed m
    → get m k ≡ some c
    → c.sequence_id ≡ k
unfolding get
get-Keyed [] k h e = cc
get-Keyed ((j, d) ∷ m) k {c} h e = elim (Bool-cases (j == k)) [
  | inl hit ↦ let same : some d ≡ some c = (rw hit at e) in ground (arith, h.0)
  | inr miss ↦ get-Keyed m k h.1 (rw miss at e)
]

pub put-Keyed :
    (m : JsMap ℕ MicroCommitment) (c : MicroCommitment) → Keyed m → Keyed (put m c.sequence_id c)
unfolding put
put-Keyed [] c h = (refl, tt)
put-Keyed ((j, d) ∷ m) c h = elim (Bool-cases (j == c.sequence_id)) [
  | inl hit ↦ rw hit (ground arith, h.1)
  | inr miss ↦ rw miss (h.0, put-Keyed m c h.1)
]

pub delete-Keyed : (m : JsMap ℕ MicroCommitment) (k : ℕ) → Keyed m → Keyed (delete m k)
unfolding delete
delete-Keyed [] k h = tt
delete-Keyed ((j, d) ∷ m) k h = elim (Bool-cases (j == k)) [
  | inl hit ↦ rw hit h.1
  | inr miss ↦ rw miss (h.0, delete-Keyed m k h.1)
]

pub length-delete :
    (m : JsMap ℕ MicroCommitment) (k : ℕ) {c : MicroCommitment}
    → get m k ≡ some c
    → suc (length (delete m k)) ≡ length m
unfolding get delete
length-delete [] k e = cc
length-delete ((j, d) ∷ m) k e = elim (Bool-cases (j == k)) [
  | inl hit ↦ rw hit refl
  | inr miss ↦ rw miss (ap suc (length-delete m k (rw miss at e)))
]

pub new-IsOrdered : IsOrdered new_engine
unfolding new_engine get
new-IsOrdered = record { numbered = refl; keyed = tt; drained = refl }
