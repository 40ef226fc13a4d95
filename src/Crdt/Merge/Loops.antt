-- ===== src/Crdt/Merge/Loops.antt =====
-- What the two loops of the merge push, and what is found there for an id.
use pactum.Prelude.{
  ℕ, ◌≡◌, refl, sym, ap, ◌∙◌, inl, inr, List, [], ◌∷◌, ◌++◌, Bool, true, false, ◌&&◌, ◌||◌, not,
  Bool-cases, if◌then◌else◌, ◌==◌, Option, none, some, Option-cases, append-nil, append_assoc,
  ==_iff, arith,
}
use pactum.Prelude.Js.{JsSet, has, add, has-add, Distinct, nat_key}
use pactum.Crdt.Merge.{
  Commitment, StoredCommitment, is_pending, find_stored, refreshed, merged_record, canonical_loop,
  pending_loop,
}

-- The first canonical record of an id.
unfoldable pub find_canonical : List Commitment → ℕ → Option Commitment
find_canonical [] id = none
find_canonical (c ∷ cs) id = if c.id == id then some c else find_canonical cs id

abbrev pub stored_ids : List StoredCommitment → List ℕ
stored_ids [] = []
stored_ids (l ∷ ls) = l.commitment.id ∷ stored_ids ls

-- A pending local record, or nothing.
unfoldable pub kept_pending : Option StoredCommitment → Option StoredCommitment
kept_pending none = none
kept_pending (some l) = if is_pending l then some l else none

unfoldable pub or_else : {A : Type 0} → Option A → Option A → Option A
or_else none d = d
or_else (some a) d = some a

-- What the merge should hold for an id: a pending local record, else the canonical one refreshed.
unfoldable pub expected : Option StoredCommitment → Option Commitment → ℕ → Option StoredCommitment
expected l none now = kept_pending l
expected l (some c) now = or_else (kept_pending l) (some (refreshed now c))

pub find-append :
    (xs ys : List StoredCommitment) (id : ℕ)
    → find_stored (xs ++ ys) id ≡ or_else (find_stored xs id) (find_stored ys id)
unfolding find_stored or_else
find-append [] ys id = refl
find-append (x ∷ xs) ys id = elim (Bool-cases (x.commitment.id == id)) [
  | inl hit ↦ rw hit refl
  | inr miss ↦ rw miss (find-append xs ys id)
]

-- The records that the loops push, without what was there before.
abbrev pushed : List StoredCommitment → ℕ → List Commitment → List StoredCommitment
pushed stored now [] = []
pushed stored now (c ∷ cs) = merged_record now (find_stored stored c.id) c ∷ pushed stored now cs

pub canonical_loop-pushed :
    (stored : List StoredCommitment) (now : ℕ) (seen : JsSet ℕ) (merged : List StoredCommitment)
    (cs : List Commitment)
    → (canonical_loop stored now seen merged cs).1 ≡ merged ++ pushed stored now cs
unfolding canonical_loop
canonical_loop-pushed stored now seen merged [] = sym (append-nil merged)
canonical_loop-pushed stored now seen merged (c ∷ cs) =
    let x = merged_record now (find_stored stored c.id) c in
    canonical_loop-pushed stored now (add seen c.id) (merged ++ x ∷ []) cs
    ∙ append_assoc merged (x ∷ []) (pushed stored now cs)

abbrev pub listed : List Commitment → ℕ → Bool
listed [] id = false
listed (c ∷ cs) id = (c.id == id) || listed cs id

pub canonical_loop-listed :
    (stored : List StoredCommitment) (now : ℕ) (seen : JsSet ℕ) (merged : List StoredCommitment)
    (cs : List Commitment) (id : ℕ)
    → has (canonical_loop stored now seen merged cs).0 id ≡ (listed cs id || has seen id)
unfolding canonical_loop
canonical_loop-listed stored now seen merged [] id = refl
canonical_loop-listed stored now seen merged (c ∷ cs) id =
    let r =
      canonical_loop-listed stored now (add seen c.id)
        (merged ++ merged_record now (find_stored stored c.id) c ∷ []) cs id in
    ground (arith, r, has-add seen c.id id)

abbrev pub kept : JsSet ℕ → List StoredCommitment → List StoredCommitment
kept seen [] = []
kept seen (l ∷ ls) =
    if not (has seen l.commitment.id) && is_pending l then l ∷ kept seen ls else kept seen ls

pub pending_loop-kept :
    (seen : JsSet ℕ) (merged ls : List StoredCommitment)
    → pending_loop seen merged ls ≡ merged ++ kept seen ls
unfolding pending_loop
pending_loop-kept seen merged [] = sym (append-nil merged)
pending_loop-kept seen merged (l ∷ ls) =
    elim (Bool-cases (not (has seen l.commitment.id) && is_pending l)) [
      | inl push ↦ rw push (
          pending_loop-kept seen (merged ++ l ∷ []) ls
          ∙ append_assoc merged (l ∷ []) (kept seen ls))
      | inr pass ↦ rw pass (pending_loop-kept seen merged ls)
    ]

find_stored_id :
    (ls : List StoredCommitment) (id : ℕ) (l : StoredCommitment)
    → find_stored ls id ≡ some l
    → l.commitment.id ≡ id
unfolding find_stored
find_stored_id [] id l h = ground arith
find_stored_id (x ∷ ls) id l h = elim (Bool-cases (x.commitment.id == id)) [
  | inl hit ↦
      let q : some x ≡ some l = (rw hit at h) in
      let e : x ≡ l = cc in sym (ap (λ y. y.commitment.id) e) ∙ (==_iff x.commitment.id id).0 hit
  | inr miss ↦ find_stored_id ls id l (rw miss at h)
]

merged_record_id :
    (now : ℕ) (stored : List StoredCommitment) (c : Commitment)
    → (merged_record now (find_stored stored c.id) c).commitment.id ≡ c.id
unfolding merged_record refreshed
merged_record_id now stored c = elim (Option-cases (find_stored stored c.id)) [
  | inl absent ↦ rw absent refl
  | inr (l, found) ↦ rw found (elim (Bool-cases (is_pending l)) [
    | inl p ↦ rw p (find_stored_id stored c.id l found)
    | inr p ↦ rw p refl
  ])
]

-- The record pushed for the first canonical record of an id.
unfoldable pub pushed_for :
    List StoredCommitment → ℕ → ℕ → Option Commitment → Option StoredCommitment
pushed_for stored now id none = none
pushed_for stored now id (some c) = some (merged_record now (find_stored stored id) c)

pub find-pushed :
    (stored : List StoredCommitment) (now id : ℕ) (cs : List Commitment)
    → find_stored (pushed stored now cs) id ≡ pushed_for stored now id (find_canonical cs id)
unfolding find_stored find_canonical pushed_for
find-pushed stored now id [] = refl
find-pushed stored now id (c ∷ cs) =
    let same : ((merged_record now (find_stored stored c.id) c).commitment.id == id)
        ≡ (c.id == id) =
      ap (λ i. i == id) (merged_record_id now stored c) in
    elim (Bool-cases (c.id == id)) [
      | inl hit ↦
          rw (same, hit)
            (ap (λ i. some (merged_record now (find_stored stored i) c)) ((==_iff c.id id).0 hit))
      | inr miss ↦ rw (same, miss) (find-pushed stored now id cs)
    ]

find_absent :
    (ls : List StoredCommitment) (id : ℕ)
    → has (stored_ids ls) id ≡ false
    → find_stored ls id ≡ none
unfolding find_stored has
find_absent [] id h = refl
find_absent (l ∷ ls) id h = ground (arith, find_absent ls id)

-- The head of the list is not kept, or is.
skipped :
    (seen : JsSet ℕ) (l : StoredCommitment) (ls : List StoredCommitment)
    → (not (has seen l.commitment.id) && is_pending l) ≡ false
    → kept seen (l ∷ ls) ≡ kept seen ls
skipped seen l ls h = rw h refl

taken :
    (seen : JsSet ℕ) (l : StoredCommitment) (ls : List StoredCommitment)
    → (not (has seen l.commitment.id) && is_pending l) ≡ true
    → kept seen (l ∷ ls) ≡ l ∷ kept seen ls
taken seen l ls h = rw h refl

find_head :
    (l : StoredCommitment) (ls : List StoredCommitment) (id : ℕ)
    → (l.commitment.id == id) ≡ true
    → find_stored (l ∷ ls) id ≡ some l
unfolding find_stored
find_head l ls id h = rw h refl

find_tail :
    (l : StoredCommitment) (ls : List StoredCommitment) (id : ℕ)
    → (l.commitment.id == id) ≡ false
    → find_stored (l ∷ ls) id ≡ find_stored ls id
unfolding find_stored
find_tail l ls id h = rw h refl

pub neither : {A : Type 0} (b : Bool) (d : Option A) → d ≡ none → none ≡ (if b then none else d)
neither true d e = refl
neither false d e = sym e

push_case :
    (b p : Bool) (l : StoredCommitment)
    → (not b && p) ≡ true
    → some l ≡ (if b then none else if p then some l else none)
push_case true p l h = ground arith
push_case false true l h = refl
push_case false false l h = ground arith

pass_case :
    (b p : Bool) (l : StoredCommitment) (d : Option StoredCommitment)
    → (not b && p) ≡ false
    → d ≡ none
    → (if b then none else d) ≡ (if b then none else if p then some l else none)
pass_case true p l d h e = refl
pass_case false true l d h e = ground arith
pass_case false false l d h e = e

pub find-kept :
    (seen : JsSet ℕ) (ls : List StoredCommitment) (id : ℕ)
    → Distinct (stored_ids ls)
    → find_stored (kept seen ls) id
      ≡ (if has seen id then none else kept_pending (find_stored ls id))
unfolding kept_pending find_stored
find-kept seen [] id d = neither (has seen id) none refl
find-kept seen (l ∷ ls) id d = elim (Bool-cases (l.commitment.id == id)) [
  | inr miss ↦
      rw (find_tail l ls id miss)
        (elim (Bool-cases (not (has seen l.commitment.id) && is_pending l)) [
          | inl push ↦
              ap (λ x. find_stored x id) (taken seen l ls push)
              ∙ find_tail l (kept seen ls) id miss
              ∙ find-kept seen ls id d.1
          | inr pass ↦
              ap (λ x. find_stored x id) (skipped seen l ls pass) ∙ find-kept seen ls id d.1
        ])
  | inl hit ↦
      let e = (==_iff l.commitment.id id).0 hit in
      let s : has seen l.commitment.id ≡ has seen id = ap (has seen) e in
      let none_left : find_stored ls id ≡ none =
        find_absent ls id (ap (has (stored_ids ls)) (sym e) ∙ d.0) in
      let rest = find-kept seen ls id d.1 in
      rw (find_head l ls id hit)
        (elim (Bool-cases (not (has seen l.commitment.id) && is_pending l)) [
          | inl push ↦
              ap (λ x. find_stored x id) (taken seen l ls push)
              ∙ find_head l (kept seen ls) id hit
              ∙ push_case (has seen id) (is_pending l) l
                  (ap (λ b. not b && is_pending l) (sym s) ∙ push)
          | inr pass ↦
              ap (λ x. find_stored x id) (skipped seen l ls pass)
              ∙ rest
              ∙ pass_case (has seen id) (is_pending l) l (kept_pending (find_stored ls id))
                  (ap (λ b. not b && is_pending l) (sym s) ∙ pass) (ap kept_pending none_left)
        ])
]
