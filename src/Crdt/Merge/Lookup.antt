-- ===== src/Crdt/Merge/Lookup.antt =====
-- What the merged list holds for each id.
use pactum.Prelude.{
  ℕ, ◌≡◌, refl, ap, ◌∙◌, inl, inr, List, [], ◌∷◌, Bool, true, false, ◌||◌, Bool-cases,
  if◌then◌else◌, ◌==◌, Option, none, some,
}
use pactum.Prelude.Js.{has, Distinct, nat_key}
use pactum.Crdt.Merge.{
  Commitment, StoredCommitment, is_pending, find_stored, refreshed, merged_record, canonical_loop,
  merge_commitments_from_canonical,
}
use pactum.Crdt.Merge.Loops.{
  canonical_loop-listed, canonical_loop-pushed, expected, find-append, find-kept, find-pushed,
  find_canonical, kept, kept_pending, listed, or_else, pending_loop-kept, pushed_for, stored_ids,
}

is_found : Option Commitment → Bool
is_found none = false
is_found (some _) = true

or_false : (b : Bool) → (b || false) ≡ b
or_false true = refl
or_false false = refl

pending_or_new :
    (now : ℕ) (o : Option StoredCommitment) (c : Commitment)
    → some (merged_record now o c) ≡ or_else (kept_pending o) (some (refreshed now c))
unfolding merged_record or_else kept_pending
pending_or_new now none c = refl
pending_or_new now (some l) c = elim (Bool-cases (is_pending l)) [
  | inl p ↦ rw p refl
  | inr p ↦ rw p refl
]

listed-find : (cs : List Commitment) (id : ℕ) → listed cs id ≡ is_found (find_canonical cs id)
unfolding find_canonical is_found
listed-find [] id = refl
listed-find (c ∷ cs) id = elim (Bool-cases (c.id == id)) [
  | inl hit ↦ rw (hit, is_found) refl
  | inr miss ↦ rw miss (listed-find cs id)
]

combine :
    (stored : List StoredCommitment) (now id : ℕ) (o : Option Commitment)
    → or_else
        (pushed_for stored now id o)
        (if is_found o then none else kept_pending (find_stored stored id))
      ≡ expected (find_stored stored id) o now
unfolding or_else pushed_for is_found expected
combine stored now id none = refl
combine stored now id (some c) = pending_or_new now (find_stored stored id) c

-- When the local ids are distinct, the merged list holds for every id exactly the pending local record,
-- or else the first canonical record of that id, refreshed; an id that has neither is gone.
pub find-merge_commitments_from_canonical :
    (stored : List StoredCommitment) (canonical : List Commitment) (now id : ℕ)
    → Distinct (stored_ids stored)
    → find_stored (merge_commitments_from_canonical stored canonical now) id
      ≡ expected (find_stored stored id) (find_canonical canonical id) now
unfolding merge_commitments_from_canonical has
find-merge_commitments_from_canonical stored canonical now id d =
    let r = canonical_loop stored now [] [] canonical in
    let seen_same : has r.0 id ≡ is_found (find_canonical canonical id) =
      canonical_loop-listed stored now [] [] canonical id
      ∙ or_false (listed canonical id)
      ∙ listed-find canonical id in
    ap (λ x. find_stored x id) (pending_loop-kept r.0 r.1 stored)
    ∙ find-append r.1 (kept r.0 stored) id
    ∙ ap (λ x. or_else (find_stored x id) (find_stored (kept r.0 stored) id))
        (canonical_loop-pushed stored now [] [] canonical)
    ∙ ap (λ x. or_else x (find_stored (kept r.0 stored) id)) (find-pushed stored now id canonical)
    ∙ ap (or_else (pushed_for stored now id (find_canonical canonical id)))
        (find-kept r.0 stored id d)
    ∙ ap
        (λ b.
          or_else (pushed_for stored now id (find_canonical canonical id))
            (if b then none else kept_pending (find_stored stored id)))
        seen_same
    ∙ combine stored now id (find_canonical canonical id)
