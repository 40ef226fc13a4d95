-- ===== src/Tests/Clock.antt =====
-- Runs of the vector clocks and of the merge: two clocks that are concurrent, and a local
-- list with a pending record.
use pactum.Prelude.{ℕ, List, none, ◌+◌, ◌≡◌, ◌≤◌, ◌↔◌, refl, [], ◌∷◌, true, Text, some}
use pactum.Prelude.Js.{has, Distinct, nat_key, text_key}
use pactum.Crdt.Merge.{Commitment, StoredCommitment, find_stored, merge_commitments_from_canonical}
use pactum.Crdt.Merge.Lookup.{find-merge_commitments_from_canonical}
use pactum.Crdt.Merge.Loops.{find_canonical, expected, stored_ids}
use pactum.Crdt.VectorClock.{Clock, counter, happens_before, merge_vector_clocks, max}
use pactum.Crdt.VectorClock.Order.{happens_before_iff}
use pactum.Crdt.VectorClock.Merge.{counter-merge_vector_clocks}

abbrev ann : Text
ann = b'a' ∷ []

abbrev ben : Text
ben = b'b' ∷ []

abbrev left : Clock
left = (ann, 2) ∷ (ben, 1) ∷ []

abbrev right : Clock
right = (ben, 3) ∷ []

happens_before_iff_example : (happens_before left right ≡ true) ↔ (
    ((k : Text) → counter left k ≤ counter right k)
    × ((k : Text) × (counter left k + 1 ≤ counter right k)))
happens_before_iff_example = happens_before_iff left right

counter-merge_vector_clocks_example :
    counter (merge_vector_clocks left right).0 ben ≡ max (counter left ben) (counter right ben)
counter-merge_vector_clocks_example = counter-merge_vector_clocks left right ben

abbrev commitment : ℕ → Commitment
commitment n = record {
  id = n;
  issuer = ann;
  counterparty = ben;
  terms_hash = [];
  due_at = 0;
  status = [];
  outcome = none;
  created_at = none;
  attested_at = none;
  encrypted = none;
}

abbrev stored : List StoredCommitment
stored =
    record { commitment = commitment 1; updated_at = 5; pending = some true }
    ∷ record { commitment = commitment 2; updated_at = 6; pending = none }
    ∷ []

ids-Distinct : Distinct (stored_ids stored)
unfolding has
ids-Distinct = (refl, (refl, tt))

find-merge_commitments_from_canonical_example :
    find_stored (merge_commitments_from_canonical stored (commitment 2 ∷ commitment 3 ∷ []) 9) 1
    ≡ expected (find_stored stored 1) (find_canonical (commitment 2 ∷ commitment 3 ∷ []) 1) 9
find-merge_commitments_from_canonical_example =
    find-merge_commitments_from_canonical stored (commitment 2 ∷ commitment 3 ∷ []) 9 1 ids-Distinct
