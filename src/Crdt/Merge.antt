-- ===== src/Crdt/Merge.antt =====
-- frontend/src/lib/crdt/merge.ts and types.ts: the merge of the canonical lists into the local cache.
-- Ids are numbers, and `String(id)` tells two of them apart as `==` does.
pub mod Lookup
pub mod Loops
use pactum.Prelude.{
  ℕ, List, [], ◌∷◌, ◌++◌, Bool, true, false, ◌&&◌, ◌||◌, not, if◌then◌else◌, ◌==◌, Option, none,
  some, Text,
}
use pactum.Prelude.Js.{JsSet, JsMap, has, add, put, values, nat_key, text_key}

-- `Commitment` of frontend/src/lib/api.ts; `outcome ?? null` makes no difference here.
pub record Commitment : Type 0 where
  pub id : ℕ
  pub issuer : Text
  pub counterparty : Text
  pub terms_hash : Text
  pub due_at : ℕ
  pub status : Text
  pub outcome : Option Text
  pub created_at : Option ℕ
  pub attested_at : Option ℕ
  pub encrypted : Option Bool

pub record StoredCommitment : Type 0 where
  pub commitment : Commitment
  pub updated_at : ℕ
  pub pending : Option Bool

-- `if (record.pending)`
unfoldable pub is_pending : StoredCommitment → Bool
is_pending l = elim l.pending [ none ↦ false | some b ↦ b ]

-- `local.find((l) => String(l.id) === key)`
unfoldable pub find_stored : List StoredCommitment → ℕ → Option StoredCommitment
find_stored [] id = none
find_stored (l ∷ ls) id = if l.commitment.id == id then some l else find_stored ls id

unfoldable pub refreshed : ℕ → Commitment → StoredCommitment
refreshed now c = record { commitment = c; updated_at = now; pending = some false }

-- The record that the first loop pushes.
unfoldable pub merged_record : ℕ → Option StoredCommitment → Commitment → StoredCommitment
merged_record now none c = refreshed now c
merged_record now (some existing) c = if is_pending existing then existing else refreshed now c

unfoldable pub canonical_loop :
    List StoredCommitment
    → ℕ
    → JsSet ℕ
    → List StoredCommitment
    → List Commitment
    → JsSet ℕ × List StoredCommitment
canonical_loop stored now seen merged [] = (seen, merged)
canonical_loop stored now seen merged (c ∷ cs) =
    canonical_loop stored now (add seen c.id)
      (merged ++ merged_record now (find_stored stored c.id) c ∷ []) cs

unfoldable pub pending_loop :
    JsSet ℕ → List StoredCommitment → List StoredCommitment → List StoredCommitment
pending_loop seen merged [] = merged
pending_loop seen merged (l ∷ ls) =
    pending_loop seen
      (if not (has seen l.commitment.id) && is_pending l then merged ++ l ∷ [] else merged) ls

unfoldable pub merge_commitments_from_canonical :
    List StoredCommitment → List Commitment → ℕ → List StoredCommitment
merge_commitments_from_canonical stored canonical now =
    let (seen, merged) = canonical_loop stored now [] [] canonical in
    pending_loop seen merged stored

pub record Reputation : Type 0 where
  pub address : Text
  pub fulfilled : ℕ
  pub late : ℕ
  pub breached : ℕ
  pub total : ℕ

pub record StoredReputation : Type 0 where
  pub reputation : Reputation
  pub updated_at : ℕ

-- `new Map(local.map((r) => [r.address, r]))`, on top of what the map has.
unfoldable pub local_loop :
    JsMap Text StoredReputation → List StoredReputation → JsMap Text StoredReputation
local_loop m [] = m
local_loop m (r ∷ rs) = local_loop (put m r.reputation.address r) rs

unfoldable pub reputation_loop :
    JsMap Text StoredReputation → ℕ → List Reputation → JsMap Text StoredReputation
reputation_loop m now [] = m
reputation_loop m now (r ∷ rs) =
    reputation_loop (put m r.address (record { reputation = r; updated_at = now })) now rs

unfoldable pub merge_reputations_from_canonical :
    List StoredReputation → List Reputation → ℕ → List StoredReputation
merge_reputations_from_canonical stored canonical now =
    values (reputation_loop (local_loop [] stored) now canonical)
