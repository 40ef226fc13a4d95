-- ===== src/Rollup/Engine/Refresh.antt =====
-- What the refresh of all records by their leaf index does to the records of a sealed batch.
use pactum.Prelude.{
  ℕ, zero, suc, ◌≡◌, refl, List, [], ◌∷◌, ◌++◌, map, Option, none, some, ◌==◌, length, get_elem?,
  Text, Bytes, true, arith,
}
use pactum.Prelude.Results.{Result, ok, err}
use pactum.Prelude.Js.{get, put, nat_key}
use pactum.Relayer.Hex.{hex_text}
use pactum.Rollup.Accumulator.{
  new_accumulator, get_leaf, leaf_at, cached_proof, build_proof, cache_proofs, rebuild, appended,
  append_leaf_hash, append_commitment, double_sha256_leaf,
}
use pactum.Rollup.Engine.{
  MicroCommitment, RollupRecord, RollupConfig, RollupEngine, RollupError, new_record,
  apply_micro_commitment, refresh_record, refresh_all, appended_or, apply_in_order,
}
use pactum.Rollup.Engine.Batches.{close_batch}

-- `records[i]` after a call.
abbrev pub record_at : ℕ → Result RollupError RollupEngine → Option RollupRecord
record_at i (err x) = none
record_at i (ok e) = get_elem? e.records i

get_elem?-map-append :
    {A B : Type 0} (f : A → B) (xs ys : List A) (i : ℕ) {x : A}
    → get_elem? xs i ≡ some x
    → get_elem? (map f (xs ++ ys)) i ≡ some (f x)
get_elem?-map-append f [] ys i h = cc
get_elem?-map-append f (z ∷ xs) ys zero h = cc
get_elem?-map-append f (z ∷ xs) ys (suc i) h = get_elem?-map-append f xs ys i h

module _ (sha256 : Bytes → Bytes) (encode : MicroCommitment → Bytes) (config : RollupConfig) where
  refreshed_first :
      (c : MicroCommitment) (r : RollupRecord)
      → r.leaf_index ≡ 0
      → refresh_record (appended sha256 new_accumulator (double_sha256_leaf sha256 (encode c))) r
        ≡ record r { leaf_hash = hex_text (double_sha256_leaf sha256 (encode c)); proof = [] }
  unfolding refresh_record get_leaf leaf_at cached_proof appended new_accumulator rebuild
      cache_proofs build_proof get put
  refreshed_first c r zeroth = rw zeroth refl

  -- When a batch is sealed and a commitment of the next batch is applied, the record of the first
  -- commitment of the sealed batch (any record whose leaf index is 0) loses the hash and the path
  -- under the sealed root: it holds the hash of the new commitment, with an empty path.
  pub apply_in_order-overwrites_sealed :
      (c : MicroCommitment) (sealed_at now i : ℕ) (root : Text) (commitments : List RollupRecord)
      (e : RollupEngine) (r : RollupRecord)
      → length (sha256 (sha256 (encode c))) ≡ 32
      → c.sequence_id ≡ e.next_sequence_id
      → get_elem? e.records i ≡ some r
      → r.leaf_index ≡ 0
      → record_at i
          (apply_in_order sha256 encode config c now (close_batch sealed_at root commitments e))
        ≡ some (record r { leaf_hash = hex_text (sha256 (sha256 (encode c))); proof = [] })
  unfolding apply_in_order close_batch append_commitment append_leaf_hash double_sha256_leaf
      appended_or apply_micro_commitment refresh_all new_record
  apply_in_order-overwrites_sealed c sealed_at now i root commitments e r digest same found zeroth =
      let due : (c.sequence_id == e.next_sequence_id) ≡ true = ground (arith, same) in
      rw
        (
          digest,
          due,
          get_elem?-map-append
              (refresh_record (appended sha256 new_accumulator (sha256 (sha256 (encode c)))))
              e.records _ i found,
          refreshed_first c r zeroth,
        )
        refl
