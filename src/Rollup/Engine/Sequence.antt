-- ===== src/Rollup/Engine/Sequence.antt =====
-- The order of a rollup: commitments are taken by their sequence, without a gap, through any calls.
use pactum.Prelude.{
  ℕ, zero, suc, ◌≤◌, ◌<◌, ◌≡◌, refl, sym, ◌∙◌, true, [], ◌∷◌, Option, none, some, ltb, ◌==◌, length,
  Bool-cases, inl, inr, Bytes, arith,
}
use pactum.Prelude.Results.{Result, ok, err}
use pactum.Prelude.Js.{get, delete, nat_key, get-put}
use pactum.Rollup.Accumulator.{
  AccumulatorError, AccumulatorLeaf, MerkleAccumulator, append_leaf_hash, append_commitment,
  double_sha256_leaf,
}
use pactum.Rollup.Engine.{
  MicroCommitment, RollupConfig, RollupEngine, RollupError, stale_sequence, new_record,
  apply_micro_commitment, refresh_record, refresh_all, appended_or, apply_in_order, drain_buffer,
  enqueue,
}
use pactum.Rollup.Engine.Numbers.{
  IsOrdered, Keyed, delete-Keyed, get-Keyed, get_empty, length-delete, numbers, numbers-append,
  numbers-map, put-Keyed, refresh-sequence, up_to, up_to_next,
}

-- What an engine has before its buffer is drained.
record IsFed (e : RollupEngine) : Type 0 where
  numbered : numbers e.records ≡ up_to e.next_sequence_id
  keyed : Keyed e.out_of_order

-- A commitment is refused for a stale sequence and for nothing else.
abbrev pub Accepts : MicroCommitment → RollupEngine → Result RollupError RollupEngine → Type 0
Accepts c e (err x) = (x ≡ stale_sequence) × (c.sequence_id < e.next_sequence_id)
Accepts c e (ok next) = (e.next_sequence_id ≤ c.sequence_id) × IsOrdered next

module _ (sha256 : Bytes → Bytes) (encode : MicroCommitment → Bytes) (config : RollupConfig)
    (digest : (b : Bytes) → length (sha256 b) ≡ 32) where
  -- The next commitment is always taken, and nothing else of the order changes.
  record Takes (e : RollupEngine) (r : Result RollupError RollupEngine) : Type 0 where
    after : RollupEngine
    taken : r ≡ ok after
    fed : IsFed after
    counted : after.next_sequence_id ≡ suc e.next_sequence_id
    same_buffer : after.out_of_order ≡ e.out_of_order

  leaf_taken :
      (acc : MerkleAccumulator) (b : Bytes)
      → (p : AccumulatorLeaf × MerkleAccumulator) × (append_commitment sha256 acc b ≡ ok p)
  unfolding append_commitment append_leaf_hash double_sha256_leaf
  leaf_taken acc b = taken (append_commitment sha256 acc b) (rw (digest (sha256 b)) (_, refl))
    where
      taken :
          (r : Result AccumulatorError (AccumulatorLeaf × MerkleAccumulator))
          → (p : AccumulatorLeaf × MerkleAccumulator) × (r ≡ ok p)
          → (p : AccumulatorLeaf × MerkleAccumulator) × (r ≡ ok p)
      taken r h = h

  apply-Takes :
      (c : MicroCommitment) (now : ℕ) (e : RollupEngine)
      → c.sequence_id ≡ e.next_sequence_id
      → IsFed e
      → Takes e (apply_in_order sha256 encode config c now e)
  unfolding apply_in_order apply_micro_commitment refresh_all new_record appended_or
  apply-Takes c now e same fed =
      let ((leaf, acc), k) = leaf_taken e.accumulator (encode c) in
      rw k (
        let hit : (c.sequence_id == e.next_sequence_id) ≡ true = ground (arith, same) in
        rw hit (record {
          after = _;
          taken = refl;
          fed = record {
            numbered =
                numbers-map (refresh_record acc) _ (refresh-sequence acc)
                ∙ numbers-append e.records (new_record config e c leaf now ∷ [])
                ∙ rw (fed.numbered, same) (sym (up_to_next e.next_sequence_id));
            keyed = fed.keyed;
          };
          counted = omega arith;
          same_buffer = refl;
        }))

  -- A drained buffer, or the engine when the buffer has no more rounds to give.
  record Drains (r : Result RollupError RollupEngine) : Type 0 where
    last : RollupEngine
    ends : r ≡ ok last
    ordered : IsOrdered last

  drain-Drains :
      (fuel now : ℕ) (e : RollupEngine)
      → length e.out_of_order ≤ fuel
      → IsFed e
      → Drains (drain_buffer sha256 encode config fuel now e)
  unfolding drain_buffer get
  drain-Drains zero now e l fed = record {
    last = e;
    ends = refl;
    ordered = record {
      numbered = fed.numbered;
      keyed = fed.keyed;
      drained = get_empty e.out_of_order e.next_sequence_id l;
    };
  }
  drain-Drains (suc fuel) now e l fed =
      round (λ next. drain-Drains fuel now next) (get e.out_of_order e.next_sequence_id) refl
    where
      round :
          ((next : RollupEngine)
            → length next.out_of_order ≤ fuel
            → IsFed next
            → Drains (drain_buffer sha256 encode config fuel now next))
          → (o : Option MicroCommitment) → get e.out_of_order e.next_sequence_id ≡ o
          → Drains (drain_buffer sha256 encode config (suc fuel) now e)
      round rest none k =
          rw (drain_buffer, k)
            (record {
              last = e;
              ends = refl;
              ordered = record { numbered = fed.numbered; keyed = fed.keyed; drained = k };
            })
      round rest (some c) k =
          let smaller : RollupEngine = record e {
            out_of_order = delete e.out_of_order e.next_sequence_id;
          } in
          let t : Takes smaller (apply_in_order sha256 encode config c now smaller) =
            apply-Takes c now smaller (get-Keyed e.out_of_order e.next_sequence_id fed.keyed k)
              (record {
                numbered = fed.numbered;
                keyed = delete-Keyed e.out_of_order e.next_sequence_id fed.keyed;
              }) in
          let shorter = length-delete e.out_of_order e.next_sequence_id k in
          rw (drain_buffer, k, t.taken) (rest t.after (rw t.same_buffer (omega arith)) t.fed)

  pub enqueue-Accepts :
      (c : MicroCommitment) (now : ℕ) (e : RollupEngine)
      → IsOrdered e
      → Accepts c e (enqueue sha256 encode config c now e)
  unfolding enqueue
  enqueue-Accepts c now e ordered = elim (Bool-cases (ltb e.next_sequence_id c.sequence_id)) [
    | inl early ↦ rw early (
      ground arith,
      record {
        numbered = ordered.numbered;
        keyed = put-Keyed e.out_of_order c ordered.keyed;
        drained =
            ground
              (arith, get-put e.out_of_order c.sequence_id e.next_sequence_id c, ordered.drained);
      },
    )
    | inr reached ↦ elim (Bool-cases (ltb c.sequence_id e.next_sequence_id)) [
      | inl stale ↦ rw (reached, stale) (refl, ground arith)
      | inr due ↦
          let t =
            apply-Takes c now e (ground arith)
              (record { numbered = ordered.numbered; keyed = ordered.keyed }) in
          let d = drain-Drains (length t.after.out_of_order) now t.after (omega arith) t.fed in
          rw (reached, due, t.taken, d.ends) (ground arith, d.ordered)
    ]
  ]
