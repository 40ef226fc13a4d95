-- ===== src/Rollup/Engine.antt =====
-- frontend/src/lib/optimisticRollup.ts: the rollup of micro-commitments. An await splits a method into
-- steps; `encode` (JSON and UTF-8) and `sha256` are parameters, and so is what a submission answers.
pub mod Batches
pub mod Sequence
pub mod Numbers
pub mod Runs
pub mod Refresh
use pactum.Prelude.{
  ℕ, zero, suc, ◌+◌, ◌-◌, ◌≤◌, min, max, Bool, true, false, not, ◌&&◌, ◌||◌, List, [], ◌∷◌, ◌++◌,
  map, Option, none, some, if◌then◌else◌, ltb, leb, ◌==◌, length, Text, Bytes,
}
use pactum.Prelude.Results.{Result, ok, err, ◌>>=◌}
use pactum.Prelude.Js.{JsMap, get, put, delete, nat_key}
use pactum.Rollup.Accumulator.{
  AccumulatorError, ProofNode, AccumulatorLeaf, MerkleAccumulator, new_accumulator, root_of,
  get_leaf, append_commitment,
}

pub data RollupStatus : Type 0 where
  buffered pending_rollup on_chain_finalized force_include_pending force_included : RollupStatus

pub record MicroCommitment : Type 0 where
  pub sequence_id : ℕ
  pub issuer : Text
  pub counterparty : Text
  pub terms_hash : Text
  pub due_at : ℕ
  pub created_at : ℕ

pub record RollupRecord : Type 0 where
  pub commitment : MicroCommitment
  pub leaf_hash : Text
  pub leaf_index : ℕ
  pub proof : List ProofNode
  pub status : RollupStatus
  pub enqueued_at : ℕ
  pub challenge_deadline : ℕ
  pub batch_sequence : ℕ
  pub on_chain_tx : Option Text
  pub force_include_tx : Option Text

pub record RollupBatch : Type 0 where
  pub number : ℕ
  pub root : Text
  pub commitments : List RollupRecord
  pub sealed_at : ℕ
  pub submitted_at : Option ℕ
  pub batch_tx : Option Text

pub record RollupConfig : Type 0 where
  pub max_batch_size : ℕ
  pub batch_ttl_ms : ℕ
  pub challenge_window_ms : ℕ

pub record RollupEngine : Type 0 where
  pub accumulator : MerkleAccumulator
  pub next_sequence_id : ℕ
  pub open_batch : ℕ
  pub last_accepted_batch : ℕ
  pub last_accepted_root : Option Text
  pub open_root : Option Text
  pub pending_count : ℕ
  pub records : List RollupRecord
  pub sealed_batches : List RollupBatch
  pub out_of_order : JsMap ℕ MicroCommitment
  pub sealing : Bool

pub data RollupError : Type 0 where
  wrong_sequence stale_sequence : RollupError
  tree : AccumulatorError → RollupError

-- The constructor: each setting is one at least.
unfoldable pub new_config : Option ℕ → Option ℕ → Option ℕ → RollupConfig
new_config size ttl window = record {
  max_batch_size = max 1 (elim size [ none ↦ 64 | some n ↦ n ]);
  batch_ttl_ms = max 1 (elim ttl [ none ↦ 15000 | some n ↦ n ]);
  challenge_window_ms = max 1 (elim window [ none ↦ 60000 | some n ↦ n ]);
}

unfoldable pub new_engine : RollupEngine
new_engine = record {
  accumulator = new_accumulator;
  next_sequence_id = 0;
  open_batch = 1;
  last_accepted_batch = 0;
  last_accepted_root = none;
  open_root = none;
  pending_count = 0;
  records = [];
  sealed_batches = [];
  out_of_order = [];
  sealing = false;
}

unfoldable pub is_pending : RollupStatus → Bool
is_pending pending_rollup = true
is_pending _ = false

unfoldable pub new_record :
    RollupConfig → RollupEngine → MicroCommitment → AccumulatorLeaf → ℕ → RollupRecord
new_record config e c leaf now = record {
  commitment = c;
  leaf_hash = leaf.leaf_hash;
  leaf_index = leaf.index;
  proof = leaf.proof;
  status = pending_rollup;
  enqueued_at = now;
  challenge_deadline = now + config.challenge_window_ms;
  batch_sequence = e.open_batch;
  on_chain_tx = none;
  force_include_tx = none;
}

unfoldable pub apply_micro_commitment :
    RollupConfig
    → RollupEngine
    → MicroCommitment
    → AccumulatorLeaf
    → ℕ
    → Result RollupError RollupEngine
apply_micro_commitment config e c leaf now =
    if not (c.sequence_id == e.next_sequence_id)
    then err wrong_sequence
    else ok (record e {
      next_sequence_id = e.next_sequence_id + 1;
      open_root = none;
      pending_count = e.pending_count + 1;
      records = e.records ++ new_record config e c leaf now ∷ [];
    })

-- `refreshed ? { ...r, proof: refreshed.proof, leafHash: refreshed.leafHash } : r`
unfoldable pub refresh_record : MerkleAccumulator → RollupRecord → RollupRecord
refresh_record acc r = elim (get_leaf acc r.leaf_index) [
  | none ↦ r
  | some leaf ↦ record r { proof = leaf.proof; leaf_hash = leaf.leaf_hash }
]

unfoldable pub refresh_all : MerkleAccumulator → RollupEngine → RollupEngine
refresh_all acc e = record e {
  accumulator = acc;
  open_root = root_of acc;
  records = map (refresh_record acc) e.records;
}

unfoldable pub appended_or : {A : Type 0} → Result AccumulatorError A → Result RollupError A
appended_or (err e) = err (tree e)
appended_or (ok a) = ok a

module _ (sha256 : Bytes → Bytes) (encode : MicroCommitment → Bytes) (config : RollupConfig) where
  unfoldable pub apply_in_order :
      MicroCommitment → ℕ → RollupEngine → Result RollupError RollupEngine
  apply_in_order c now e = do
    (leaf, acc) ← appended_or (append_commitment sha256 e.accumulator (encode c))
    next ← apply_micro_commitment config e c leaf now
    ok (refresh_all acc next)

  -- `drainBuffer`; a round takes an entry of the buffer, so a round for each is enough.
  unfoldable pub drain_buffer : ℕ → ℕ → RollupEngine → Result RollupError RollupEngine
  drain_buffer zero now e = ok e
  drain_buffer (suc fuel) now e = elim (get e.out_of_order e.next_sequence_id) [
    | none ↦ ok e
    | some c ↦ (do
      next ←
          apply_in_order c now
            (record e { out_of_order = delete e.out_of_order e.next_sequence_id })
      drain_buffer fuel now next)
  ]

  -- `enqueue` up to `maybeSeal`, with the sequence that the caller gave or the next one.
  unfoldable pub enqueue : MicroCommitment → ℕ → RollupEngine → Result RollupError RollupEngine
  enqueue c now e =
      if ltb e.next_sequence_id c.sequence_id
      then ok (record e { out_of_order = put e.out_of_order c.sequence_id c })
      else if ltb c.sequence_id e.next_sequence_id
      then err stale_sequence
      else (do next ← apply_in_order c now e; drain_buffer (length next.out_of_order) now next)
