-- ===== src/Tests/Rollups.antt =====
-- Runs of the accumulator and of the rollup, with a hash of 32 bytes that is the length of its input.
use pactum.Prelude.{
  ℕ, zero, suc, IsBytes, ◌%◌, ◌≡◌, ◌<◌, refl, List, [], ◌∷◌, map, none, some, true, length,
  replicate, get_or, Text, Bytes, codes, arith,
}
use pactum.Prelude.Results.{ok}
use pactum.Relayer.Hex.{hex_text}
use pactum.Rollup.Accumulator.{
  MerkleAccumulator, new_accumulator, root_of, compute_root, verify_merkle_proof, cached_proof,
}
use pactum.Rollup.Accumulator.Cache.{append_all}
use pactum.Rollup.Accumulator.Proofs.{append_all-verifies}
use pactum.Rollup.Accumulator.Layers.{IsDigest, AllDigests}
use pactum.Rollup.Engine.{
  MicroCommitment, RollupRecord, RollupConfig, RollupEngine, new_engine, enqueue, apply_in_order,
  pending_rollup,
}
use pactum.Rollup.Engine.Batches.{close_batch}
use pactum.Rollup.Engine.Sequence.{Accepts}
use pactum.Rollup.Engine.Numbers.{IsOrdered}
use pactum.Rollup.Engine.Runs.{RollupCall, enqueues, seals, rollup_run, rollup_run-IsOrdered}
use pactum.Rollup.Engine.Refresh.{apply_in_order-overwrites_sealed, record_at}

replicate-IsBytes : (n b : ℕ) → b < 256 → IsBytes (replicate n b)
replicate-IsBytes zero b h = tt
replicate-IsBytes (suc n) b h = (h, replicate-IsBytes n b h)

replicate-IsDigest : (b : ℕ) → b < 256 → IsDigest (replicate 32 b)
replicate-IsDigest b h = (refl, replicate-IsBytes 32 b h)

abbrev sha256 : Bytes → Bytes
sha256 bytes = replicate 32 (length bytes % 256)

sha256-IsDigest : (bytes : Bytes) → IsDigest (sha256 bytes)
sha256-IsDigest bytes = replicate-IsDigest (length bytes % 256) (omega arith)

abbrev leaves : List Bytes
leaves = replicate 32 1 ∷ replicate 32 2 ∷ replicate 32 3 ∷ []

leaves-AreDigests : AllDigests leaves
leaves-AreDigests = (
  replicate-IsDigest 1 (omega arith),
  (replicate-IsDigest 2 (omega arith), (replicate-IsDigest 3 (omega arith), tt)),
)

append_all-verifies_example :
    (acc : MerkleAccumulator) × (root : Text) × (append_all sha256 leaves new_accumulator ≡ ok acc)
    × (root_of acc ≡ some root)
    × (compute_root sha256 (map hex_text leaves) ≡ ok root)
    × (verify_merkle_proof sha256 (λ t. t) (hex_text (get_or leaves 2 [])) (cached_proof acc 2) root
        ≡ ok true)
append_all-verifies_example =
    append_all-verifies sha256 sha256-IsDigest (λ t. t) leaves 2 leaves-AreDigests (omega arith)

abbrev commitment : ℕ → MicroCommitment
commitment n = record {
  sequence_id = n;
  issuer = codes "G";
  counterparty = codes "C";
  terms_hash = [];
  due_at = 90;
  created_at = n;
}

abbrev encode : MicroCommitment → Bytes
encode c = c.sequence_id ∷ c.issuer

abbrev config : RollupConfig
config = record { max_batch_size = 2; batch_ttl_ms = 100; challenge_window_ms = 1000 }

abbrev calls : List RollupCall
calls =
    enqueues (commitment 1) 5
    ∷ enqueues (commitment 0) 6
    ∷ seals true 7
    ∷ enqueues (commitment 0) 8
    ∷ []

sha256-length : (bytes : Bytes) → length (sha256 bytes) ≡ 32
sha256-length bytes = refl

rollup_run-IsOrdered_example :
    (let e = rollup_run sha256 encode config calls new_engine in
      IsOrdered e × Accepts (commitment 2) e (enqueue sha256 encode config (commitment 2) 9 e))
rollup_run-IsOrdered_example =
    rollup_run-IsOrdered sha256 encode config sha256-length calls (commitment 2) 9

-- The record of the first commitment, sealed with its own hash.
abbrev sealed_record : RollupRecord
sealed_record = record {
  commitment = commitment 0;
  leaf_hash = hex_text (sha256 (sha256 (encode (commitment 0))));
  leaf_index = 0;
  proof = [];
  status = pending_rollup;
  enqueued_at = 5;
  challenge_deadline = 1005;
  batch_sequence = 1;
  on_chain_tx = none;
  force_include_tx = none;
}

abbrev open_engine : RollupEngine
open_engine = record new_engine { next_sequence_id = 1; records = sealed_record ∷ [] }

apply_in_order-overwrites_sealed_example :
    record_at 0 (
      apply_in_order sha256 encode config
        (commitment 1)
        9
        (close_batch 8 (codes "0x") (sealed_record ∷ []) open_engine))
    ≡ some (record sealed_record {
      leaf_hash = hex_text (sha256 (sha256 (encode (commitment 1))));
      proof = [];
    })
apply_in_order-overwrites_sealed_example =
    apply_in_order-overwrites_sealed sha256 encode config (commitment 1) 8 9 0 (codes "0x")
      (sealed_record ∷ []) open_engine sealed_record refl refl refl refl
