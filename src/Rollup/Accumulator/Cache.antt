-- ===== src/Rollup/Accumulator/Cache.antt =====
-- The cache of proofs holds, after every append, the proof that the layers have for each leaf.
use pactum.Prelude.{
  ℕ, zero, suc, ◌+◌, ◌≤◌, ◌<◌, ◌≡◌, refl, sym, ◌∙◌, ap, List, [], ◌∷◌, ◌++◌, some, Bool-cases, inl,
  inr, ◌==◌, length, append-nil, append_assoc, Bytes, arith,
}
use pactum.Prelude.Results.{Result, ok, ◌>>=◌}
use pactum.Prelude.Js.{JsMap, get, put, get-put, nat_key}
use pactum.Relayer.Hex.{hex_text}
use pactum.Rollup.Accumulator.{
  AccumulatorError, AccumulatorLeaf, ProofNode, MerkleAccumulator, new_accumulator, build_proof,
  cached_proof, cache_proofs, rebuild, appended, append_leaf_hash,
}

get-cache_proofs_below :
    (layers : List (List Bytes)) (count i k : ℕ) (cache : JsMap ℕ (List ProofNode))
    → k < i
    → get (cache_proofs layers count i cache) k ≡ get cache k
unfolding cache_proofs
get-cache_proofs_below layers zero i k cache h = refl
get-cache_proofs_below layers (suc count) i k cache h =
    get-cache_proofs_below layers count (i + 1) k (put cache i (build_proof layers i)) (omega arith)
    ∙ ground (arith, get-put cache i k (build_proof layers i))

get-cache_proofs :
    (layers : List (List Bytes)) (count i k : ℕ) (cache : JsMap ℕ (List ProofNode))
    → i ≤ k
    → k < i + count
    → get (cache_proofs layers count i cache) k ≡ some (build_proof layers k)
unfolding cache_proofs
get-cache_proofs layers zero i k cache h l = absurd (omega arith)
get-cache_proofs layers (suc count) i k cache h l = elim (Bool-cases (i == k)) [
  | inl here ↦
      get-cache_proofs_below layers count (i + 1) k (put cache i (build_proof layers i))
        (ground arith)
      ∙ ground (arith, get-put cache i k (build_proof layers i))
  | inr later ↦
      get-cache_proofs layers count (i + 1) k (put cache i (build_proof layers i)) (ground arith)
        (omega arith)
]

module _ (sha256 : Bytes → Bytes) where
  -- The layers are those of the leaves, and every proof is cached.
  pub record IsBuilt (acc : MerkleAccumulator) : Type 0 where
    pub built : acc.layers ≡ rebuild sha256 (length acc.leaves) acc.leaves
    pub cached :
        (i : ℕ) → i < length acc.leaves → get acc.proof_cache i ≡ some (build_proof acc.layers i)

  pub appended-IsBuilt :
      (acc : MerkleAccumulator) (leaf : Bytes) → IsBuilt (appended sha256 acc leaf)
  unfolding appended
  appended-IsBuilt acc leaf = record {
    built = refl;
    cached = λ i h. get-cache_proofs _ _ 0 i _ (omega arith) (omega arith);
  }

  pub new-IsBuilt : IsBuilt new_accumulator
  unfolding new_accumulator rebuild
  new-IsBuilt = record { built = refl; cached = λ i h. elim h [ ] }

  pub cached_proof-IsBuilt :
      (acc : MerkleAccumulator) (i : ℕ)
      → IsBuilt acc
      → i < length acc.leaves
      → cached_proof acc i ≡ build_proof (rebuild sha256 (length acc.leaves) acc.leaves) i
  unfolding cached_proof
  cached_proof-IsBuilt acc i b h =
      rw (b.cached i h, cached_proof) (ap (λ ls. build_proof ls i) b.built)

  -- Appends, one after the other.
  unfoldable pub append_all :
      List Bytes → MerkleAccumulator → Result AccumulatorError MerkleAccumulator
  append_all [] acc = ok acc
  append_all (leaf ∷ leaves) acc = do
    (appended_leaf, after) ← append_leaf_hash sha256 acc leaf
    append_all leaves after

  appended-leaves :
      (acc : MerkleAccumulator) (leaf : Bytes) (leaves : List Bytes)
      → (appended sha256 acc leaf).leaves ++ leaves ≡ acc.leaves ++ leaf ∷ leaves
  unfolding appended
  appended-leaves acc leaf leaves = append_assoc acc.leaves (leaf ∷ []) leaves

  -- Buffers of 32 bytes.
  abbrev pub AreDigests : List Bytes → Type 0
  AreDigests [] = Unit {0}
  AreDigests (leaf ∷ leaves) = (length leaf ≡ 32) × AreDigests leaves

  append_accepts :
      (acc : MerkleAccumulator) (leaf : Bytes)
      → length leaf ≡ 32
      → (l : AccumulatorLeaf) × (append_leaf_hash sha256 acc leaf
          ≡ ok (l, appended sha256 acc leaf))
  unfolding append_leaf_hash
  append_accepts acc leaf h = (
    record {
      index = length acc.leaves;
      leaf_hash = hex_text leaf;
      proof = cached_proof (appended sha256 acc leaf) (length acc.leaves);
    },
    ground arith,
  )

  -- Appends of digests succeed and leave them after the leaves that were there.
  pub append_all-IsBuilt :
      (leaves : List Bytes) (acc : MerkleAccumulator)
      → AreDigests leaves
      → IsBuilt acc
      → (after : MerkleAccumulator) × (append_all leaves acc ≡ ok after)
        × IsBuilt after
        × (after.leaves ≡ acc.leaves ++ leaves)
  unfolding append_all
  append_all-IsBuilt [] acc d b = (acc, refl, b, sym (append-nil acc.leaves))
  append_all-IsBuilt (leaf ∷ leaves) acc d b =
      let (l, e) = append_accepts acc leaf d.0 in
      let (after, run, built, same) =
        append_all-IsBuilt leaves (appended sha256 acc leaf) d.1 (appended-IsBuilt acc leaf) in
      (after, rw e run, built, same ∙ appended-leaves acc leaf leaves)
