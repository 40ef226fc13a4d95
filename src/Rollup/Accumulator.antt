-- ===== src/Rollup/Accumulator.antt =====
-- frontend/src/lib/merkleAccumulator.ts: the incremental Merkle tree over the leaves of a batch.
-- `sha256` is that of sha256.ts.
pub mod Cache
pub mod Proofs
pub mod Layers
use pactum.Prelude.{
  ℕ, zero, suc, ◌+◌, ◌-◌, ◌/◌, ◌%◌, Bool, true, false, not, ◌&&◌, ◌||◌, List, [], ◌∷◌, ◌++◌, map,
  Option, none, some, if◌then◌else◌, ltb, ◌==◌, length, get_or, Text, Bytes, text_eq,
}
use pactum.Prelude.Results.{Result, ok, err, ◌>>=◌}
use pactum.Prelude.Js.{JsMap, get, put, nat_key}
use pactum.Relayer.Hex.{hex_value, from_hex, hex_text, strip_prefix}

pub data AccumulatorError : Type 0 where
  not_hex32 no_leaves leaf_size : AccumulatorError

pub record ProofNode : Type 0 where
  pub sibling : Text
  pub is_right : Bool

pub record AccumulatorLeaf : Type 0 where
  pub index : ℕ
  pub leaf_hash : Text
  pub proof : List ProofNode

pub record MerkleAccumulator : Type 0 where
  pub leaves : List Bytes
  pub layers : List (List Bytes)
  pub proof_cache : JsMap ℕ (List ProofNode)

-- /^[0-9a-fA-F]+$/
unfoldable pub is_hex : Text → Bool
is_hex [] = true
is_hex (c ∷ cs) = elim (hex_value c) [ none ↦ false | some digit ↦ is_hex cs ]

-- `fromHex`
unfoldable pub hex32_bytes : Text → Result AccumulatorError Bytes
hex32_bytes text =
    let clean = strip_prefix text in
    if not (length clean == 64) || not (is_hex clean) then err not_hex32 else ok (from_hex clean)

unfoldable pub new_accumulator : MerkleAccumulator
new_accumulator = record { leaves = []; layers = [] ∷ []; proof_cache = [] }

abbrev pub top_layer : List (List Bytes) → List Bytes
top_layer [] = []
top_layer (l ∷ []) = l
top_layer (l ∷ m ∷ ls) = top_layer (m ∷ ls)

-- `getRoot`
unfoldable pub root_of : MerkleAccumulator → Option Text
root_of acc =
    if length acc.leaves == 0 then none else some (hex_text (get_or (top_layer acc.layers) 0 []))

unfoldable pub sibling_of : ℕ → ℕ → ℕ
sibling_of size i = if i % 2 == 0 then (if ltb (i + 1) size then i + 1 else i) else i - 1

unfoldable pub path_node : List Bytes → ℕ → ProofNode
path_node layer i = record {
  sibling = hex_text (get_or layer (sibling_of (length layer) i) []);
  is_right = i % 2 == 0;
}

-- `buildProof`, the loop over all layers but the last.
unfoldable pub build_proof : List (List Bytes) → ℕ → List ProofNode
build_proof [] i = []
build_proof (layer ∷ []) i = []
build_proof (layer ∷ above ∷ rest) i = path_node layer i ∷ build_proof (above ∷ rest) (i / 2)

-- `this.proofCache.get(index) ?? this.buildProof(index)`
unfoldable pub cached_proof : MerkleAccumulator → ℕ → List ProofNode
cached_proof acc index = elim (get acc.proof_cache index) [
  | none ↦ build_proof acc.layers index
  | some proof ↦ proof
]

unfoldable pub leaf_at : MerkleAccumulator → ℕ → AccumulatorLeaf
leaf_at acc index = record {
  index = index;
  leaf_hash = hex_text (get_or acc.leaves index []);
  proof = cached_proof acc index;
}

unfoldable pub get_leaf : MerkleAccumulator → ℕ → Option AccumulatorLeaf
get_leaf acc index = if ltb index (length acc.leaves) then some (leaf_at acc index) else none

-- `for (let i = 0; i < this.leaves.length; i++) this.proofCache.set(i, this.buildProof(i))`, from
-- `i` on for `count` leaves.
unfoldable pub cache_proofs :
    List (List Bytes) → ℕ → ℕ → JsMap ℕ (List ProofNode) → JsMap ℕ (List ProofNode)
cache_proofs layers zero i cache = cache
cache_proofs layers (suc count) i cache =
    cache_proofs layers count (i + 1) (put cache i (build_proof layers i))

module _ (sha256 : Bytes → Bytes) where
  unfoldable pub combine : Bytes → Bytes → Bytes
  combine left right = sha256 (left ++ right)

  unfoldable pub double_sha256_leaf : Bytes → Bytes
  double_sha256_leaf commitment = sha256 (sha256 commitment)

  -- The inner loop of `rebuild` and of `computeRootFromLeaves`.
  unfoldable pub pair_up : List Bytes → List Bytes
  pair_up [] = []
  pair_up (left ∷ []) = combine left left ∷ []
  pair_up (left ∷ right ∷ rest) = combine left right ∷ pair_up rest

  -- The loop of `rebuild`; each round shortens the layer, so a round for each leaf is enough.
  unfoldable pub rebuild : ℕ → List Bytes → List (List Bytes)
  rebuild zero current = current ∷ []
  rebuild (suc fuel) current = elim (ltb 1 (length current)) [
    | true ↦ current ∷ rebuild fuel (pair_up current)
    | false ↦ current ∷ []
  ]

  -- The loop of `computeRootFromLeaves`, which keeps the last layer only.
  unfoldable pub reduce_layer : ℕ → List Bytes → List Bytes
  reduce_layer zero layer = layer
  reduce_layer (suc fuel) layer = elim (ltb 1 (length layer)) [
    | true ↦ reduce_layer fuel (pair_up layer)
    | false ↦ layer
  ]

  unfoldable pub all_hex32 : List Text → Result AccumulatorError (List Bytes)
  all_hex32 [] = ok []
  all_hex32 (t ∷ ts) = do leaf ← hex32_bytes t; leaves ← all_hex32 ts; ok (leaf ∷ leaves)

  unfoldable pub compute_root : List Text → Result AccumulatorError Text
  compute_root [] = err no_leaves
  compute_root (t ∷ ts) = do
    layer ← all_hex32 (t ∷ ts)
    ok (hex_text (get_or (reduce_layer (length layer) layer) 0 []))

  -- The loop of `verifyMerkleProof`.
  unfoldable pub fold_proof : Bytes → List ProofNode → Result AccumulatorError Bytes
  fold_proof current [] = ok current
  fold_proof current (node ∷ proof) = do
    sibling ← hex32_bytes node.sibling
    fold_proof (if node.is_right then combine current sibling else combine sibling current) proof

  -- `to_lower_case` is the platform's.
  unfoldable pub verify_merkle_proof :
      (Text → Text) → Text → List ProofNode → Text → Result AccumulatorError Bool
  verify_merkle_proof to_lower_case leaf_hex proof expected_root = do
    leaf ← hex32_bytes leaf_hex
    current ← fold_proof leaf proof
    ok (
        text_eq (hex_text current) (to_lower_case expected_root)
        || text_eq (hex_text current) expected_root)

  -- `appendLeafHash` on bytes: the leaf is added, the layers are rebuilt and all proofs are cached.
  unfoldable pub appended : MerkleAccumulator → Bytes → MerkleAccumulator
  appended acc leaf =
      let leaves = acc.leaves ++ leaf ∷ [] in
      let layers = rebuild (length leaves) leaves in
      let index = length acc.leaves in
      record {
        leaves = leaves;
        layers = layers;
        proof_cache =
            cache_proofs layers (length leaves) 0
              (put acc.proof_cache index (build_proof layers index));
      }

  unfoldable pub append_leaf_hash :
      MerkleAccumulator → Bytes → Result AccumulatorError (AccumulatorLeaf × MerkleAccumulator)
  append_leaf_hash acc leaf =
      if not (length leaf == 32)
      then err leaf_size
      else (let after = appended acc leaf in
          let index = length acc.leaves in
          ok (
            record { index = index; leaf_hash = hex_text leaf; proof = cached_proof after index },
            after,
          ))

  -- `appendLeafHash` on a text.
  unfoldable pub append_leaf_hex :
      MerkleAccumulator → Text → Result AccumulatorError (AccumulatorLeaf × MerkleAccumulator)
  append_leaf_hex acc text = do leaf ← hex32_bytes text; append_leaf_hash acc leaf

  unfoldable pub append_commitment :
      MerkleAccumulator → Bytes → Result AccumulatorError (AccumulatorLeaf × MerkleAccumulator)
  append_commitment acc commitment = append_leaf_hash acc (double_sha256_leaf commitment)
