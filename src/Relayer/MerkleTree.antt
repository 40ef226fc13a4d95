-- ===== src/Relayer/MerkleTree.antt =====
-- backend/src/relayer/merkleTree.ts: the Merkle tree over proof leaves, its audit paths and their
-- verification. `sha256` is Node's.
pub mod Layers
pub mod Proofs
pub mod Binding
use pactum.Prelude.{
  ℕ, zero, suc, ◌+◌, ◌-◌, ◌/◌, ◌%◌, ◌≤◌, ◌<◌, List, [], ◌∷◌, ◌++◌, map, Bool, true, false, ◌&&◌,
  not, if◌then◌else◌, ltb, ◌==◌, length, get_elem?, get_or, Option, none, some, Text, Bytes,
  text_eq,
}
use pactum.Prelude.Results.{Result, ok, err, ◌>>=◌}
use pactum.Relayer.Hex.{hex_text, parse_hex}

pub data MerkleError : Type 0 where
  no_leaves index_out_of_bounds : MerkleError

pub record MerkleProofNode : Type 0 where
  pub sibling : Text
  pub is_right : Bool

pub record MerkleTree : Type 0 where
  pub leaves : List Bytes
  pub layers : List (List Bytes)

module _ (sha256 : Bytes → Bytes) where
  unfoldable pub double_sha256 : Bytes → Bytes
  double_sha256 buffer = sha256 (sha256 buffer)

  unfoldable pub hash_pair : Bytes → Bytes → Bytes
  hash_pair left right = sha256 (left ++ right)

  -- The inner `for` of `buildTree`; an odd node is paired with itself.
  unfoldable pub next_layer : List Bytes → List Bytes
  next_layer [] = []
  next_layer (left ∷ []) = hash_pair left left ∷ []
  next_layer (left ∷ right ∷ rest) = hash_pair left right ∷ next_layer rest

  -- The layers from `current` up; the `while` of `buildTree`, on fuel.
  unfoldable pub build_layers : ℕ → List Bytes → List (List Bytes)
  build_layers zero current = current ∷ []
  build_layers (suc fuel) current = elim (ltb 1 (length current)) [
    | true ↦ current ∷ build_layers fuel (next_layer current)
    | false ↦ current ∷ []
  ]

  -- Each round makes the layer shorter, so one round for each leaf is enough.
  unfoldable pub new_tree : List Bytes → Result MerkleError MerkleTree
  new_tree leaves =
      if length leaves == 0
      then err no_leaves
      else ok (record { leaves = leaves; layers = build_layers (length leaves) leaves })

abbrev pub last_layer : List (List Bytes) → List Bytes
last_layer [] = []
last_layer (l ∷ []) = l
last_layer (l ∷ m ∷ ls) = last_layer (m ∷ ls)

-- `layers[layers.length - 1][0]`
unfoldable pub get_root : MerkleTree → Bytes
get_root t = get_or (last_layer t.layers) 0 []

unfoldable pub sibling_index : ℕ → ℕ → ℕ
sibling_index size i = if i % 2 == 0 then (if ltb (i + 1) size then i + 1 else i) else i - 1

unfoldable pub proof_node : List Bytes → ℕ → MerkleProofNode
proof_node layer i = record {
  sibling = hex_text (get_or layer (sibling_index (length layer) i) []);
  is_right = i % 2 == 0;
}

-- The loop of `getProof` over all layers but the last.
unfoldable pub proof_from : List (List Bytes) → ℕ → List MerkleProofNode
proof_from [] i = []
proof_from (layer ∷ []) i = []
proof_from (layer ∷ above ∷ rest) i = proof_node layer i ∷ proof_from (above ∷ rest) (i / 2)

unfoldable pub get_proof : MerkleTree → ℕ → Result MerkleError (List MerkleProofNode)
get_proof t index =
    if ltb index (length t.leaves) then ok (proof_from t.layers index) else err index_out_of_bounds

-- `indices.map((index) => this.getProof(index))`, which throws where one call does.
unfoldable pub get_multi_proof :
    MerkleTree → List ℕ → Result MerkleError (List (List MerkleProofNode))
get_multi_proof t [] = ok []
get_multi_proof t (index ∷ indices) = do
  proof ← get_proof t index
  proofs ← get_multi_proof t indices
  ok (proof ∷ proofs)

module _ (sha256 : Bytes → Bytes) where
  -- The loop of `verify`.
  unfoldable pub climb : Bytes → List MerkleProofNode → Bytes
  climb current [] = current
  climb current (node ∷ proof) =
      climb
        (if node.is_right
          then hash_pair sha256 current (parse_hex node.sibling)
          else hash_pair sha256 (parse_hex node.sibling) current)
        proof

  unfoldable pub verify : Bytes → List MerkleProofNode → Bytes → Bool
  verify leaf proof expected_root = text_eq (climb leaf proof) expected_root

  unfoldable pub every_verifies : List Bytes → List (List MerkleProofNode) → Bytes → Bool
  every_verifies [] proofs root = true
  every_verifies (leaf ∷ leaves) [] root = true
  every_verifies (leaf ∷ leaves) (proof ∷ proofs) root =
      verify leaf proof root && every_verifies leaves proofs root

  unfoldable pub verify_multi_proof : List Bytes → List (List MerkleProofNode) → Bytes → Bool
  verify_multi_proof leaves proofs root =
      if length leaves == 0
      then false
      else if length leaves == length proofs
      then every_verifies leaves proofs root
      else false

  unfoldable pub compute_root_from_leaves : List Bytes → Result MerkleError Bytes
  compute_root_from_leaves leaves = do t ← new_tree sha256 leaves; ok (get_root t)
