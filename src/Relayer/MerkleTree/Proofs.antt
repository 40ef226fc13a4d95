-- ===== src/Relayer/MerkleTree/Proofs.antt =====
-- Every audit path of a tree verifies against its root.
use pactum.Prelude.{
  ℕ, zero, suc, ◌+◌, ◌/◌, ◌≤◌, ◌<◌, ◌≡◌, refl, ap, ◌∙◌, inl, inr, List, [], ◌∷◌, true, ltb,
  Bool-cases, length, get_or, Bytes, arith, IsBytes, All, map, length-map, text_eq_refl,
}
use pactum.Prelude.Results.{ok}
use pactum.Relayer.Hex.{parse_hex-hex_text}
use pactum.Relayer.MerkleTree.{
  MerkleTree, MerkleProofNode, hash_pair, next_layer, build_layers, new_tree, last_layer, get_root,
  sibling_index, proof_node, proof_from, get_proof, get_multi_proof, climb, verify,
  verify_multi_proof, every_verifies,
}
use pactum.Relayer.MerkleTree.Layers.{length-next_layer, build_layers-cons, join-next_layer}

abbrev pub AreBytes : List Bytes → Type 0
AreBytes [] = Unit {0}
AreBytes (l ∷ ls) = IsBytes l × AreBytes ls

get_or-IsBytes : (ls : List Bytes) (i : ℕ) → AreBytes ls → IsBytes (get_or ls i [])
get_or-IsBytes [] i h = tt
get_or-IsBytes (l ∷ ls) zero h = h.0
get_or-IsBytes (l ∷ ls) (suc i) h = get_or-IsBytes ls i h.1

pub proof_from-step :
    {layers above : List (List Bytes)} {next : List Bytes} (layer : List Bytes) (i : ℕ)
    → layers ≡ next ∷ above
    → proof_from (layer ∷ layers) i ≡ proof_node layer i ∷ proof_from layers (i / 2)
unfolding proof_from
proof_from-step layer i e = rw e

pub last_layer-step :
    {layers above : List (List Bytes)} {next : List Bytes} (layer : List Bytes)
    → layers ≡ next ∷ above
    → last_layer (layer ∷ layers) ≡ last_layer layers
last_layer-step layer e = rw e

-- SHA-256 returns bytes.
module _ (sha256 : Bytes → Bytes) (digest_bytes : (b : Bytes) → IsBytes (sha256 b)) where
  next_layer-AreBytes : (ls : List Bytes) → AreBytes (next_layer sha256 ls)
  unfolding next_layer hash_pair
  next_layer-AreBytes [] = tt
  next_layer-AreBytes (x ∷ []) = (digest_bytes _, tt)
  next_layer-AreBytes (x ∷ y ∷ rest) = (digest_bytes _, next_layer-AreBytes rest)

  climb-step :
      (layer : List Bytes) (i : ℕ) (rest : List MerkleProofNode)
      → AreBytes layer
      → i < length layer
      → climb sha256 (get_or layer i []) (proof_node layer i ∷ rest)
        ≡ climb sha256 (get_or (next_layer sha256 layer) (i / 2) []) rest
  unfolding climb proof_node
  climb-step layer i rest b h = rw (
    parse_hex-hex_text _ (get_or-IsBytes layer (sibling_index (length layer) i) b),
    join-next_layer sha256 layer i h,
  )

  alone :
      (layer : List Bytes) (i : ℕ)
      → i < length layer
      → length layer ≤ 1
      → climb sha256 (get_or layer i []) (proof_from (layer ∷ []) i) ≡ get_or layer 0 []
  unfolding climb proof_from
  alone layer i h short = let e : i ≡ 0 = omega arith in rw e

  pub climb-root :
      (fuel : ℕ) (layer : List Bytes) (i : ℕ)
      → AreBytes layer
      → i < length layer
      → length layer ≤ fuel + 1
      → climb sha256 (get_or layer i []) (proof_from (build_layers sha256 fuel layer) i)
        ≡ get_or (last_layer (build_layers sha256 fuel layer)) 0 []
  unfolding build_layers
  climb-root zero layer i b h enough = alone layer i h (omega arith)
  climb-root (suc fuel) layer i b h enough = elim (Bool-cases (ltb 1 (length layer))) [
    | inl more ↦
        let (above, e) = build_layers-cons sha256 fuel (next_layer sha256 layer) in
        rw (more, build_layers, proof_from-step layer i e, last_layer-step layer e)
          (climb-step layer i _ b h
            ∙ climb-root fuel (next_layer sha256 layer) (i / 2) (next_layer-AreBytes layer)
                (ground (arith, length-next_layer sha256 layer))
                (ground (arith, length-next_layer sha256 layer)))
    | inr top ↦ rw (top, build_layers) (alone layer i h (ground arith))
  ]

  -- In a tree over byte buffers, of any number of leaves but zero, the constructor and `getProof`
  -- succeed at every leaf index, and `verify` accepts the leaf with its audit path and the root.
  pub verify-get_proof :
      (leaves : List Bytes) (i : ℕ)
      → AreBytes leaves
      → i < length leaves
      → (t : MerkleTree) × (proof : List MerkleProofNode) × (new_tree sha256 leaves ≡ ok t)
        × (get_proof t i ≡ ok proof)
        × (verify sha256 (get_or leaves i []) proof (get_root t) ≡ true)
  unfolding new_tree get_proof verify get_root
  verify-get_proof leaves i b h = (
    record { leaves = leaves; layers = build_layers sha256 (length leaves) leaves },
    proof_from (build_layers sha256 (length leaves) leaves) i,
    ground arith,
    ground arith,
    rw (climb-root (length leaves) leaves i b h (omega arith)) (text_eq_refl _),
  )

  tree_of : List Bytes → MerkleTree
  tree_of leaves = record { leaves = leaves; layers = build_layers sha256 (length leaves) leaves }

  paths_verify :
      (leaves : List Bytes) (indices : List ℕ)
      → AreBytes leaves
      → All (λ i. i < length leaves) indices
      → (proofs : List (List MerkleProofNode)) × (get_multi_proof (tree_of leaves) indices
          ≡ ok proofs)
        × (length proofs ≡ length indices)
        × (every_verifies sha256
              (map (λ i. get_or leaves i []) indices)
              proofs
              (get_root (tree_of leaves))
            ≡ true)
  unfolding get_multi_proof every_verifies get_proof verify get_root tree_of
  paths_verify leaves [] b h = ([], refl, refl, refl)
  paths_verify leaves (i ∷ indices) b h =
      let (proofs, got, same, good) = paths_verify leaves indices b h.1 in
      let inside : ltb i (length leaves) ≡ true = ground (arith, h.0) in
      (
        proof_from (build_layers sha256 (length leaves) leaves) i ∷ proofs,
        rw (inside, got),
        ap suc same,
        rw (climb-root (length leaves) leaves i b h.0 (omega arith), text_eq_refl) good,
      )

  some_leaf :
      (leaves : List Bytes) (indices : List ℕ)
      → 0 < length indices
      → All (λ i. i < length leaves) indices
      → 0 < length leaves
  some_leaf leaves [] pos h = absurd (omega arith)
  some_leaf leaves (i ∷ indices) pos h = omega arith

  accepted :
      (picked : List Bytes) (proofs : List (List MerkleProofNode)) (root : Bytes)
      → 0 < length picked
      → length picked ≡ length proofs
      → every_verifies sha256 picked proofs root ≡ true
      → verify_multi_proof sha256 picked proofs root ≡ true
  unfolding verify_multi_proof
  accepted picked proofs root pos same good = ground (arith, good)

  -- Any choice of leaf indices, not empty, gets a multi-proof that `verifyMultiProof` accepts for
  -- those leaves against the root.
  pub verify_multi_proof-get_multi_proof :
      (leaves : List Bytes) (indices : List ℕ)
      → AreBytes leaves
      → 0 < length indices
      → All (λ i. i < length leaves) indices
      → (t : MerkleTree) × (proofs : List (List MerkleProofNode)) × (new_tree sha256 leaves ≡ ok t)
        × (get_multi_proof t indices ≡ ok proofs)
        × (verify_multi_proof sha256 (map (λ i. get_or leaves i []) indices) proofs (get_root t)
            ≡ true)
  unfolding new_tree tree_of
  verify_multi_proof-get_multi_proof leaves indices b some_index h =
      let (proofs, got, same, good) = paths_verify leaves indices b h in
      (
        tree_of leaves,
        proofs,
        let p = some_leaf leaves indices some_index h in ground (arith, p),
        got,
        accepted (map (λ i. get_or leaves i []) indices) proofs _
            (omega (arith, length-map indices (λ i. get_or leaves i [])))
            (omega (arith, same, length-map indices (λ i. get_or leaves i []))) good,
      )
