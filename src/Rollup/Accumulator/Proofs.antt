-- ===== src/Rollup/Accumulator/Proofs.antt =====
-- The accumulator has the root of the batch function and proofs that verify. Its tree is compared
-- with the one of the relayer, whose audit paths lead to the root.
use pactum.Prelude.{
  ℕ, zero, suc, ◌/◌, ◌<◌, ◌≡◌, refl, ◌∙◌, ap, true, List, [], ◌∷◌, map, some, Bool-cases, inl, inr,
  ltb, ◌==◌, length, get_or, Text, Bytes, text_eq_refl, arith,
}
use pactum.Prelude.Results.{ok}
use pactum.Relayer.Hex.{hex_text, parse_hex-hex_text}
use pactum.Relayer.MerkleTree.{
  MerkleProofNode, hash_pair, next_layer, build_layers, last_layer, sibling_index, proof_node,
  proof_from, climb,
}
use pactum.Relayer.MerkleTree.Layers.{length-next_layer, build_layers-cons}
use pactum.Relayer.MerkleTree.Proofs.{AreBytes, climb-root, proof_from-step, last_layer-step}
use pactum.Rollup.Accumulator.{
  ProofNode, MerkleAccumulator, new_accumulator, root_of, path_node, build_proof, cached_proof,
  combine, rebuild, reduce_layer, all_hex32, compute_root, fold_proof, verify_merkle_proof,
}
use pactum.Rollup.Accumulator.Cache.{
  IsBuilt, cached_proof-IsBuilt, append_all, new-IsBuilt, AreDigests, append_all-IsBuilt,
}
use pactum.Rollup.Accumulator.Layers.{
  AllDigests, IsDigest, build_proof-step, get_or-IsDigest, hex32_bytes-hex_text, or_true,
  pair_up-next_layer, rebuild-build_layers, sibling_in_range, sibling_of-sibling_index,
  top_layer-last_layer,
}

-- SHA-256 returns 32 bytes.
module _ (sha256 : Bytes → Bytes) (digest : (b : Bytes) → IsDigest (sha256 b)) where
  next_layer-AllDigests : (ls : List Bytes) → AllDigests (next_layer sha256 ls)
  unfolding next_layer hash_pair
  next_layer-AllDigests [] = tt
  next_layer-AllDigests (x ∷ []) = (digest _, tt)
  next_layer-AllDigests (x ∷ y ∷ rest) = (digest _, next_layer-AllDigests rest)

  -- One node of a proof: the two ways of reading it agree.
  node-agrees :
      (layer : List Bytes) (i : ℕ) (current : Bytes) (proof : List ProofNode)
      (path : List MerkleProofNode)
      → AllDigests layer
      → i < length layer
      → ((c : Bytes) → fold_proof sha256 c proof ≡ ok (climb sha256 c path))
      → fold_proof sha256 current (path_node layer i ∷ proof)
        ≡ ok (climb sha256 current (proof_node layer i ∷ path))
  unfolding fold_proof climb path_node proof_node combine hash_pair
  node-agrees layer i current proof path d h k =
      let s =
        get_or-IsDigest layer (sibling_index (length layer) i) d
          (sibling_in_range (length layer) i h) in
      rw (sibling_of-sibling_index (length layer) i)
        (rw (hex32_bytes-hex_text _ s.0 s.1, parse_hex-hex_text _ s.1) (k _))

  fold_proof-climb :
      (fuel : ℕ) (layer : List Bytes) (i : ℕ) (current : Bytes)
      → AllDigests layer
      → i < length layer
      → fold_proof sha256 current (build_proof (build_layers sha256 fuel layer) i)
        ≡ ok (climb sha256 current (proof_from (build_layers sha256 fuel layer) i))
  unfolding build_layers build_proof proof_from fold_proof climb
  fold_proof-climb zero layer i current d h = refl
  fold_proof-climb (suc fuel) layer i current d h = elim (Bool-cases (ltb 1 (length layer))) [
    | inl more ↦
        let (above, e) = build_layers-cons sha256 fuel (next_layer sha256 layer) in
        rw (more, build_layers, build_proof-step layer i e, proof_from-step layer i e)
          (node-agrees layer i current _
            (proof_from (build_layers sha256 fuel (next_layer sha256 layer)) (i / 2)) d h
            (λ c.
              fold_proof-climb fuel (next_layer sha256 layer) (i / 2) c
                (next_layer-AllDigests layer) (ground (arith, length-next_layer sha256 layer))))
    | inr top ↦ rw (top, build_layers)
  ]

  AllDigests-AreBytes : (ls : List Bytes) → AllDigests ls → AreBytes ls
  AllDigests-AreBytes [] h = tt
  AllDigests-AreBytes (l ∷ ls) h = (h.0.1, AllDigests-AreBytes ls h.1)

  AllDigests-AreDigests : (ls : List Bytes) → AllDigests ls → AreDigests sha256 ls
  AllDigests-AreDigests [] h = tt
  AllDigests-AreDigests (l ∷ ls) h = (h.0.0, AllDigests-AreDigests ls h.1)

  -- The batch function reads the leaves back and reduces them to the top layer.
  all_hex32-map : (ls : List Bytes) → AllDigests ls → all_hex32 sha256 (map hex_text ls) ≡ ok ls
  unfolding all_hex32
  all_hex32-map [] h = refl
  all_hex32-map (l ∷ ls) h = rw (hex32_bytes-hex_text l h.0.0 h.0.1, all_hex32-map ls h.1)

  reduce-last_layer :
      (fuel : ℕ) (layer : List Bytes)
      → reduce_layer sha256 fuel layer ≡ last_layer (build_layers sha256 fuel layer)
  unfolding reduce_layer build_layers
  reduce-last_layer zero layer = refl
  reduce-last_layer (suc fuel) layer = elim (Bool-cases (ltb 1 (length layer))) [
    | inl more ↦
        let (above, e) = build_layers-cons sha256 fuel (next_layer sha256 layer) in
        rw (more, reduce_layer, build_layers, last_layer-step layer e)
          (rw (pair_up-next_layer sha256 layer) (reduce-last_layer fuel (next_layer sha256 layer)))
    | inr top ↦ rw (top, reduce_layer, build_layers)
  ]

  abbrev tree_root : List Bytes → Text
  tree_root leaves =
      hex_text (get_or (last_layer (build_layers sha256 (length leaves) leaves)) 0 [])

  root_of-tree_root :
      (acc : MerkleAccumulator)
      → IsBuilt sha256 acc
      → 0 < length acc.leaves
      → root_of acc ≡ some (tree_root acc.leaves)
  unfolding root_of
  root_of-tree_root acc b h = elim (Bool-cases (length acc.leaves == 0)) [
    | inl none_yet ↦ absurd (ground arith)
    | inr some_leaf ↦ rw some_leaf (
        ap (λ ls. some (hex_text (get_or ls 0 [])))
          (top_layer-last_layer acc.layers
            ∙ ap last_layer (b.built ∙ rebuild-build_layers sha256 (length acc.leaves) acc.leaves)))
  ]

  compute_root-tree_root :
      (leaves : List Bytes)
      → AllDigests leaves
      → 0 < length leaves
      → compute_root sha256 (map hex_text leaves) ≡ ok (tree_root leaves)
  unfolding compute_root
  compute_root-tree_root [] d h = absurd (omega arith)
  compute_root-tree_root (l ∷ ls) d h =
      rw (all_hex32-map (l ∷ ls) d) (rw (reduce-last_layer (length (l ∷ ls)) (l ∷ ls)))

  proof-verifies :
      (lower : Text → Text) (leaves : List Bytes) (i : ℕ)
      → AllDigests leaves
      → i < length leaves
      → verify_merkle_proof sha256 lower
          (hex_text (get_or leaves i []))
          (build_proof (rebuild sha256 (length leaves) leaves) i)
          (tree_root leaves)
        ≡ ok true
  unfolding verify_merkle_proof
  proof-verifies lower leaves i d h =
      let leaf = get_or-IsDigest leaves i d h in
      rw (hex32_bytes-hex_text (get_or leaves i []) leaf.0 leaf.1) (
        rw (rebuild-build_layers sha256 (length leaves) leaves) (
          rw (fold_proof-climb (length leaves) leaves i (get_or leaves i []) d h) (
            rw
              (climb-root sha256 (λ b. (digest b).1) (length leaves) leaves i
                (AllDigests-AreBytes leaves d) h (omega arith))
              (rw (text_eq_refl (tree_root leaves)) (ap ok (or_true _))))))

  -- Appending any digests, one at least, to a new accumulator succeeds; its root is the one that the
  -- batch function computes from the leaves, and the proof that it has cached for each leaf verifies
  -- against that root.
  pub append_all-verifies :
      (lower : Text → Text) (leaves : List Bytes) (i : ℕ)
      → AllDigests leaves
      → i < length leaves
      → (acc : MerkleAccumulator) × (root : Text) × (append_all sha256 leaves new_accumulator
          ≡ ok acc)
        × (root_of acc ≡ some root)
        × (compute_root sha256 (map hex_text leaves) ≡ ok root)
        × (verify_merkle_proof sha256 lower
              (hex_text (get_or leaves i []))
              (cached_proof acc i)
              root
            ≡ ok true)
  unfolding new_accumulator
  append_all-verifies lower leaves i d h =
      let (acc, run, built, same) =
        append_all-IsBuilt sha256 leaves new_accumulator (AllDigests-AreDigests leaves d)
          (new-IsBuilt sha256) in
      let same' : acc.leaves ≡ leaves = same in
      let fits : i < length acc.leaves = rw same' h in
      (
        acc,
        tree_root leaves,
        run,
        root_of-tree_root acc built (omega arith) ∙ ap (λ ls. some (tree_root ls)) same',
        compute_root-tree_root leaves d (omega arith),
        rw (cached_proof-IsBuilt sha256 acc i built fits)
            (rw same' (proof-verifies lower leaves i d h)),
      )
