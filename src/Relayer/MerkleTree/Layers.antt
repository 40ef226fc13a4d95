-- ===== src/Relayer/MerkleTree/Layers.antt =====
-- The layers of the tree: each halves the one below, the top one is the root alone, and one step
-- of an audit path leads from a node to the node above it.
use pactum.Prelude.{
  ℕ, zero, suc, ◌+◌, ◌/◌, ◌%◌, ◌≤◌, ◌<◌, ◌≡◌, refl, sym, ap, ◌∙◌, inl, inr, List, [], ◌∷◌,
  if◌then◌else◌, ltb, ◌==◌, Bool-cases, length, get_or, Bytes, arith,
}
use pactum.Relayer.MerkleTree.{hash_pair, next_layer, build_layers, last_layer, sibling_index}

module _ (sha256 : Bytes → Bytes) where
  pub length-next_layer : (xs : List Bytes) → length (next_layer sha256 xs) ≡ (length xs + 1) / 2
  unfolding next_layer
  length-next_layer [] = omega arith
  length-next_layer (x ∷ []) = omega arith
  length-next_layer (x ∷ y ∷ rest) = omega (arith, length-next_layer rest)

  pub build_layers-cons :
      (fuel : ℕ) (layer : List Bytes)
      → (above : List (List Bytes)) × (build_layers sha256 fuel layer ≡ layer ∷ above)
  unfolding build_layers
  build_layers-cons zero layer = ([], refl)
  build_layers-cons (suc fuel) layer = elim (Bool-cases (ltb 1 (length layer))) [
    | inl more ↦ (build_layers sha256 fuel (next_layer sha256 layer), rw (more, build_layers))
    | inr top ↦ ([], rw (top, build_layers))
  ]

  length-last_step :
      {layers : List (List Bytes)} {next : List Bytes} (above : List (List Bytes))
      (layer : List Bytes)
      → layers ≡ next ∷ above
      → length (last_layer layers) ≡ 1
      → length (last_layer (layer ∷ layers)) ≡ 1
  length-last_step above layer e h = rw e (rw e at h)

  -- From a layer that is not empty, the loop ends at a layer of one node when it has a round for each
  -- node but one.
  pub length-last_layer :
      (fuel : ℕ) (layer : List Bytes)
      → 0 < length layer
      → length layer ≤ fuel + 1
      → length (last_layer (build_layers sha256 fuel layer)) ≡ 1
  unfolding build_layers
  length-last_layer zero layer pos enough = omega arith
  length-last_layer (suc fuel) layer pos enough = elim (Bool-cases (ltb 1 (length layer))) [
    | inl more ↦
        let (above, e) = build_layers-cons fuel (next_layer sha256 layer) in
        rw (more, build_layers)
          (length-last_step above layer e (
            length-last_layer fuel (next_layer sha256 layer)
              (ground (arith, length-next_layer layer)) (ground (arith, length-next_layer layer))))
    | inr top ↦ rw (top, build_layers) (ground arith)
  ]

  sibling_index-shift :
      (n j : ℕ) → sibling_index (suc (suc n)) (suc (suc j)) ≡ suc (suc (sibling_index n j))
  unfolding sibling_index
  sibling_index-shift n j = ground arith

  -- What `verify` computes from the node at `i` and the sibling that `getProof` puts in the path.
  abbrev pub join : List Bytes → ℕ → Bytes
  join layer i =
      if i % 2 == 0
      then hash_pair sha256 (get_or layer i []) (get_or layer (sibling_index (length layer) i) [])
      else hash_pair sha256 (get_or layer (sibling_index (length layer) i) []) (get_or layer i [])

  half : (j : ℕ) → suc (suc j) / 2 ≡ suc (j / 2)
  half j = omega arith

  parity : (j : ℕ) → suc (suc j) % 2 ≡ j % 2
  parity j = omega arith

  join-shift :
      (x y : Bytes) (rest : List Bytes) (j : ℕ) → join (x ∷ y ∷ rest) (suc (suc j)) ≡ join rest j
  join-shift x y rest j = rw (sibling_index-shift (length rest) j, parity j)

  pub join-next_layer :
      (layer : List Bytes) (i : ℕ)
      → i < length layer
      → join layer i ≡ get_or (next_layer sha256 layer) (i / 2) []
  unfolding next_layer sibling_index
  join-next_layer [] i h = absurd (omega arith)
  join-next_layer (x ∷ []) zero h = refl
  join-next_layer (x ∷ []) (suc i) h = absurd (omega arith)
  join-next_layer (x ∷ y ∷ rest) zero h = ground arith
  join-next_layer (x ∷ y ∷ rest) (suc zero) h = refl
  join-next_layer (x ∷ y ∷ rest) (suc (suc j)) h =
      join-shift x y rest j
      ∙ join-next_layer rest j (omega arith)
      ∙ sym (ap (λ k. get_or (hash_pair sha256 x y ∷ next_layer sha256 rest) k []) (half j))
