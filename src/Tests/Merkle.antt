-- ===== src/Tests/Merkle.antt =====
-- Runs of the Merkle tree, with a stand-in for SHA-256 that repeats the sum of its input.
use pactum.Prelude.{
  ℕ, zero, suc, ◌+◌, ◌%◌, ◌≡◌, ◌⊎◌, refl, ap, List, [], ◌∷◌, true, length, replicate,
  length-replicate, Bytes, IsBytes, text_eq_refl, arith, ◌<◌,
}
use pactum.Prelude.Results.{ok}
use pactum.Relayer.Hex.{hex_text, parse_hex, parse_hex-hex_text}
use pactum.Relayer.MerkleTree.{
  MerkleTree, MerkleProofNode, new_tree, get_proof, get_root, verify, climb,
}
use pactum.Relayer.MerkleTree.Proofs.{verify-get_proof, AreBytes}
use pactum.Relayer.MerkleTree.Binding.{verify-binding, Collision}

abbrev total : Bytes → ℕ
total [] = 0
total (b ∷ bs) = b + total bs

abbrev digest : Bytes → Bytes
digest bs = replicate 32 (total bs % 256)

replicate-IsBytes : (n b : ℕ) → b < 256 → IsBytes (replicate n b)
replicate-IsBytes zero b h = tt
replicate-IsBytes (suc n) b h = (h, replicate-IsBytes n b h)

digest_bytes : (bs : Bytes) → IsBytes (digest bs)
digest_bytes bs = replicate-IsBytes 32 (total bs % 256) (omega arith)

length-digest : (bs : Bytes) → length (digest bs) ≡ 32
length-digest bs = length-replicate 32 (total bs % 256)

abbrev leaves : List Bytes
leaves = replicate 32 1 ∷ replicate 32 2 ∷ replicate 32 3 ∷ []

leaves-AreBytes : AreBytes leaves
leaves-AreBytes = (
  replicate-IsBytes 32 1 (omega arith),
  (replicate-IsBytes 32 2 (omega arith), (replicate-IsBytes 32 3 (omega arith), tt)),
)

verify-get_proof_example :
    (t : MerkleTree) × (proof : List MerkleProofNode) × (new_tree digest leaves ≡ ok t)
    × (get_proof t 2 ≡ ok proof)
    × (verify digest (replicate 32 3) proof (get_root t) ≡ true)
verify-get_proof_example =
    verify-get_proof digest digest_bytes leaves 2 leaves-AreBytes (omega arith)

abbrev node : MerkleProofNode
node = record { sibling = hex_text (replicate 32 9); is_right = true }

node_length : length (parse_hex node.sibling) ≡ 32
node_length = ap length (parse_hex-hex_text (replicate 32 9) (replicate-IsBytes 32 9 (omega arith)))

abbrev leaf : Bytes
leaf = replicate 32 7

leaf_verifies : verify digest leaf (node ∷ []) (climb digest leaf (node ∷ [])) ≡ true
unfolding verify
leaf_verifies = text_eq_refl (climb digest leaf (node ∷ []))

verify-binding_example : (leaf ≡ leaf) ⊎ Collision digest
verify-binding_example =
    verify-binding digest length-digest (climb digest leaf (node ∷ [])) leaf leaf (node ∷ [])
      (node ∷ []) refl refl (refl, node_length, node_length, tt) leaf_verifies leaf_verifies
