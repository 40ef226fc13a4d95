-- ===== src/Relayer/MerkleTree/Binding.antt =====
-- A root commits to its leaves: two different leaves that verify along the same path, against the
-- same root, give a collision of SHA-256.
use pactum.Prelude.{
  ◌≡◌, ◌≢◌, sym, ap, ◌∙◌, subst, ◌⊎◌, inl, inr, List, [], ◌∷◌, ◌++◌, Bool, true, false,
  if◌then◌else◌, length, take, drop, take_left, drop_left, Bytes, Text-discrete, text_eq→eq,
}
use pactum.Relayer.Hex.{parse_hex}
use pactum.Relayer.MerkleTree.{MerkleProofNode, hash_pair, climb, verify}

-- Two inputs with one digest.
pub record Collision (sha256 : Bytes → Bytes) : Type 0 where
  pub first : Bytes
  pub second : Bytes
  pub differ : first ≢ second
  pub same_digest : sha256 first ≡ sha256 second

-- The two paths have the same directions, and siblings of the length of a digest.
abbrev pub SameDirections : List MerkleProofNode → List MerkleProofNode → Type 0
SameDirections [] [] = Unit {0}
SameDirections [] (q ∷ qs) = ⊥
SameDirections (p ∷ ps) [] = ⊥
SameDirections (p ∷ ps) (q ∷ qs) =
    (p.is_right ≡ q.is_right)
    × (length (parse_hex p.sibling) ≡ 32)
    × (length (parse_hex q.sibling) ≡ 32)
    × SameDirections ps qs

append-injective :
    (a b c d : Bytes) → length a ≡ 32 → length b ≡ 32 → a ++ c ≡ b ++ d → (a ≡ b) × (c ≡ d)
append-injective a b c d la lb e = (
  sym (take_left a c 32 la) ∙ ap (take 32) e ∙ take_left b d 32 lb,
  sym (drop_left a c 32 la) ∙ ap (drop 32) e ∙ drop_left b d 32 lb,
)

module _ (sha256 : Bytes → Bytes) (digest_length : (b : Bytes) → length (sha256 b) ≡ 32) where
  hash_pair-injective :
      (a b c d : Bytes)
      → length a ≡ 32
      → length b ≡ 32
      → hash_pair sha256 a c ≡ hash_pair sha256 b d
      → (a ≡ b) × (c ≡ d) ⊎ Collision sha256
  unfolding hash_pair
  hash_pair-injective a b c d la lb e = elim (Text-discrete (a ++ c) (b ++ d)) [
    | yes same ↦ inl (append-injective a b c d la lb same)
    | no differ ↦ inr (record { first = a ++ c; second = b ++ d; differ = differ; same_digest = e })
  ]

  -- One round of the loop of `verify`.
  abbrev round : Bool → Bytes → Bytes → Bytes
  round right current sibling =
      if right then hash_pair sha256 current sibling else hash_pair sha256 sibling current

  round-injective :
      (right : Bool) (a b x y : Bytes)
      → length a ≡ 32
      → length b ≡ 32
      → length x ≡ 32
      → length y ≡ 32
      → round right a x ≡ round right b y
      → (a ≡ b) ⊎ Collision sha256
  round-injective true a b x y la lb lx ly e = elim (hash_pair-injective a b x y la lb e) [
    | inl (same, _) ↦ inl same
    | inr c ↦ inr c
  ]
  round-injective false a b x y la lb lx ly e = elim (hash_pair-injective x y a b lx ly e) [
    | inl (_, same) ↦ inl same
    | inr c ↦ inr c
  ]

  length-round : (right : Bool) (a x : Bytes) → length (round right a x) ≡ 32
  unfolding hash_pair
  length-round true a x = digest_length _
  length-round false a x = digest_length _

  climb-injective :
      (a b : Bytes) (ps qs : List MerkleProofNode)
      → length a ≡ 32
      → length b ≡ 32
      → SameDirections ps qs
      → climb sha256 a ps ≡ climb sha256 b qs
      → (a ≡ b) ⊎ Collision sha256
  unfolding climb
  climb-injective a b [] [] la lb s e = inl e
  climb-injective a b [] (q ∷ qs) la lb s e = elim s [ ]
  climb-injective a b (p ∷ ps) [] la lb s e = elim s [ ]
  climb-injective a b (p ∷ ps) (q ∷ qs) la lb s e =
      elim (climb-injective (round p.is_right a (parse_hex p.sibling))
        (round q.is_right b (parse_hex q.sibling)) ps qs (length-round p.is_right a _)
        (length-round q.is_right b _) s.3 e) [
          | inl same ↦
              round-injective q.is_right a b (parse_hex p.sibling) (parse_hex q.sibling) la lb s.1
                s.2
                (subst
                  (λ right.
                    round right a (parse_hex p.sibling) ≡ round q.is_right b (parse_hex q.sibling))
                  s.0 same)
          | inr c ↦ inr c
        ]

  -- If `verify` accepts two 32-byte leaves against one root, along paths with the same directions
  -- and 32-byte siblings, then the leaves are equal, or the proof exhibits two different inputs
  -- with one SHA-256 digest.
  pub verify-binding :
      (root a b : Bytes) (ps qs : List MerkleProofNode)
      → length a ≡ 32
      → length b ≡ 32
      → SameDirections ps qs
      → verify sha256 a ps root ≡ true
      → verify sha256 b qs root ≡ true
      → (a ≡ b) ⊎ Collision sha256
  unfolding verify
  verify-binding root a b ps qs la lb s va vb =
      climb-injective a b ps qs la lb s (text_eq→eq _ _ va ∙ sym (text_eq→eq _ _ vb))
