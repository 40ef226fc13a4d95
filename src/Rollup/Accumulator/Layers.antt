-- ===== src/Rollup/Accumulator/Layers.antt =====
-- The layers of the accumulator are those of the tree of the relayer, and its texts keep digests.
use pactum.Prelude.{
  ℕ, zero, suc, ◌*◌, ◌/◌, ◌%◌, ◌<◌, ◌≡◌, refl, ◌∙◌, ap, Bool, true, false, not, ◌||◌, List, [], ◌∷◌,
  ◌++◌, if◌then◌else◌, Bool-cases, inl, inr, ltb, ◌==◌, length, get_or, Bytes, IsBytes, arith,
}
use pactum.Prelude.Results.{ok, err}
use pactum.Relayer.Hex.{to_hex, hex_text, strip_prefix, from_hex-to_hex, hex_value-hex_digit}
use pactum.Relayer.MerkleTree.{hash_pair, next_layer, build_layers, last_layer, sibling_index}
use pactum.Rollup.Accumulator.{
  AccumulatorError, is_hex, hex32_bytes, top_layer, sibling_of, path_node, build_proof, combine,
  pair_up, rebuild,
}

length-to_hex : (bs : Bytes) → length (to_hex bs) ≡ 2 * length bs
unfolding to_hex
length-to_hex [] = omega arith
length-to_hex (b ∷ bs) = omega (arith, length-to_hex bs)

is_hex-to_hex : (bs : Bytes) → IsBytes bs → is_hex (to_hex bs) ≡ true
unfolding to_hex is_hex
is_hex-to_hex [] h = refl
is_hex-to_hex (b ∷ bs) h =
    rw (hex_value-hex_digit (b / 16) (omega arith), is_hex)
      (rw (hex_value-hex_digit (b % 16) (omega arith), is_hex) (is_hex-to_hex bs h.1))

-- A digest is read back from its text.
pub hex32_bytes-hex_text :
    (bs : Bytes) → length bs ≡ 32 → IsBytes bs → hex32_bytes (hex_text bs) ≡ ok bs
unfolding hex32_bytes hex_text strip_prefix
hex32_bytes-hex_text bs n h =
    rw (is_hex-to_hex bs h, from_hex-to_hex bs h)
      (size_passes (length-to_hex bs ∙ ap (λ k. 2 * k) n))
  where
    size_passes :
        length (to_hex bs) ≡ 2 * 32
        → (if not (length (to_hex bs) == 64) || not true
            then err AccumulatorError.not_hex32
            else ok bs)
          ≡ ok bs
    size_passes e = ground arith

module _ (sha256 : Bytes → Bytes) where
  pub pair_up-next_layer : (layer : List Bytes) → pair_up sha256 layer ≡ next_layer sha256 layer
  unfolding pair_up next_layer combine hash_pair
  pair_up-next_layer [] = refl
  pair_up-next_layer (l ∷ []) = refl
  pair_up-next_layer (l ∷ r ∷ rest) = ap (◌∷◌ (sha256 (l ++ r))) (pair_up-next_layer rest)

  -- The two trees are the same.
  pub rebuild-build_layers :
      (fuel : ℕ) (layer : List Bytes) → rebuild sha256 fuel layer ≡ build_layers sha256 fuel layer
  unfolding rebuild build_layers
  rebuild-build_layers zero layer = refl
  rebuild-build_layers (suc fuel) layer = elim (Bool-cases (ltb 1 (length layer))) [
    | inl more ↦
        rw (more, rebuild, build_layers)
          (ap (◌∷◌ layer) (
            rebuild-build_layers fuel (pair_up sha256 layer)
            ∙ ap (build_layers sha256 fuel) (pair_up-next_layer layer)))
    | inr top ↦ rw (top, rebuild, build_layers)
  ]

pub top_layer-last_layer : (layers : List (List Bytes)) → top_layer layers ≡ last_layer layers
top_layer-last_layer [] = refl
top_layer-last_layer (l ∷ []) = refl
top_layer-last_layer (l ∷ m ∷ ls) = top_layer-last_layer (m ∷ ls)

-- The length of a digest, in bytes.
abbrev pub IsDigest : Bytes → Type 0
IsDigest bs = (length bs ≡ 32) × IsBytes bs

abbrev pub AllDigests : List Bytes → Type 0
AllDigests [] = Unit {0}
AllDigests (l ∷ ls) = IsDigest l × AllDigests ls

pub get_or-IsDigest :
    (ls : List Bytes) (i : ℕ) → AllDigests ls → i < length ls → IsDigest (get_or ls i [])
get_or-IsDigest [] i h l = absurd (omega arith)
get_or-IsDigest (x ∷ xs) zero h l = h.0
get_or-IsDigest (x ∷ xs) (suc i) h l = get_or-IsDigest xs i h.1 (omega arith)

pub sibling_in_range : (n i : ℕ) → i < n → sibling_index n i < n
unfolding sibling_index
sibling_in_range n i h = ground arith

pub sibling_of-sibling_index : (n i : ℕ) → sibling_of n i ≡ sibling_index n i
unfolding sibling_of sibling_index
sibling_of-sibling_index n i = refl

pub build_proof-step :
    {layers above : List (List Bytes)} {next : List Bytes} (layer : List Bytes) (i : ℕ)
    → layers ≡ next ∷ above
    → build_proof (layer ∷ layers) i ≡ path_node layer i ∷ build_proof layers (i / 2)
unfolding build_proof
build_proof-step layer i e = rw e

pub or_true : (b : Bool) → (b || true) ≡ true
or_true true = refl
or_true false = refl
