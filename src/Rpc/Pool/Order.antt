-- ===== src/Rpc/Pool/Order.antt =====
-- The order in which the nodes are asked, said without the comparison of the code.
use pactum.Prelude.{
  ℕ, ◌≤◌, ◌≡◌, refl, sym, ◌∙◌, Bool, true, false, not, ◌&&◌, List, [], ◌∷◌, Option, none, some,
  if◌then◌else◌, inl, inr, ◌⊎◌, ltb, Text, arith,
}
use pactum.Prelude.Int.{◌<ℤ◌, ◌≤ℤ◌, ltb_ℤ}
use pactum.Prelude.Js.{JsMap, get, text_key}
use pactum.Rpc.Pool.{Average, RpcNode, is_cooling_down, order_of, ranks_after}
use pactum.Rpc.Pool.Ranking.{IsRanked}

-- The node is not asked before the others at `now`.
abbrev pub rests : Option ℕ → ℕ → Bool
rests none now = false
rests (some until) now = ltb now until

abbrev pub place : Option ℕ → ℕ
place none = 0
place (some index) = index

module _ (A : Average) (order : JsMap Text ℕ) (now : ℕ) where
  open A use {less}

  -- `a` may be asked before `b`: it does not rest and `b` does; or else its score is higher, or else
  -- it is faster, or else it does not stand behind `b` in the configuration.
  abbrev pub MayPrecede : RpcNode A → RpcNode A → Type 0
  MayPrecede a b =
      ((rests a.cooldown_until now ≡ false) × (rests b.cooldown_until now ≡ true))
      ⊎ ((rests a.cooldown_until now ≡ rests b.cooldown_until now)
          × ((b.score <ℤ a.score)
              ⊎ ((b.score ≤ℤ a.score)
                  × ((less a.latency b.latency ≡ true)
                      ⊎ ((less b.latency a.latency ≡ false)
                          × (place (get order a.url) ≤ place (get order b.url)))))))

  abbrev pub InOrder : List (RpcNode A) → Type 0
  InOrder [] = Unit {0}
  InOrder (a ∷ []) = Unit {0}
  InOrder (a ∷ b ∷ nodes) = MayPrecede a b × InOrder (b ∷ nodes)

  rests_lem : (a : RpcNode A) → is_cooling_down A now a ≡ rests a.cooldown_until now
  unfolding is_cooling_down
  rests_lem a = cases a.cooldown_until
    where
      cases : (o : Option ℕ) → elim o [ none ↦ false | some until ↦ ltb now until ] ≡ rests o now
      cases none = refl
      cases (some until) = refl

  place_lem : (a : RpcNode A) → order_of A order a ≡ place (get order a.url)
  unfolding order_of
  place_lem a = cases (get order a.url)
    where
      cases : (o : Option ℕ) → elim o [ none ↦ 0 | some index ↦ index ] ≡ place o
      cases none = refl
      cases (some index) = refl

  -- The comparison on its tests.
  compared :
      (ra rb sab sba lba lab later : Bool)
      → (if ra && not rb
          then true
          else if rb && not ra
          then false
          else if sab
          then true
          else if sba
          then false
          else if lba
          then true
          else if lab
          then false
          else later)
        ≡ false
      → ((ra ≡ false) × (rb ≡ true))
        ⊎ ((ra ≡ rb)
            × ((sba ≡ true) ⊎ ((sab ≡ false) × ((lab ≡ true) ⊎ ((lba ≡ false) × (later ≡ false))))))
  compared false true sab sba lba lab later h = inl (refl, refl)
  compared true false sab sba lba lab later h = ground arith
  compared true true sab true lba lab later h = inr (refl, inl refl)
  compared true true true false lba lab later h = ground arith
  compared true true false false lba true later h = inr (refl, inr (refl, inl refl))
  compared true true false false true false later h = ground arith
  compared true true false false false false later h = inr (refl, inr (refl, inr (refl, h)))
  compared false false sab true lba lab later h = inr (refl, inl refl)
  compared false false true false lba lab later h = ground arith
  compared false false false false lba true later h = inr (refl, inr (refl, inl refl))
  compared false false false false true false later h = ground arith
  compared false false false false false false later h = inr (refl, inr (refl, inr (refl, h)))

  may_precede : (a b : RpcNode A) → ranks_after A order now a b ≡ false → MayPrecede a b
  unfolding ranks_after
  may_precede a b h =
      elim (compared (is_cooling_down A now a) (is_cooling_down A now b) (ltb_ℤ a.score b.score)
        (ltb_ℤ b.score a.score) (less b.latency a.latency) (less a.latency b.latency)
        (ltb (order_of A order b) (order_of A order a)) h) [
          | inl (ra, rb) ↦ inl (sym (rests_lem a) ∙ ra, sym (rests_lem b) ∙ rb)
          | inr (same, inl higher) ↦
              inr (sym (rests_lem a) ∙ same ∙ rests_lem b, inl (ground arith))
          | inr (same, inr (level, inl faster)) ↦
              inr (sym (rests_lem a) ∙ same ∙ rests_lem b, inr (ground arith, inl faster))
          | inr (same, inr (level, inr (slower, later))) ↦ inr (
            sym (rests_lem a) ∙ same ∙ rests_lem b,
            inr (ground arith, inr (slower, ground (arith, place_lem a, place_lem b))),
          )
        ]

  pub ranked_in_order : (nodes : List (RpcNode A)) → IsRanked A order now nodes → InOrder nodes
  ranked_in_order [] h = tt
  ranked_in_order (a ∷ []) h = tt
  ranked_in_order (a ∷ b ∷ nodes) h = (may_precede a b h.0, ranked_in_order (b ∷ nodes) h.1)
