-- ===== src/Rpc/Pool/Ranking.antt =====
-- The ranking has every node once, and no node before one that it goes behind.
use pactum.Prelude.{ℕ, ◌≡◌, true, false, List, [], ◌∷◌, Bool-cases, inl, inr, Text, arith}
use pactum.Prelude.Js.{JsMap}
use mathlib.Core.List.{Perm}
use mathlib.Core.List.Perm
use pactum.Rpc.Pool.{Average, RpcNode, RpcPool, ranks_after, insert_ranked, sort_ranked, rank_nodes}

module _ (A : Average) (order : JsMap Text ℕ) (now : ℕ) where
  open A use {less, less_one_way}

  abbrev Node : Type 0
  Node = RpcNode A

  -- Two nodes never go behind one another.
  ranks_after_one_way :
      (a b : Node) → ranks_after A order now a b ≡ true → ranks_after A order now b a ≡ false
  unfolding ranks_after
  ranks_after_one_way a b h =
      ground (arith, less_one_way a.latency b.latency, less_one_way b.latency a.latency)

  abbrev pub IsRanked : List Node → Type 0
  IsRanked [] = Unit {0}
  IsRanked (a ∷ []) = Unit {0}
  IsRanked (a ∷ b ∷ nodes) = (ranks_after A order now a b ≡ false) × IsRanked (b ∷ nodes)

  insert_below :
      (a node : Node) (nodes : List Node)
      → ranks_after A order now a node ≡ false
      → IsRanked (a ∷ nodes)
      → IsRanked (insert_ranked A order now node nodes)
      → IsRanked (a ∷ insert_ranked A order now node nodes)
  unfolding insert_ranked
  insert_below a node [] h p q = (h, tt)
  insert_below a node (m ∷ ms) h p q = elim (Bool-cases (ranks_after A order now node m)) [
    | inl behind ↦ rw behind (p.0, (rw behind at q))
    | inr before ↦ rw before (h, (before, p.1))
  ]

  insert-IsRanked :
      (node : Node) (nodes : List Node)
      → IsRanked nodes
      → IsRanked (insert_ranked A order now node nodes)
  unfolding insert_ranked
  insert-IsRanked node [] h = tt
  insert-IsRanked node (m ∷ ms) h = elim (Bool-cases (ranks_after A order now node m)) [
    | inl behind ↦ rw behind (
        insert_below m node ms (ranks_after_one_way node m behind) h
          (insert-IsRanked node ms (tail_ranked m ms h)))
    | inr before ↦ rw before (before, h)
  ]
    where
      tail_ranked : (m : Node) (ms : List Node) → IsRanked (m ∷ ms) → IsRanked ms
      tail_ranked m [] k = tt
      tail_ranked m (m' ∷ ms') k = k.1

  insert-perm :
      (node : Node) (nodes : List Node) → Perm (insert_ranked A order now node nodes) (node ∷ nodes)
  unfolding insert_ranked
  insert-perm node [] = Perm.refl (node ∷ [])
  insert-perm node (m ∷ ms) = elim (Bool-cases (ranks_after A order now node m)) [
    | inl behind ↦ rw behind (Perm.trans (Perm.cons m (insert-perm node ms)) (Perm.swap node m ms))
    | inr before ↦ rw before (Perm.refl (node ∷ m ∷ ms))
  ]

  sort-IsRanked : (nodes : List Node) → IsRanked (sort_ranked A order now nodes)
  unfolding sort_ranked
  sort-IsRanked [] = tt
  sort-IsRanked (node ∷ nodes) = insert-IsRanked node _ (sort-IsRanked nodes)

  sort-perm : (nodes : List Node) → Perm (sort_ranked A order now nodes) nodes
  unfolding sort_ranked
  sort-perm [] = Perm.refl []
  sort-perm (node ∷ nodes) = Perm.trans (insert-perm node _) (Perm.cons node (sort-perm nodes))

-- The ranking lists every node of the pool once, and puts no node before one that it ranks after.
pub rank_nodes-IsRanked :
    (A : Average) (pool : RpcPool A) (now : ℕ)
    → IsRanked A pool.node_order now (rank_nodes A pool now)
      × Perm (rank_nodes A pool now) pool.nodes
unfolding rank_nodes
rank_nodes-IsRanked A pool now =
    (sort-IsRanked A pool.node_order now pool.nodes, sort-perm A pool.node_order now pool.nodes)
