-- ===== src/Rpc/Pool/Served.antt =====
-- What a call of the pool promises, said without its ranking, its bound and its loop.
use pactum.Prelude.{
  ℕ, min, max, ◌≡◌, refl, sym, ap, subst, Bool, true, false, List, [], ◌∷◌, ◌++◌, map, Option, none,
  some, Bool-cases, inl, inr, length, take, Text, arith,
}
use pactum.Prelude.Js.{text_key}
use mathlib.Core.List.{Perm}
use pactum.Rpc.Errors.{RpcError}
use pactum.Rpc.Pool.{Average, RpcNode, RpcPool, rank_nodes}
use pactum.Rpc.Pool.Order.{InOrder, ranked_in_order}
use pactum.Rpc.Pool.Ranking.{rank_nodes-IsRanked}
use pactum.Rpc.Pool.Execute.{
  Outcome, answered, failed, Attempt, Execution, returned, rejected, exhausted, attempts_allowed,
  is_retried, execute,
}
use pactum.Rpc.Pool.Attempts.{decide, loop-decides}

abbrev pub last_of : Option RpcError → List RpcError → Option RpcError
last_of last [] = last
last_of last (e ∷ es) = last_of (some e) es

abbrev pub AllRetried : (RpcError → Bool) → List RpcError → Type 0
AllRetried retried [] = Unit {0}
AllRetried retried (e ∷ es) = (retried e ≡ true) × AllRetried retried es

module _ {T : Type 0} (retried : RpcError → Bool) where
  -- What the outcomes mean: the first answer that comes after retried failures only, or the first
  -- failure after such that is not retried; when all are retried failures, the last of them.
  abbrev pub Means : Option RpcError → ℕ → List (Outcome T) → Execution T → Type 0
  Means last total outcomes (returned value) =
      (before : List RpcError) × (after : List (Outcome T)) × AllRetried retried before
      × (outcomes ≡ map failed before ++ answered value ∷ after)
  Means last total outcomes (rejected e) =
      (before : List RpcError) × (after : List (Outcome T)) × AllRetried retried before
      × (retried e ≡ false)
      × (outcomes ≡ map failed before ++ failed e ∷ after)
  Means last total outcomes (exhausted e n) =
      (before : List RpcError) × AllRetried retried before
      × (outcomes ≡ map failed before)
      × (e ≡ last_of last before)
      × (n ≡ total)

  prepend :
      (last : Option RpcError) (total : ℕ) (e : RpcError) (outcomes : List (Outcome T))
      (x : Execution T)
      → retried e ≡ true
      → Means (some e) total outcomes x
      → Means last total (failed e ∷ outcomes) x
  prepend last total e outcomes (returned v) r (before, after, all, same) =
      (e ∷ before, after, (r, all), ap (λ x. failed e ∷ x) same)
  prepend last total e outcomes (rejected e') r (before, after, all, final, same) =
      (e ∷ before, after, (r, all), final, ap (λ x. failed e ∷ x) same)
  prepend last total e outcomes (exhausted e' n) r (before, all, same, l, k) =
      (e ∷ before, (r, all), ap (λ x. failed e ∷ x) same, l, k)

  decide-Means :
      (total : ℕ) (last : Option RpcError) (outcomes : List (Outcome T))
      → Means last total outcomes (decide retried total last outcomes)
  unfolding decide
  decide-Means total last [] = ([], tt, refl, refl, refl)
  decide-Means total last (answered v ∷ outcomes) = ([], outcomes, tt, refl)
  decide-Means total last (failed e ∷ outcomes) = elim (Bool-cases (retried e)) [
    | inl again ↦
        rw again (prepend last total e outcomes _ again (decide-Means total (some e) outcomes))
    | inr final ↦ rw final ([], outcomes, tt, final, refl)
  ]

-- The attempts that the options allow: at least one, and at most one for each node.
abbrev pub allowed : Option ℕ → ℕ → ℕ
allowed none n = n
allowed (some k) n = min (max 1 k) n

allowed_lem : (o : Option ℕ) (n : ℕ) → attempts_allowed o n ≡ allowed o n
unfolding attempts_allowed
allowed_lem none n = ground arith
allowed_lem (some k) n = refl

-- A result is explained by the outcomes of the allowed attempts on all nodes in their order.
pub record IsServed (A : Average) {T : Type 0} (retried : RpcError → Bool)
    (environment : ℕ → Attempt T) (pool : RpcPool A) (now : ℕ) (result : Execution T) : Type 0 where
  pub nodes : List (RpcNode A)
  pub all : Perm nodes pool.nodes
  pub order : InOrder A pool.node_order now nodes
  pub meaning :
      let slots = map (λ (n : RpcNode A). n.slot) nodes in
      let attempts = allowed pool.options.max_attempts (length slots) in
      Means {T = T} retried none attempts
        (map (λ slot. (environment slot).outcome) (take attempts slots))
        result

-- A call of the pool asks the nodes in order: those not cooling down first, then by score, latency
-- and place in the configuration. It asks as many as the options allow, at least one of them. It
-- returns the first answer if all failures before are retried, throws the first failure that is not,
-- and is exhausted, with the last failure and the number of attempts, if all are retried failures.
pub execute-IsServed :
    (A : Average) {T : Type 0} (lower : Text → Text) (custom : Option (RpcError → Bool))
    (environment : ℕ → Attempt T) (pool : RpcPool A) (now : ℕ)
    → IsServed A
        (is_retried lower custom)
        environment
        pool
        now
        (execute A (is_retried lower custom) environment pool now).0
unfolding execute
execute-IsServed A {T} lower custom environment pool now =
    let retried = is_retried lower custom in
    let nodes = rank_nodes A pool now in
    let slots = map (λ (n : RpcNode A). n.slot) nodes in
    let n = attempts_allowed pool.options.max_attempts (length slots) in
    let (ranked, perm) = rank_nodes-IsRanked A pool now in
    record {
      nodes = nodes;
      all = perm;
      order = ranked_in_order A pool.node_order now nodes ranked;
      meaning =
          subst
            (λ k.
              Means {T = T} retried none k (map (λ slot. (environment slot).outcome) (take k slots))
                (execute A retried environment pool now).0)
            (allowed_lem pool.options.max_attempts (length slots))
            (subst
              (Means {T = T} retried none n
                (map (λ slot. (environment slot).outcome) (take n slots)))
              (sym (loop-decides A retried environment n n slots none pool))
              (decide-Means {T = T} retried n none
                (map (λ slot. (environment slot).outcome) (take n slots))));
    }
