-- ===== src/Rpc/Pool/Health.antt =====
-- What holds of every node of a pool, whatever calls are in flight.
use pactum.Prelude.{
  Option, some, ℕ, ◌+◌, ◌≤◌, ◌≡◌, refl, subst, Bool, true, false, List, [], ◌∷◌, none, Bool-cases,
  inl, inr, ◌==◌, All, arith, Text,
}
use pactum.Prelude.Results.{Result, ok, err, ◌>>=◌}
use pactum.Prelude.Int.{pos, neg_ℤ, ◌≤ℤ◌, +ℤ_parts, neg_ℤ_parts}
use pactum.Prelude.Js.{JsMap}
use pactum.Rpc.Errors.{RpcError}
use pactum.Rpc.Pool.{
  Average, PoolOptions, PoolError, RpcNode, RpcPool, new_node, new_nodes, new_pool, record_success,
  penalise, record_failure, update_node, start_attempt, succeed, fail_attempt, check_node,
}

-- The pieces of the calls, each of them atomic: the environment orders them.
pub data PoolCall : Type 0 where
  attempt_starts : ℕ → ℕ → PoolCall
  attempt_succeeds : ℕ → ℕ → ℕ → PoolCall
  attempt_fails : ℕ → RpcError → ℕ → ℕ → Bool → PoolCall
  checks : ℕ → Option RpcError → ℕ → ℕ → PoolCall

pub record IsConfigured (options : PoolOptions) : Type 0 where
  pub ordered : options.min_score ≤ℤ options.max_score
  pub bonus_grows : pos 0 ≤ℤ options.success_bonus
  pub penalty_falls : pos 0 ≤ℤ options.failure_penalty

module _ (A : Average) where
  unfoldable pub pool_step : PoolCall → RpcPool A → RpcPool A
  pool_step (attempt_starts slot now) pool = start_attempt A slot now pool
  pool_step (attempt_succeeds slot started now) pool = succeed A slot started now pool
  pool_step (attempt_fails slot e started now retryable) pool =
      fail_attempt A slot e started now retryable pool
  pool_step (checks slot failure started now) pool = check_node A slot failure started now pool

  unfoldable pub pool_run : List PoolCall → RpcPool A → RpcPool A
  pool_run [] pool = pool
  pool_run (call ∷ calls) pool = pool_run calls (pool_step call pool)

  pub record IsHealthy (options : PoolOptions) (node : RpcNode A) : Type 0 where
    pub above : options.min_score ≤ℤ node.score
    pub below : node.score ≤ℤ options.max_score
    pub streak : node.consecutive_failures ≤ node.total_failures
    pub cooled : node.total_failures ≡ 0 → node.cooldown_until ≡ none

  success-IsHealthy :
      (options : PoolOptions) (started now : ℕ) (node : RpcNode A)
      → IsConfigured options
      → IsHealthy options node
      → IsHealthy options (record_success A options started now node)
  unfolding record_success
  success-IsHealthy options started now node c h = record {
    above = ground (arith, +ℤ_parts node.score options.success_bonus);
    below = ground arith;
    streak = omega arith;
    cooled = λ e. refl;
  }

  failure-IsHealthy :
      (options : PoolOptions) (e : RpcError) (started now : ℕ) (retryable : Bool) (node : RpcNode A)
      → IsConfigured options
      → IsHealthy options node
      → IsHealthy options (record_failure A options e started now retryable node)
  unfolding record_failure penalise
  failure-IsHealthy options e started now true node c h = record {
    above = ground arith;
    below = ground (
      arith,
      +ℤ_parts node.score (neg_ℤ options.failure_penalty),
      neg_ℤ_parts options.failure_penalty,
    );
    streak = ground (arith, h.streak);
    cooled = λ z. absurd (omega arith);
  }
  failure-IsHealthy options e started now false node c h = record {
    above = h.above;
    below = h.below;
    streak = omega arith;
    cooled = λ z. absurd (omega arith);
  }

  module _ (options : PoolOptions) where
    abbrev AllHealthy : List (RpcNode A) → Type 0
    AllHealthy = All (IsHealthy options)

    update-AllHealthy :
        (slot : ℕ) (f : RpcNode A → RpcNode A) (nodes : List (RpcNode A))
        → ((n : RpcNode A) → IsHealthy options n → IsHealthy options (f n))
        → AllHealthy nodes
        → AllHealthy (update_node A slot f nodes)
    unfolding update_node
    update-AllHealthy slot f [] k h = tt
    update-AllHealthy slot f (node ∷ nodes) k h = elim (Bool-cases (node.slot == slot)) [
      | inl hit ↦ rw hit (k node h.0, update-AllHealthy slot f nodes k h.1)
      | inr miss ↦ rw miss (h.0, update-AllHealthy slot f nodes k h.1)
    ]

  new_node-IsHealthy :
      (options : PoolOptions) (slot : ℕ) (url : Text)
      → IsConfigured options
      → IsHealthy options (new_node A options slot url)
  unfolding new_node
  new_node-IsHealthy options slot url c = record {
    above = c.ordered;
    below = omega arith;
    streak = omega arith;
    cooled = λ e. refl;
  }

  abbrev Starts : PoolOptions → Result PoolError (List (RpcNode A) × JsMap Text ℕ) → Type 0
  Starts options (ok (nodes, order)) = AllHealthy options nodes
  Starts options (err e) = Unit {0}

  new_nodes-Starts :
      (options : PoolOptions) (urls : List Text) (index : ℕ) (order : JsMap Text ℕ)
      → IsConfigured options
      → Starts options (new_nodes A options urls index order)
  unfolding new_nodes
  new_nodes-Starts options [] index order c = tt
  new_nodes-Starts options ([] ∷ urls) index order c = tt
  new_nodes-Starts options ((d ∷ ds) ∷ urls) index order c =
      first (new_nodes A options urls (index + 1) _) (new_nodes-Starts options urls (index + 1) _ c)
    where
      first :
          (r : Result PoolError (List (RpcNode A) × JsMap Text ℕ))
          → Starts options r
          → Starts options (r >>= λ p. ok (new_node A options index (d ∷ ds) ∷ p.0, p.1))
      first (ok (nodes, order')) h = (new_node-IsHealthy options index (d ∷ ds) c, h)
      first (err e) h = tt

  abbrev pub PoolIsHealthy : RpcPool A → Type 0
  PoolIsHealthy pool = IsConfigured pool.options × All (IsHealthy pool.options) pool.nodes

  succeed-PoolIsHealthy :
      (slot started now : ℕ) (pool : RpcPool A)
      → PoolIsHealthy pool
      → PoolIsHealthy (succeed A slot started now pool)
  unfolding succeed
  succeed-PoolIsHealthy slot started now pool h = (
    h.0,
    update-AllHealthy pool.options slot _ pool.nodes
        (λ n k. success-IsHealthy pool.options started now n h.0 k) h.1,
  )

  fail_attempt-PoolIsHealthy :
      (slot : ℕ) (e : RpcError) (started now : ℕ) (retryable : Bool) (pool : RpcPool A)
      → PoolIsHealthy pool
      → PoolIsHealthy (fail_attempt A slot e started now retryable pool)
  unfolding fail_attempt
  fail_attempt-PoolIsHealthy slot e started now retryable pool h = (
    h.0,
    update-AllHealthy pool.options slot _ pool.nodes
        (λ n k. failure-IsHealthy pool.options e started now retryable n h.0 k) h.1,
  )

  step-PoolIsHealthy :
      (call : PoolCall) (pool : RpcPool A)
      → PoolIsHealthy pool
      → PoolIsHealthy (pool_step call pool)
  unfolding pool_step start_attempt check_node
  step-PoolIsHealthy (attempt_starts slot now) pool h = (
    h.0,
    update-AllHealthy pool.options slot _ pool.nodes
        (λ n k. record { above = k.above; below = k.below; streak = k.streak; cooled = k.cooled })
        h.1,
  )
  step-PoolIsHealthy (attempt_succeeds slot started now) pool h =
      succeed-PoolIsHealthy slot started now pool h
  step-PoolIsHealthy (attempt_fails slot e started now retryable) pool h =
      fail_attempt-PoolIsHealthy slot e started now retryable pool h
  step-PoolIsHealthy (checks slot none started now) pool h =
      succeed-PoolIsHealthy slot started now pool h
  step-PoolIsHealthy (checks slot (some e) started now) pool h =
      fail_attempt-PoolIsHealthy slot e started now true pool h

  run-PoolIsHealthy :
      (calls : List PoolCall) (pool : RpcPool A)
      → PoolIsHealthy pool
      → PoolIsHealthy (pool_run calls pool)
  unfolding pool_run
  run-PoolIsHealthy [] pool h = h
  run-PoolIsHealthy (call ∷ calls) pool h =
      run-PoolIsHealthy calls (pool_step call pool) (step-PoolIsHealthy call pool h)

  new_pool-PoolIsHealthy :
      (urls : List Text) (options : PoolOptions) (pool : RpcPool A)
      → IsConfigured options
      → new_pool A urls options ≡ ok pool
      → PoolIsHealthy pool
  unfolding new_pool
  new_pool-PoolIsHealthy [] options pool c e = cc
  new_pool-PoolIsHealthy (url ∷ urls) options pool c e =
      made (new_nodes A options (url ∷ urls) 0 []) (new_nodes-Starts options (url ∷ urls) 0 [] c) e
    where
      made :
          (r : Result PoolError (List (RpcNode A) × JsMap Text ℕ))
          → Starts options r
          → (r >>= λ p. ok (record { options = options; nodes = p.0; node_order = p.1 })) ≡ ok pool
          → PoolIsHealthy pool
      made (ok (nodes, order)) h k =
          let same : record { options = options; nodes = nodes; node_order = order } ≡ pool = cc in
          subst PoolIsHealthy same (c, h)
      made (err e) h k = cc

  -- From the constructor on, with a floor below the ceiling and a bonus and a penalty that are not
  -- negative, through any interleaving of attempts and health checks: every score stays between
  -- the two, a streak of failures is counted among all failures, and no node cools down that has
  -- never failed.
  pub pool_run-IsHealthy :
      (urls : List Text) (options : PoolOptions) (pool : RpcPool A) (calls : List PoolCall)
      → IsConfigured options
      → new_pool A urls options ≡ ok pool
      → PoolIsHealthy (pool_run calls pool)
  pool_run-IsHealthy urls options pool calls c e =
      run-PoolIsHealthy calls pool (new_pool-PoolIsHealthy urls options pool c e)
