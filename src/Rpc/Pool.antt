-- ===== src/Rpc/Pool.antt =====
-- frontend/src/lib/sorobanRpcPool.ts: the pool of RPC nodes. A node is known by its slot, its place
-- in the configuration; an outcome and the times of an attempt are what the environment decides.
pub mod Health
pub mod Ranking
pub mod Execute
pub mod Attempts
pub mod Order
pub mod Served
use pactum.Prelude.{
  ℕ, zero, suc, ◌+◌, ◌-◌, min, max, ◌≡◌, Bool, true, false, not, ◌&&◌, ◌||◌, List, [], ◌∷◌, map,
  Option, none, some, if◌then◌else◌, ◌==◌, ltb, length, Text, codes,
}
use pactum.Prelude.Results.{Result, ok, err, ◌>>=◌}
use pactum.Prelude.Int.{ℤ, pos, ◌+ℤ◌, neg_ℤ, ltb_ℤ, max_ℤ, min_ℤ}
use pactum.Prelude.Js.{JsMap, get, put, text_key}
use pactum.Rpc.Errors.{RpcError, retryable_rpc, primitive, thrown, or_empty, is_retryable_error}

-- The moving average of latencies is a float: how it is kept is a parameter, with its order.
pub record Average : Type 1 where
  pub Latency : Type 0
  pub unset : Latency
  pub is_unset : Latency → Bool
  pub of_ms : ℕ → Latency
  pub mix : Latency → ℕ → Latency
  pub less : Latency → Latency → Bool
  pub less_one_way : (a b : Latency) → less a b ≡ true → less b a ≡ false

pub record PoolOptions : Type 0 where
  pub max_attempts : Option ℕ
  pub cooldown_ms : ℕ
  pub success_bonus : ℤ
  pub failure_penalty : ℤ
  pub max_score : ℤ
  pub min_score : ℤ

-- DEFAULT_OPTIONS
abbrev pub default_options : PoolOptions
default_options = record {
  max_attempts = none;
  cooldown_ms = 30000;
  success_bonus = pos 2;
  failure_penalty = pos 25;
  max_score = pos 100;
  min_score = pos 0;
}

pub data PoolError : Type 0 where
  no_urls empty_url : PoolError

-- `error instanceof Error ? error.message : String(error)`
unfoldable pub error_text : RpcError → Text
error_text (retryable_rpc message) = message
error_text (primitive text) = text
error_text (thrown e) = or_empty e.message

module _ (A : Average) where
  open A use {Latency, unset, is_unset, of_ms, mix, less}

  pub record RpcNode : Type 0 where
    pub slot : ℕ
    pub url : Text
    pub score : ℤ
    pub latency : Latency
    pub total_successes : ℕ
    pub total_failures : ℕ
    pub consecutive_failures : ℕ
    pub last_error : Option Text
    pub last_attempt_at : Option ℕ
    pub cooldown_until : Option ℕ

  pub record RpcPool : Type 0 where
    pub options : PoolOptions
    pub nodes : List RpcNode
    pub node_order : JsMap Text ℕ

  unfoldable pub new_node : PoolOptions → ℕ → Text → RpcNode
  new_node options slot url = record {
    slot = slot;
    url = url;
    score = options.max_score;
    latency = unset;
    total_successes = 0;
    total_failures = 0;
    consecutive_failures = 0;
    last_error = none;
    last_attempt_at = none;
    cooldown_until = none;
  }

  -- The loop of the constructor over the trimmed URLs.
  unfoldable pub new_nodes :
      PoolOptions → List Text → ℕ → JsMap Text ℕ → Result PoolError (List RpcNode × JsMap Text ℕ)
  new_nodes options [] index order = ok ([], order)
  new_nodes options ([] ∷ urls) index order = err empty_url
  new_nodes options ((c ∷ cs) ∷ urls) index order = do
    (nodes, order') ← new_nodes options urls (index + 1) (put order (c ∷ cs) index)
    ok (new_node options index (c ∷ cs) ∷ nodes, order')

  unfoldable pub new_pool : List Text → PoolOptions → Result PoolError RpcPool
  new_pool [] options = err no_urls
  new_pool (url ∷ urls) options = do
    (nodes, order) ← new_nodes options (url ∷ urls) 0 []
    ok (record { options = options; nodes = nodes; node_order = order })

  unfoldable pub is_cooling_down : ℕ → RpcNode → Bool
  is_cooling_down now node = elim node.cooldown_until [ none ↦ false | some until ↦ ltb now until ]

  unfoldable pub order_of : JsMap Text ℕ → RpcNode → ℕ
  order_of order node = elim (get order node.url) [ none ↦ 0 | some index ↦ index ]

  -- The comparison of `rankNodes` is positive: `a` goes behind `b`.
  unfoldable pub ranks_after : JsMap Text ℕ → ℕ → RpcNode → RpcNode → Bool
  ranks_after order now a b =
      if is_cooling_down now a && not (is_cooling_down now b)
      then true
      else if is_cooling_down now b && not (is_cooling_down now a)
      then false
      else if ltb_ℤ a.score b.score
      then true
      else if ltb_ℤ b.score a.score
      then false
      else if less b.latency a.latency
      then true
      else if less a.latency b.latency
      then false
      else ltb (order_of order b) (order_of order a)

  -- `[...this.nodes].sort(…)`, which is stable.
  unfoldable pub insert_ranked : JsMap Text ℕ → ℕ → RpcNode → List RpcNode → List RpcNode
  insert_ranked order now node [] = node ∷ []
  insert_ranked order now node (m ∷ ms) =
      if ranks_after order now node m then m ∷ insert_ranked order now node ms else node ∷ m ∷ ms

  unfoldable pub sort_ranked : JsMap Text ℕ → ℕ → List RpcNode → List RpcNode
  sort_ranked order now [] = []
  sort_ranked order now (node ∷ nodes) = insert_ranked order now node (sort_ranked order now nodes)

  unfoldable pub rank_nodes : RpcPool → ℕ → List RpcNode
  rank_nodes pool now = sort_ranked pool.node_order now pool.nodes

  unfoldable pub average_with : Latency → ℕ → Latency
  average_with latency sample = if is_unset latency then of_ms sample else mix latency sample

  unfoldable pub record_success : PoolOptions → ℕ → ℕ → RpcNode → RpcNode
  record_success options started now node = record node {
    latency = average_with node.latency (now - started);
    total_successes = node.total_successes + 1;
    consecutive_failures = 0;
    cooldown_until = none;
    last_error = none;
    score = min_ℤ options.max_score (node.score +ℤ options.success_bonus);
  }

  unfoldable pub penalise : PoolOptions → ℕ → RpcNode → RpcNode
  penalise options now node = record node {
    consecutive_failures = node.consecutive_failures + 1;
    cooldown_until = some (now + options.cooldown_ms);
    score = max_ℤ options.min_score (node.score +ℤ neg_ℤ options.failure_penalty);
  }

  unfoldable pub record_failure : PoolOptions → RpcError → ℕ → ℕ → Bool → RpcNode → RpcNode
  record_failure options error started now retryable node =
      let failed = record node {
        latency = average_with node.latency (now - started);
        total_failures = node.total_failures + 1;
        last_error = some (error_text error);
      } in
      if retryable then penalise options now failed else record failed { consecutive_failures = 0 }

  -- A node of the pool is changed in place.
  unfoldable pub update_node : ℕ → (RpcNode → RpcNode) → List RpcNode → List RpcNode
  update_node slot f [] = []
  update_node slot f (node ∷ nodes) =
      (if node.slot == slot then f node else node) ∷ update_node slot f nodes

  unfoldable pub start_attempt : ℕ → ℕ → RpcPool → RpcPool
  start_attempt slot now pool = record pool {
    nodes = update_node slot (λ n. record n { last_attempt_at = some now }) pool.nodes;
  }

  unfoldable pub succeed : ℕ → ℕ → ℕ → RpcPool → RpcPool
  succeed slot started now pool = record pool {
    nodes = update_node slot (record_success pool.options started now) pool.nodes;
  }

  unfoldable pub fail_attempt : ℕ → RpcError → ℕ → ℕ → Bool → RpcPool → RpcPool
  fail_attempt slot error started now retryable pool = record pool {
    nodes = update_node slot (record_failure pool.options error started now retryable) pool.nodes;
  }

  -- What `checkHealth` does when a node answers, or fails.
  unfoldable pub check_node : ℕ → Option RpcError → ℕ → ℕ → RpcPool → RpcPool
  check_node slot none started now pool = succeed slot started now pool
  check_node slot (some e) started now pool = fail_attempt slot e started now true pool
