-- ===== src/Tests/Pool.antt =====
-- Runs of the RPC pool, with a whole number for the average: two nodes, of which the first fails.
use pactum.Prelude.{
  ℕ, zero, suc, ◌≡◌, refl, true, false, List, [], ◌∷◌, none, ltb, Text, text_eq, codes, arith,
}
use pactum.Prelude.Js.{get, put, text_key}
use pactum.Prelude.Results.{ok}
use pactum.Rpc.Errors.{primitive}
use pactum.Rpc.Pool.{Average, RpcPool, default_options, new_node, new_nodes, new_pool}
use pactum.Rpc.Pool.Execute.{Attempt, answered, failed, execute, is_retried}
use pactum.Rpc.Pool.Served.{IsServed, execute-IsServed}
use pactum.Rpc.Pool.Health.{
  pool_run-IsHealthy, PoolIsHealthy, PoolCall, attempt_starts, attempt_fails, attempt_succeeds,
  pool_run, IsConfigured,
}

less_one_way : (a b : ℕ) → ltb a b ≡ true → ltb b a ≡ false
less_one_way a b h = ground arith

-- Latencies are whole milliseconds, and none is 0.
abbrev average : Average
average = record {
  Latency = ℕ;
  unset = 0;
  is_unset = λ n. ltb n 1;
  of_ms = λ n. n;
  mix = λ old new. new;
  less = ltb;
  less_one_way = less_one_way;
}

abbrev urls : List Text
urls = codes "a" ∷ codes "b" ∷ []

abbrev pool : RpcPool average
pool = record {
  options = default_options;
  nodes =
      new_node average default_options 0 (codes "a")
      ∷ new_node average default_options 1 (codes "b")
      ∷ [];
  node_order = (codes "a", 0) ∷ (codes "b", 1) ∷ [];
}

abbrev environment : ℕ → Attempt ℕ
environment zero = record { started = 5; ended = 6; outcome = failed (primitive (codes "timeout")) }
environment (suc slot) = record { started = 7; ended = 9; outcome = answered 42 }

execute-IsServed_example :
    IsServed average
      (is_retried (λ t. t) none)
      environment
      pool
      3
      (execute average (is_retried (λ t. t) none) environment pool 3).0
execute-IsServed_example = execute-IsServed average (λ t. t) none environment pool 3

default_options-IsConfigured : IsConfigured default_options
default_options-IsConfigured = record {
  ordered = ground arith;
  bonus_grows = ground arith;
  penalty_falls = ground arith;
}

abbrev calls : List PoolCall
calls =
    attempt_starts 0 5
    ∷ attempt_starts 1 5
    ∷ attempt_fails 0 (primitive (codes "timeout")) 5 8 true
    ∷ attempt_succeeds 1 5 9
    ∷ []

new_pool_ok : new_pool average urls default_options ≡ ok pool
unfolding new_pool new_nodes put get text_eq
new_pool_ok = refl

pool_run-IsHealthy_example : PoolIsHealthy average (pool_run average calls pool)
pool_run-IsHealthy_example =
    pool_run-IsHealthy average urls default_options pool calls default_options-IsConfigured
      new_pool_ok
