-- ===== src/Rpc/Pool/Execute.antt =====
-- frontend/src/lib/sorobanRpcPool.ts, `execute`: a call goes to the ranked nodes, one after the other.
-- What a node answers, and when, is what the environment decides for its slot; no other call of the
-- pool comes between the attempts of one call.
use pactum.Prelude.{
  ℕ, zero, suc, min, max, Bool, true, List, [], ◌∷◌, map, Option, none, some, if◌then◌else◌, ltb,
  length, Text,
}
use pactum.Rpc.Errors.{RpcError, retryable_rpc, is_retryable_error}
use pactum.Rpc.Pool.{Average, RpcNode, RpcPool, rank_nodes, start_attempt, succeed, fail_attempt}

pub data Outcome (T : Type 0) : Type 0 where
  answered : T → Outcome T
  failed : RpcError → Outcome T

pub record Attempt (T : Type 0) : Type 0 where
  pub started : ℕ
  pub ended : ℕ
  pub outcome : Outcome T

-- The value returned, or the error thrown: the application's, or `RpcPoolExhaustedError`.
pub data Execution (T : Type 0) : Type 0 where
  returned : T → Execution T
  rejected : RpcError → Execution T
  exhausted : Option RpcError → ℕ → Execution T

-- `Math.min(Math.max(1, maxAttempts ?? n), n)`
unfoldable pub attempts_allowed : Option ℕ → ℕ → ℕ
attempts_allowed none n = min (max 1 n) n
attempts_allowed (some k) n = min (max 1 k) n

unfoldable pub is_retried : (Text → Text) → Option (RpcError → Bool) → RpcError → Bool
is_retried lower custom (retryable_rpc message) = true
is_retried lower none e = is_retryable_error lower e
is_retried lower (some test) e = test e

module _ (A : Average) {T : Type 0} (retried : RpcError → Bool) (environment : ℕ → Attempt T) where
  -- A failure on `slot`, with `next` the rest of the loop on the pool after it.
  unfoldable pub after_failure :
      RpcError → ℕ → ℕ → (RpcPool A → Execution T × RpcPool A) → RpcPool A → Execution T × RpcPool A
  after_failure e total remaining next pool =
      if retried e
      then if ltb 0 remaining then next pool else (exhausted (some e) total, pool)
      else (rejected e, pool)

  unfoldable pub execute_loop :
      ℕ → ℕ → List ℕ → Option RpcError → RpcPool A → Execution T × RpcPool A
  execute_loop total zero slots last pool = (exhausted last total, pool)
  execute_loop total (suc remaining) [] last pool = (exhausted last total, pool)
  execute_loop total (suc remaining) (slot ∷ slots) last pool =
      let attempt = environment slot in
      let tried = start_attempt A slot attempt.started pool in
      elim attempt.outcome [
        | answered value ↦ (returned value, succeed A slot attempt.started attempt.ended tried)
        | failed e ↦
            after_failure e total remaining (execute_loop total remaining slots (some e))
              (fail_attempt A slot e attempt.started attempt.ended (retried e) tried)
      ]

  unfoldable pub execute : RpcPool A → ℕ → Execution T × RpcPool A
  execute pool now =
      let candidates = map (λ (n : RpcNode A). n.slot) (rank_nodes A pool now) in
      let allowed = attempts_allowed pool.options.max_attempts (length candidates) in
      execute_loop allowed allowed candidates none pool
