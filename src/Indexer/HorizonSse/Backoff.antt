-- ===== src/Indexer/HorizonSse/Backoff.antt =====
-- The delay before a reconnect, and the budget of attempts.
use pactum.Prelude.{ℕ, ◌≤◌, ◌≡◌, some, Option, Text, arith}
use pactum.Prelude.Results.{ok}
use pactum.Indexer.HorizonSse.{new_sse_indexer, SseOptions, SseIndexer}

-- The attempts and the delay of a running timer are within the bounds of the options.
pub record IsBounded (s : SseIndexer) : Type 0 where
  pub budget : (m : ℕ) → s.options.max_reconnect_attempts ≡ some m → s.reconnect_attempts ≤ m
  pub low : (d : ℕ) → s.timer ≡ some d → s.options.initial_reconnect_delay_ms ≤ d
  pub high : (d : ℕ) → s.timer ≡ some d → d ≤ s.options.max_reconnect_delay_ms

pub record IsConfigured (o : SseOptions) : Type 0 where
  pub ordered : o.initial_reconnect_delay_ms ≤ o.max_reconnect_delay_ms

-- An indexer that the constructor accepts has its delays in order and starts within every bound.
pub new_sse_indexer-IsBounded :
    (initial maximum attempts : Option ℕ) (cursor : Option Text) (s : SseIndexer)
    → new_sse_indexer initial maximum attempts cursor ≡ ok s
    → IsConfigured s.options × IsBounded s
unfolding new_sse_indexer
new_sse_indexer-IsBounded initial maximum attempts cursor s h = (
  record { ordered = ground arith },
  record { budget = λ m e. ground arith; low = λ d e. ground arith; high = λ d e. ground arith },
)
