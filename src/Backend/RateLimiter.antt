-- ===== src/Backend/RateLimiter.antt =====
-- backend/src/middleware/rateLimiter.ts: the sliding-window limiter. A response is what the handler
-- sets on it; `next()` is the case `allowed`. The request headers and the key come from Express.
pub mod Store
pub mod Reference
pub mod Window
use pactum.Prelude.{
  ℕ, zero, suc, ◌+◌, ◌-◌, ◌*◌, ◌/◌, ◌≤◌, max, Bool, true, false, not, ◌&&◌, ◌||◌, List, [], ◌∷◌,
  ◌++◌, Option, none, some, if◌then◌else◌, ◌==◌, ltb, leb, length, Text, codes,
}
use pactum.Prelude.Js.{JsMap, get, put, text_key}

-- 1 minute
abbrev pub sweep_interval_ms : ℕ
sweep_interval_ms = 60 * 1000

pub record RateLimiterOptions : Type 0 where
  pub window_ms : ℕ
  pub max_requests : ℕ

pub record RateLimiter : Type 0 where
  pub store : JsMap Text (List ℕ)
  pub last_sweep : ℕ

-- The headers of an answer; a time is in seconds, and `none` where it is NaN.
pub data Response : Type 0 where
  limited : Option ℕ → ℕ → Option ℕ → Response
  allowed : ℕ → ℕ → ℕ → Response

unfoldable pub create_rate_limiter : ℕ → RateLimiter
create_rate_limiter now = record { store = []; last_sweep = now }

-- `Math.ceil(ms / 1000)`
unfoldable pub seconds_up : ℕ → ℕ
seconds_up ms = (ms + 999) / 1000

-- `timestamps[timestamps.length - 1] <= windowStart`; it is false where there is none.
unfoldable pub last_expired : ℕ → ℕ → List ℕ → Bool
last_expired window now [] = false
last_expired window now (t ∷ []) = leb (t + window) now
last_expired window now (t ∷ u ∷ ts) = last_expired window now (u ∷ ts)

unfoldable pub sweep_entries : ℕ → ℕ → JsMap Text (List ℕ) → JsMap Text (List ℕ)
sweep_entries window now [] = []
sweep_entries window now ((key, timestamps) ∷ entries) =
    let rest = sweep_entries window now entries in
    if last_expired window now timestamps then rest else (key, timestamps) ∷ rest

unfoldable pub sweep : RateLimiterOptions → ℕ → RateLimiter → RateLimiter
sweep options now limiter =
    if ltb now (limiter.last_sweep + sweep_interval_ms)
    then limiter
    else record { store = sweep_entries options.window_ms now limiter.store; last_sweep = now }

-- `timestamps.filter((ts) => ts > windowStart)`
unfoldable pub prune : ℕ → ℕ → List ℕ → List ℕ
prune window now [] = []
prune window now (t ∷ ts) =
    let rest = prune window now ts in if ltb now (t + window) then t ∷ rest else rest

-- `store.get(key) || []`
unfoldable pub timestamps_of : JsMap Text (List ℕ) → Text → List ℕ
timestamps_of store key = elim (get store key) [ none ↦ [] | some ts ↦ ts ]

-- `Math.max(1, Math.ceil((resetAt - now) / 1000))`, from the oldest timestamp.
unfoldable pub limited_response : RateLimiterOptions → ℕ → List ℕ → Response
limited_response options now [] = limited none options.max_requests none
limited_response options now (t ∷ ts) =
    let reset_at = t + options.window_ms in
    limited (some (max 1 (seconds_up (reset_at - now)))) options.max_requests
      (some (seconds_up reset_at))

-- The handler after the sweep and the pruning.
unfoldable pub answer :
    RateLimiterOptions → ℕ → Text → List ℕ → RateLimiter → Response × RateLimiter
answer options now key timestamps limiter =
    if leb options.max_requests (length timestamps)
    then (
      limited_response options now timestamps,
      record limiter { store = put limiter.store key timestamps },
    )
    else (
      allowed options.max_requests (options.max_requests - length (timestamps ++ now ∷ []))
          (seconds_up (now + options.window_ms)),
      record limiter { store = put limiter.store key (timestamps ++ now ∷ []) },
    )

unfoldable pub handle_request : RateLimiterOptions → ℕ → Text → RateLimiter → Response × RateLimiter
handle_request options now key limiter =
    let swept = sweep options now limiter in
    answer options now key (prune options.window_ms now (timestamps_of swept.store key)) swept

-- STELLAR_ADDRESS: /^[GC][A-Z2-7]{55}$/
unfoldable pub is_base32 : Text → Bool
is_base32 [] = true
is_base32 (c ∷ cs) = ((leb b'A' c && leb c b'Z') || (leb b'2' c && leb c b'7')) && is_base32 cs

unfoldable pub is_stellar_address : Text → Bool
is_stellar_address [] = false
is_stellar_address (c ∷ cs) = (c == b'G' || c == b'C') && (length cs == 55 && is_base32 cs)

-- `ip:` and `addr:` keys; `party_a` is the field of the body, if it is a string.
unfoldable pub ip_key : Text → Text
ip_key ip = codes "ip:" ++ ip

unfoldable pub commitment_key : Option Text → Text → Text
commitment_key none ip = ip_key ip
commitment_key (some party_a) ip =
    if is_stellar_address party_a then codes "addr:" ++ party_a else ip_key ip

abbrev pub standard_limiter : RateLimiterOptions
standard_limiter = record { window_ms = 60 * 1000; max_requests = 100 }

abbrev pub strict_limiter : RateLimiterOptions
strict_limiter = record { window_ms = 60 * 1000; max_requests = 10 }

abbrev pub create_commitment_limiter : RateLimiterOptions
create_commitment_limiter = record { window_ms = 60 * 60 * 1000; max_requests = 10 }
