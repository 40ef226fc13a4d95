-- ===== src/Backend/RateLimiter/Window.antt =====
-- The limiter refines the specification, which keeps the number of requests in a window within the
-- maximum.
use pactum.Prelude.{
  ℕ, ◌≤◌, ◌≡◌, refl, ◌∙◌, ap, Bool, true, false, List, [], ◌∷◌, ◌++◌, if◌then◌else◌, Bool-cases,
  inl, inr, ltb, leb, length, Text, arith,
}
use pactum.Prelude.Js.{get, text_key}
use pactum.Backend.RateLimiter.{
  RateLimiterOptions, RateLimiter, create_rate_limiter, sweep, prune, timestamps_of,
  limited_response, answer, handle_request,
}
use pactum.Backend.RateLimiter.Store.{live_count, live_count-prune, prune-IsPast}
use pactum.Backend.RateLimiter.Reference.{
  Log, log_count, is_allowed, serve, admits, reference, Agrees, later-Agrees, sweep-Agrees,
  stored-IsPast, append-IsPast, put-Agrees, pruned_count, log_count-other, log_count-same,
}

-- The clock does not run backwards.
abbrev pub IsChronological : ℕ → List (ℕ × Text) → Type 0
IsChronological now [] = Unit {0}
IsChronological now ((t, key) ∷ requests) = (now ≤ t) × IsChronological t requests

limited-is_allowed :
    (options : RateLimiterOptions) (now : ℕ) (ts : List ℕ)
    → is_allowed (limited_response options now ts) ≡ false
unfolding limited_response is_allowed
limited-is_allowed options now [] = refl
limited-is_allowed options now (t ∷ ts) = refl

module _ (options : RateLimiterOptions) where
  abbrev logged : Bool → Text → ℕ → Log → Log
  logged admitted key now log = if admitted then (key, now) ∷ log else log

  answer-Agrees :
      (now : ℕ) (key : Text) (limiter : RateLimiter) (log : Log)
      → Agrees options now limiter log
      → (is_allowed
            (answer options now key
              (prune options.window_ms now (timestamps_of limiter.store key))
              limiter).0
          ≡ admits options now key log)
        × Agrees options now
            (answer options now key
              (prune options.window_ms now (timestamps_of limiter.store key))
              limiter).1
            (logged (admits options now key log) key now log)
  unfolding answer admits is_allowed
  answer-Agrees now key limiter log a =
      let ts = prune options.window_ms now (timestamps_of limiter.store key) in
      let past =
        prune-IsPast options.window_ms now _ (stored-IsPast options now limiter log key a) in
      elim (Bool-cases (leb options.max_requests (length ts))) [
        | inl full ↦ rw full (
            rw (admits_full (pruned_count options now key limiter log a) full) (
              limited-is_allowed options now ts,
              put-Agrees options now key ts limiter log log a past
                  (λ s h. live_count-prune options.window_ms now s _ h ∙ a.counts key s h)
                  (λ k s e. refl),
            ))
        | inr room ↦ rw room (
            rw (admits_room (pruned_count options now key limiter log a) room) (
              refl,
              put-Agrees options now key (ts ++ now ∷ []) limiter log ((key, now) ∷ log) a
                  (append-IsPast options now ts past)
                  (λ s h.
                    log_count-same options key now s log ts
                      (live_count-prune options.window_ms now s _ h ∙ a.counts key s h))
                  (λ k s e. log_count-other options key k now s log e),
            ))
      ]
    where
      admits_full :
          {n m : ℕ} → n ≡ m → leb options.max_requests n ≡ true → ltb m options.max_requests ≡ false
      admits_full e h = ground arith

      admits_room :
          {n m : ℕ} → n ≡ m → leb options.max_requests n ≡ false → ltb m options.max_requests ≡ true
      admits_room e h = ground arith

  handle-Agrees :
      (last now : ℕ) (key : Text) (limiter : RateLimiter) (log : Log)
      → last ≤ now
      → Agrees options last limiter log
      → (is_allowed (handle_request options now key limiter).0 ≡ admits options now key log)
        × Agrees options now
            (handle_request options now key limiter).1
            (logged (admits options now key log) key now log)
  unfolding handle_request
  handle-Agrees last now key limiter log h a =
      answer-Agrees now key (sweep options now limiter) log
        (sweep-Agrees options now limiter log (later-Agrees options last now limiter log h a))

  serve-reference :
      (requests : List (ℕ × Text)) (last : ℕ) (limiter : RateLimiter) (log : Log)
      → IsChronological last requests
      → Agrees options last limiter log
      → serve options requests limiter ≡ reference options requests log
  unfolding serve reference
  serve-reference [] last limiter log c a = refl
  serve-reference ((now, key) ∷ requests) last limiter log c a =
      let (same, next) = handle-Agrees last now key limiter log c.0 a in
      ap (λ b. b ∷ serve options requests (handle_request options now key limiter).1) same
      ∙ ap (◌∷◌ (admits options now key log)) (serve-reference requests now _ _ c.1 next)

  create-Agrees : (now : ℕ) → Agrees options now (create_rate_limiter now) []
  unfolding create_rate_limiter timestamps_of get live_count log_count
  create-Agrees now = record { distinct = tt; past = tt; counts = λ key s h. refl }

  -- While the clock does not run backwards, the limiter answers every request as the specification
  -- does, which remembers all admitted requests and never sweeps or prunes.
  pub serve-refines :
      (requests : List (ℕ × Text)) (now : ℕ)
      → IsChronological now requests
      → serve options requests (create_rate_limiter now) ≡ reference options requests []
  serve-refines requests now c =
      serve-reference requests now (create_rate_limiter now) [] c (create-Agrees now)

  -- The requests that were admitted, the last one first.
  unfoldable pub admitted : List (ℕ × Text) → List Bool → Log → Log
  admitted [] answers log = log
  admitted (request ∷ requests) [] log = log
  admitted ((now, key) ∷ requests) (true ∷ answers) log =
      admitted requests answers ((key, now) ∷ log)
  admitted ((now, key) ∷ requests) (false ∷ answers) log = admitted requests answers log

  -- The window that ends at an admitted request has seen at most the maximum of its key.
  abbrev pub IsSpaced : Log → Type 0
  IsSpaced [] = Unit {0}
  IsSpaced ((key, t) ∷ log) =
      (log_count options.window_ms key t ((key, t) ∷ log) ≤ options.max_requests) × IsSpaced log

  log_count-admitted :
      (key : Text) (now : ℕ) (log : Log)
      → admits options now key log ≡ true
      → log_count options.window_ms key now ((key, now) ∷ log) ≤ options.max_requests
  unfolding log_count admits
  log_count-admitted key now log h = ground arith

  reference-IsSpaced :
      (requests : List (ℕ × Text)) (log : Log)
      → IsSpaced log
      → IsSpaced (admitted requests (reference options requests log) log)
  unfolding reference admitted
  reference-IsSpaced [] log h = h
  reference-IsSpaced ((now, key) ∷ requests) log h =
      elim (Bool-cases (admits options now key log)) [
        | inl yes_ ↦ rw yes_ (
            reference-IsSpaced requests ((key, now) ∷ log) (log_count-admitted key now log yes_, h))
        | inr no_ ↦ rw no_ (reference-IsSpaced requests log h)
      ]

  -- While the clock does not run backwards, a window that ends at an admitted request has seen at
  -- most the maximum number of admitted requests of its key, that one included.
  pub serve-IsSpaced :
      (requests : List (ℕ × Text)) (now : ℕ)
      → IsChronological now requests
      → IsSpaced (admitted requests (serve options requests (create_rate_limiter now)) [])
  serve-IsSpaced requests now c =
      rw (serve-refines requests now c) (reference-IsSpaced requests [] tt)
