-- ===== src/Tests/Limiter.antt =====
-- A run of the rate limiter: two requests of one key in a window that admits one, and a later one.
use pactum.Prelude.{ℕ, ◌≡◌, List, [], ◌∷◌, Text, codes, arith}
use pactum.Backend.RateLimiter.{RateLimiterOptions, create_rate_limiter}
use pactum.Backend.RateLimiter.Reference.{serve, reference}
use pactum.Backend.RateLimiter.Window.{
  serve-refines, serve-IsSpaced, IsChronological, IsSpaced, admitted,
}

abbrev one_a_second : RateLimiterOptions
one_a_second = record { window_ms = 1000; max_requests = 1 }

abbrev requests : List (ℕ × Text)
requests = (100, codes "ip:a") ∷ (900, codes "ip:a") ∷ (1100, codes "ip:a") ∷ []

requests-IsChronological : IsChronological 0 requests
requests-IsChronological = (omega arith, (omega arith, (omega arith, tt)))

serve-refines_example :
    serve one_a_second requests (create_rate_limiter 0) ≡ reference one_a_second requests []
serve-refines_example = serve-refines one_a_second requests 0 requests-IsChronological

serve-IsSpaced_example :
    IsSpaced one_a_second
      (admitted one_a_second requests (serve one_a_second requests (create_rate_limiter 0)) [])
serve-IsSpaced_example = serve-IsSpaced one_a_second requests 0 requests-IsChronological
