-- ===== src/Backend.antt =====
-- backend/src: the middleware of the HTTP server.
pub mod RateLimiter
