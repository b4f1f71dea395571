-- ===== src/Http.antt =====
-- The in-process building blocks of the API server, apps/api/src/http.
pub mod Lru
pub mod RateLimit
pub mod Breaker
pub mod Limiter
pub mod ClientIp
pub mod ClientRateLimit
