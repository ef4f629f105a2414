-- ===== src/Infrastructure.antt =====
-- The infrastructure package, apart from persistence: limits and one-time tokens, in memory and in
-- Redis.
pub mod RateLimits
pub mod Tokens
pub mod Redis
