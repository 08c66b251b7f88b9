-- ===== src/Platform.antt =====
-- internal/platform of the repository.
pub mod RateLimit
