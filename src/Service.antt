-- ===== src/Service.antt =====
-- The services as they run: the use cases of internal/app over the repositories of
-- internal/adapters/postgres, as internal/bootstrap puts them together.
pub mod Auth
pub mod Notes
