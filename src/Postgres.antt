-- ===== src/Postgres.antt =====
-- internal/adapters/postgres: the tables, the statements of the repositories, and their errors.
pub mod Connection
pub mod Store
pub mod Fixture
mod Tests
pub mod Keeps
pub mod Rows
pub mod Stays
pub mod Later
pub mod Errors
pub mod Notes
pub mod Users
pub mod Tokens
pub mod Consistent
pub mod Live
