-- ===== src/Integrity.antt =====
-- What holds of the tables and of the registry whatever requests come and whatever the workers do: the
-- constraints of db/migrations, which the statements of the code keep, and those of internal/tenant.
pub mod Database
pub mod Routes
pub mod Requests
pub mod Overlaps
pub mod Run
pub mod Ending
