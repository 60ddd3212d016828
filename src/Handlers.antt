-- ===== src/Handlers.antt =====
-- internal/handler: the handlers of tenants, messages and users, over the services.
pub mod Tenants
pub mod Messages
pub mod Accounts
pub mod Limits
pub mod Roundtrip
pub mod Cursor
