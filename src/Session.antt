-- ===== src/Session.antt =====
-- internal/app/session: the sessions of the agents by scope, and the catalog of them by identity.
pub mod Store
pub mod Catalog
mod Tests
