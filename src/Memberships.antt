-- ===== src/Memberships.antt =====
-- backend/src/memberships/memberships.service.ts: who may add, promote, demote and remove the
-- members of a Tenant.
mod State
mod Service
pub mod Owners
pub mod Isolation
mod Tests
unfoldable pub use State.*
unfoldable pub use Service.*
