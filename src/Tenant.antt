-- ===== src/Tenant.antt =====
-- backend/src/tenant: what a request may do for a Tenant, by the membership of its user.
mod Guard
pub mod Admission
mod Tests
unfoldable pub use Guard.*
