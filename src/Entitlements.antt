-- ===== src/Entitlements.antt =====
-- backend/src/entitlements/entitlement.service.ts: whether a Tenant may use the service at a
-- time, and the operator's changes of it.
mod State
pub mod Laws
mod Tests
unfoldable pub use State.*
