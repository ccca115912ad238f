-- ===== src/Inventory.antt =====
-- backend/src/inventory: the projection of WooCommerce products into the items of a Store, with the
-- stock alerts that a change raises.
mod State
mod Incident
mod Apply
mod Service
pub mod Signals
pub mod Alerts
pub mod Advance
pub mod Freshness
pub mod Replay
pub mod Redelivery
pub mod Evolution
pub mod Webhook
pub mod Deletion
mod Tests
mod ServiceTests
unfoldable pub use State.*
unfoldable pub use Incident.*
unfoldable pub use Apply.*
unfoldable pub use Service.*
