-- ===== src/Orders.antt =====
-- backend/src/orders: the projection of WooCommerce orders into the orders of a Store.
mod State
mod Service
pub mod Progress
pub mod Reapply
pub mod Evolution
mod Tests
unfoldable pub use State.*
unfoldable pub use Service.*
