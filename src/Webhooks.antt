-- ===== src/Webhooks.antt =====
-- The life of a WooCommerce webhook delivery, from the row that the ingestion stores to the outcome
-- that the queue worker records: backend/src/queue/woocommerce-webhook.processor.ts and
-- backend/src/webhooks/woocommerce-webhook-ingestion.service.ts.
mod Events
mod Processor
pub mod Headers
pub mod Ingestion
pub mod Stored
pub mod Deliveries
pub mod Lease
pub mod Lifecycle
pub mod Steps
pub mod Exclusion
pub mod Outcome
pub mod Handling
mod Tests
unfoldable pub use Events.*
unfoldable pub use Processor.*
