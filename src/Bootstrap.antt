-- ===== src/Bootstrap.antt =====
-- backend/src/queue/inventory-bootstrap.processor.ts and backend/src/queue/inventory-bootstrap.scheduler.ts:
-- the first scan of the products of a Store, page by page, one page in a job.
mod State
mod Processor
mod Scheduler
pub mod Scan
mod Pages
pub mod Units
mod Tests
unfoldable pub use State.*
unfoldable pub use Processor.*
unfoldable pub use Scheduler.*
