-- ===== src/Notifications.antt =====
-- The Telegram notifications of orders and of stock alerts:
-- backend/src/queue/order-notification.processor.ts and
-- backend/src/queue/inventory-notification.processor.ts, whose deliveries have one life,
-- backend/src/telegram/telegram-delivery.client.ts, and the schedulers of both beside them in
-- backend/src/queue.
mod State
mod Client
mod Processor
mod Kinds
mod Recipients
mod OrderScheduler
mod InventoryScheduler
pub mod Sends
pub mod Answers
mod Kept
pub mod Finality
pub mod Outcome
pub mod Captured
pub mod OnePerChat
mod Tests
mod SchedulerTests
unfoldable pub use State.*
unfoldable pub use Client.*
unfoldable pub use Processor.*
unfoldable pub use Kinds.*
unfoldable pub use Recipients.*
unfoldable pub use OrderScheduler.*
unfoldable pub use InventoryScheduler.*
