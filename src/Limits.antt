-- ===== src/Limits.antt =====
-- What bounds repeated requests: the fixed windows of backend/src/queue/queue-runtime.service.ts,
-- which the limiters of backend/src/auth and backend/src/store count by, and the updates that
-- telegram-bot/src/update-deduplicator.ts has seen.
mod Window
mod Deduplicator
pub mod Counting
pub mod Repeats
mod Tests
unfoldable pub use Window.*
unfoldable pub use Deduplicator.*
