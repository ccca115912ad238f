-- ===== src/Projection.antt =====
-- What the order and the inventory projection have in common: the retried transaction.
pub mod Retry
mod Tests
