-- ===== src/Linking.antt =====
-- backend/src/telegram/telegram-linking.service.ts: a Telegram account is linked to a user by a token
-- that the user was issued, and unlinked.
mod State
mod Context
mod Redemption
mod Unlinking
pub mod Tokens
pub mod Once
pub mod Issued
pub mod Accounts
mod Tests
unfoldable pub use State.*
unfoldable pub use Context.*
unfoldable pub use Redemption.*
unfoldable pub use Unlinking.*
