-- ===== src/Strategies.antt =====
-- trading/strategies: the strategies' common part, their loader and their manager.
mod Data
pub mod Loading
pub mod Combining
pub mod Managing
pub mod Voting
pub mod Counting
pub mod Sending
pub mod Purchases
mod Tests
unfoldable pub use Data.*
