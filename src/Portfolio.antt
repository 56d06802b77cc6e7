-- ===== src/Portfolio.antt =====
-- trading/portfolio/portfolio_manager.go: the portfolio manager. Its lock is taken for the whole of a
-- method and never twice, and is left out. `pow` and `sqrt` are `math.Pow` and `math.Sqrt`. A method
-- reads the clock once. A map of weights is not changed by the caller that has passed it.
mod Data
pub mod Updating
pub mod Rebalancing
pub mod Reporting
pub mod Flat
pub mod Kept
pub mod Capped
mod Tests
unfoldable pub use Data.*
