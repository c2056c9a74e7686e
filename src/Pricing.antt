-- ===== src/Pricing.antt =====
-- internal/dex/pricing: USD prices by routes through the graph of the pools' prices.
pub mod Graph
pub mod Resolve
pub mod Route
pub mod Ends
pub mod Edges
pub mod Update
mod Tests
pub mod Anchors
mod Stables
mod AnchorTests
