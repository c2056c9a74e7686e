-- ===== src/Uniswap.antt =====
-- internal/dex/Etherium/Uniswap/v2_connector.go: pools, their tokens and their prices.
pub mod Meta
pub mod Registry
mod Exclusive
pub mod Gecko
pub mod Pools
pub mod Price
mod RoundTrip
mod Drop
pub mod Order
pub mod Markets
pub mod Ordered
pub mod Amounts
pub mod Connector
pub mod Handle
pub mod Published
pub mod Wired
mod Synced
pub mod Session
mod Batches
mod Tests
mod FlowTests
pub mod Configs
