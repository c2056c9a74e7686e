-- ===== src/UniswapV4.antt =====
-- internal/dex/Etherium/Uniswap/v4_connector.go: swaps and what they cause.
pub mod Fields
pub mod State
pub mod Swap
pub mod Frames
pub mod Stream
pub mod Pools
pub mod Boot
mod Safe
mod Streams
mod Patience
mod Ending
mod Published
mod Booted
mod Once
mod Tests
