-- ===== src/Launcher.antt =====
-- internal/launcher: the registry of connectors and the sessions of the centralised exchanges.
pub mod Registry
pub mod Cex
pub mod Batches
pub mod Symbols
pub mod Wanted
pub mod Dex
pub mod Built
mod DexTests
mod Tests
