-- ===== src/Util.antt =====
-- internal/util: names of exchanges, trading symbols and the lists of base symbols.
pub mod Helpers
mod Gate
pub mod Canonical
pub mod Symbols
pub mod Watchlist
pub mod Tests
