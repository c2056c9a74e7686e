-- ===== src/Exchange.antt =====
-- internal/exchange: what the centralised exchanges' read loops do with the frames they receive.
pub mod Frames
pub mod Reader
mod Tickers
mod Tests
