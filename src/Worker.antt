-- ===== src/Worker.antt =====
-- cmd/screener-core/main.go: the workers that write the prices to Redis.
pub mod Loop
pub mod Conserve
pub mod Bounds
pub mod Tests
