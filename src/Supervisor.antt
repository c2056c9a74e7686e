-- ===== src/Supervisor.antt =====
-- cmd/screener-core/main.go: `supervisor`, which restarts a connector with a back-off.
pub mod Loop
mod Delays
mod Tests
