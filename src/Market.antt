-- ===== src/Market.antt =====
-- pkg/protobuf/arbitrage.pb.go: a price as the connectors send it; `price` is a float64.
use screener_cd.Prelude.{ℕ}
use screener_cd.Prelude.Int.{ℤ}
use screener_cd.Text.{Text}

pub record MarketData : Type 0 where
  pub exchange : Text
  pub symbol : Text
  pub price : ℕ
  pub timestamp : ℤ
