-- ===== src/Exchange/Reader.antt =====
-- The read loop of a connector, as a machine over what it receives. A frame comes with the time
-- and with whether the channel has room; without room the message is dropped.
use screener_cd.Prelude.{ℕ, Bool, true, false, List, [], ◌∷◌, ◌++◌, if◌then◌else◌}
use screener_cd.Prelude.Int.{ℤ}
use screener_cd.Text.{Text}
use screener_cd.Market.{MarketData}
use screener_cd.Worker.Loop.{add64}
use screener_cd.Exchange.Frames.{
  Codec, Outcome, skip, count_30006, count_30001, send, bybit_frame, gate_frame, bitget_frame,
  okx_frame,
}

pub data Exchange : Type 0 where
  bybit : Exchange
  gate : Exchange
  bitget : Exchange
  okx : Exchange

pub data Input : Type 0 where
  frame : Text → ℤ → Bool → Input
  read_error : Input
  tick : Input

-- The channel, and the two counters of Bitget that a tick resets.
pub record Reader : Type 0 where
  pub out : List MarketData
  pub agg_30006 : ℕ
  pub agg_30001 : ℕ
  pub closed : Bool

unfoldable pub new_reader : Reader
new_reader = record { out = []; agg_30006 = 0; agg_30001 = 0; closed = false }

unfoldable pub handle : Codec → Exchange → Text → ℤ → Text → Outcome
handle c bybit name now payload = bybit_frame c name now (c.bybit payload)
handle c gate name now payload = gate_frame c name now (c.gate payload)
handle c bitget name now payload = bitget_frame c name now (c.bitget payload)
handle c okx name now payload = okx_frame c name now (c.okx payload)

unfoldable pub settle : Outcome → Bool → Reader → Reader
settle skip room r = r
settle count_30006 room r = record r { agg_30006 = add64 r.agg_30006 1 }
settle count_30001 room r = record r { agg_30001 = add64 r.agg_30001 1 }
settle (send md) room r = if room then record r { out = r.out ++ md ∷ [] } else r

unfoldable pub receive : Codec → Exchange → Text → Input → Reader → Reader
receive c ex name (frame payload now room) r = settle (handle c ex name now payload) room r
receive c ex name read_error r = record r { closed = true }
receive c ex name tick r = record r { agg_30006 = 0; agg_30001 = 0 }

-- `ReadLoop`: after a read error the channel is closed and the loop returns.
unfoldable pub read_loop : Codec → Exchange → Text → List Input → Reader → Reader
read_loop c ex name [] r = r
read_loop c ex name (i ∷ is) r =
    if r.closed then r else read_loop c ex name is (receive c ex name i r)
