-- ===== src/Worker/Loop.antt =====
-- The loop of one worker, as a machine over what its `select` receives. An event says with it
-- whether a pipeline that the round sends succeeds. The counters are int64 by their bits.
use screener_cd.Prelude.{
  ℕ, ◌+◌, ◌%◌, ◌^◌, Bool, true, false, List, [], ◌∷◌, ◌++◌, Option, none, some, leb, if◌then◌else◌,
  length,
}
use screener_cd.Prelude.Dict.{lookup, insert}
use screener_cd.Text.{Text, codes, text_eq}
use screener_cd.Market.{MarketData}
use screener_cd.Util.Helpers.{normalize_spot_symbol}
use screener_cd.Redis.Batch.{Value, str, float, int, Entry, Command, pipeline}

pub data Event : Type 0 where
  received : MarketData → Bool → Event
  closed : Bool → Event
  timeout : Bool → Event

pub record Worker : Type 0 where
  pub batch : List Entry
  pub sent : List (List Command)
  pub processed : ℕ
  pub redis_ops : ℕ
  pub redis_errors : ℕ
  pub per_exchange : List (Text × ℕ)
  pub stopped : Bool

-- atomic.AddInt64
unfoldable pub add64 : ℕ → ℕ → ℕ
add64 a b = (a + b) % 2 ^ 64

abbrev pub colon : Text
colon = codes ":"

unfoldable pub key_raw : MarketData → Text
key_raw md = codes "price:" ++ (md.exchange ++ (colon ++ md.symbol))

unfoldable pub key_canon : MarketData → Text
key_canon md =
    codes "price_canon:" ++ (normalize_spot_symbol md.exchange md.symbol ++ (colon ++ md.exchange))

unfoldable pub entry_for : Text → MarketData → Entry
entry_for key md =
    str key
    ∷ str (codes "price")
    ∷ float md.price
    ∷ str (codes "timestamp")
    ∷ int md.timestamp
    ∷ str (codes "exchange")
    ∷ str md.exchange
    ∷ str (codes "symbol")
    ∷ str md.symbol
    ∷ []

unfoldable pub entries_of : MarketData → List Entry
entries_of md = entry_for (key_raw md) md ∷ entry_for (key_canon md) md ∷ []

abbrev count_or_zero : Option ℕ → ℕ
count_or_zero none = 0
count_or_zero (some n) = n

module _ (sprint : Value → Text) (pipeline_size : ℕ) where
  -- `flush`, with the outcome of `HSetBatch`.
  unfoldable pub send : Bool → Worker → Worker
  send succeeds w =
      let sent = w.sent ++ pipeline sprint w.batch ∷ [] in
      if succeeds
      then record w { batch = []; sent = sent; redis_ops = add64 w.redis_ops (length w.batch) }
      else record w { batch = []; sent = sent; redis_errors = add64 w.redis_errors 1 }

  unfoldable pub flush : Bool → Worker → Worker
  flush succeeds w = elim w.batch [ [] ↦ w | _ ∷ _ ↦ send succeeds w ]

  unfoldable pub receive : MarketData → Worker → Worker
  receive md w = record w {
    batch = w.batch ++ entries_of md;
    processed = add64 w.processed 1;
    per_exchange =
        insert md.exchange (add64 (count_or_zero (lookup md.exchange w.per_exchange)) 1)
          w.per_exchange;
  }

  unfoldable pub step : Event → Worker → Worker
  step (received md succeeds) w =
      let w1 = receive md w in if leb pipeline_size (length w1.batch) then flush succeeds w1 else w1
  step (closed succeeds) w = let w1 = flush succeeds w in record w1 { stopped = true }
  step (timeout succeeds) w = flush succeeds w

  -- A worker that has returned receives nothing more.
  unfoldable pub run : List Event → Worker → Worker
  run [] w = w
  run (e ∷ es) w = if w.stopped then w else run es (step e w)

  unfoldable pub start : Worker
  start = record {
    batch = [];
    sent = [];
    processed = 0;
    redis_ops = 0;
    redis_errors = 0;
    per_exchange = [];
    stopped = false;
  }
