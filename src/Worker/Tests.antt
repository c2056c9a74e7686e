-- ===== src/Worker/Tests.antt =====
-- The worker on one message, and the theorems about it at a witness.
use mathlib.Core.List.{flatten}
use screener_cd.Prelude.{◌<◌, ◌≡◌, refl, true, false, List, [], ◌∷◌, ◌++◌, arith, length}
use screener_cd.Prelude.Int.{pos}
use screener_cd.Prelude.Dict.{lookup, insert}
use screener_cd.Text.{Text, codes, to_upper, trim_space, remove_byte, is_space, eqb}
use screener_cd.Market.{MarketData}
use screener_cd.Util.Helpers.{normalize_spot_symbol}
use screener_cd.Redis.Batch.{Value, str, float, int, pipeline}
use screener_cd.Worker.Loop.{
  Event, received, closed, timeout, entries_of, key_raw, key_canon, send, flush, receive, step, run,
  start, add64,
}
use screener_cd.Worker.Conserve.{messages, commands_of, run_conserves}
use screener_cd.Worker.Bounds.{run_bounds, AllShort}

-- A text for each kind of value.
abbrev sample_print : Value → Text
sample_print (str s) = s
sample_print (float x) = codes "1.5"
sample_print (int x) = codes "7"

abbrev tick : MarketData
tick = record { exchange = codes "okx"; symbol = codes "BTC-USDT"; price = 3; timestamp = pos 7 }

abbrev events : List Event
events =
    received tick true ∷ timeout true ∷ received tick false ∷ closed true ∷ received tick true ∷ []

two_pipelines : (run sample_print 3 events (start sample_print 3)).redis_ops ≡ 4
unfolding run step receive flush send start add64 entries_of insert lookup eqb
two_pipelines = refl

keys :
    (key_raw tick ≡ codes "price:okx:BTC-USDT") × (key_canon tick ≡ codes "price_canon:BTCUSDT:okx")
unfolding key_raw key_canon normalize_spot_symbol to_upper remove_byte trim_space is_space
keys = (refl, refl)

run_conserves_example :
    flatten (run sample_print 3 events (start sample_print 3)).sent
      ++ pipeline sample_print (run sample_print 3 events (start sample_print 3)).batch
    ≡ commands_of sample_print (messages events)
run_conserves_example = run_conserves sample_print 3 events

run_bounds_example :
    (length (run sample_print 3 events (start sample_print 3)).batch < 3)
    × AllShort sample_print 3 (run sample_print 3 events (start sample_print 3)).sent
run_bounds_example = run_bounds sample_print 3 events (omega arith)
