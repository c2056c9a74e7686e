-- ===== src/Exchange/Tests.antt =====
-- The read loops on sample frames, and the theorem about them at a witness.
use screener_cd.Prelude.{◌≡◌, refl, true, false, List, [], ◌∷◌, none, some, All, if◌then◌else◌}
use screener_cd.Prelude.Int.{pos}
use screener_cd.Text.{Text, codes, eqb, to_lower, to_upper}
use screener_cd.Float.{is_zero, f_one}
use screener_cd.Worker.Loop.{add64}
use screener_cd.Market.{MarketData}
use screener_cd.Exchange.Frames.{Codec, bybit_symbol, bybit_frame, bitget_frame, okx_frame}
use screener_cd.Exchange.Reader.{
  Exchange, bybit, bitget, okx, Input, frame, read_error, Reader, new_reader, handle, settle,
  receive, read_loop,
}
use screener_cd.Exchange.Tickers.{IsTicker, read_loop-All-IsTicker}

-- Every payload is the symbol of a ticker at 1.0, or an error of Bitget where it is empty.
abbrev sample_codec : Codec
sample_codec = record {
  parse_float = λ s. if eqb s (codes "1") then some f_one else some 0;
  bybit = λ p.
      some
        (record { topic = p; data_field = some (record { symbol = p; last_price = codes "1" }) });
  gate = λ p. none;
  bitget = λ p. some (record {
    arg = some (record { channel = codes "ticker"; inst_type = codes "spot"; inst_id = p });
    data_field = record { inst_id = p; last_pr = codes "1" } ∷ [];
    code = if eqb p [] then pos 30006 else pos 0;
    event = [];
  });
  okx = λ p. some (record {
    arg = some (record { channel = codes "tickers"; inst_id = p });
    data_field = record { inst_id = p; last = codes "1" } ∷ [];
    event = [];
    code = codes "0";
  });
  raw_string = λ s. some s;
  raw_float = λ s. none;
  format_float = λ x. [];
}

abbrev symbols_of : List MarketData → List Text
symbols_of [] = []
symbols_of (md ∷ mds) = md.symbol ∷ symbols_of mds

abbrev inputs : List Input
inputs =
    frame (codes "tickers.BTCUSDT") (pos 7) true
    ∷ frame [] (pos 8) true
    ∷ frame (codes "tickers.ETHUSDT") (pos 8) false
    ∷ read_error
    ∷ frame (codes "tickers.SOLUSDT") (pos 9) true
    ∷ []

read : Exchange → Reader
unfolding read_loop new_reader receive settle handle bybit_frame bybit_symbol bitget_frame okx_frame
    eqb is_zero to_lower to_upper
read ex = read_loop sample_codec ex (codes "Name") inputs new_reader

outputs :
    (symbols_of (read bybit).out ≡ codes "BTCUSDT" ∷ [])
    × (symbols_of (read okx).out ≡ codes "tickers.BTCUSDT" ∷ [])
    × ((read bitget).agg_30006 ≡ 1)
unfolding read add64
outputs = (refl, refl, refl)

read_loop-All-IsTicker_example :
    All
      (IsTicker sample_codec (codes "Name"))
      (read_loop sample_codec bybit (codes "Name") inputs new_reader).out
read_loop-All-IsTicker_example = read_loop-All-IsTicker sample_codec bybit (codes "Name") inputs
