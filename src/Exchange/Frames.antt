-- ===== src/Exchange/Frames.antt =====
-- internal/exchange/{bybit,gateio,bitget,okx}.go: one decoded frame each. The structs hold the
-- fields that the loops read; decoding JSON and strconv.ParseFloat are parameters, and a price is
-- the bits of a float64.
use screener_cd.Prelude.{
  ℕ, not, ◌&&◌, ◌||◌, List, [], ◌∷◌, Option, none, some, ltb, if◌then◌else◌, ◌==◌, length, take,
  drop,
}
use screener_cd.Prelude.Int.{ℤ, pos, negsuc, is_zero_ℤ}
use screener_cd.Text.{Text, codes, eqb, to_lower, to_upper}
use screener_cd.Float.{f_zero, is_zero}
use screener_cd.Market.{MarketData}

pub record BybitData : Type 0 where
  pub symbol : Text
  pub last_price : Text

pub record BybitMsg : Type 0 where
  pub topic : Text
  pub data_field : Option BybitData

-- `last` is the raw JSON value.
pub record GateResult : Type 0 where
  pub currency_pair : Text
  pub last : Text

pub record GateMsg : Type 0 where
  pub channel : Text
  pub event : Text
  pub result : Option GateResult

pub record BitgetArg : Type 0 where
  pub channel : Text
  pub inst_type : Text
  pub inst_id : Text

pub record BitgetData : Type 0 where
  pub inst_id : Text
  pub last_pr : Text

pub record BitgetMsg : Type 0 where
  pub arg : Option BitgetArg
  pub data_field : List BitgetData
  pub code : ℤ
  pub event : Text

pub record OkxArg : Type 0 where
  pub channel : Text
  pub inst_id : Text

pub record OkxData : Type 0 where
  pub inst_id : Text
  pub last : Text

pub record OkxMsg : Type 0 where
  pub arg : Option OkxArg
  pub data_field : List OkxData
  pub event : Text
  pub code : Text

-- What one frame leads to.
pub data Outcome : Type 0 where
  skip : Outcome
  count_30006 : Outcome
  count_30001 : Outcome
  send : MarketData → Outcome

-- The JSON of the four exchanges, and the two readings of Gate's price.
pub record Codec : Type 0 where
  pub parse_float : Text → Option ℕ
  pub bybit : Text → Option BybitMsg
  pub gate : Text → Option GateMsg
  pub bitget : Text → Option BitgetMsg
  pub okx : Text → Option OkxMsg
  pub raw_string : Text → Option Text
  pub raw_float : Text → Option ℕ
  pub format_float : ℕ → Text

module _ (c : Codec) (name : Text) (now : ℤ) where
  abbrev pub quote : Text → ℕ → Outcome
  quote symbol price =
      send (record { exchange = to_lower name; symbol = symbol; price = price; timestamp = now })

  -- The message with a parsed price; a price that does not parse is logged.
  abbrev pub priced : Text → Option ℕ → Outcome
  priced symbol none = skip
  priced symbol (some price) = quote symbol price

  -- `m.Topic[8:]` of a topic that starts with "tickers."
  unfoldable pub bybit_symbol : Text → Text
  bybit_symbol topic =
      if ltb 8 (length topic) && eqb (take 8 topic) (codes "tickers.") then drop 8 topic else []

  abbrev pub bybit_quote : Text → ℕ → Outcome
  bybit_quote symbol price = if is_zero price || eqb symbol [] then skip else quote symbol price

  abbrev pub bybit_parsed : Text → Option ℕ → Outcome
  bybit_parsed symbol none = skip
  bybit_parsed symbol (some price) = bybit_quote symbol price

  abbrev pub bybit_data : Text → Option BybitData → Outcome
  bybit_data symbol none = bybit_quote symbol f_zero
  bybit_data symbol (some d) =
      if eqb d.last_price []
      then bybit_quote symbol f_zero
      else bybit_parsed symbol (c.parse_float d.last_price)

  unfoldable pub bybit_frame : Option BybitMsg → Outcome
  bybit_frame none = skip
  bybit_frame (some m) = bybit_data (bybit_symbol m.topic) m.data_field

  abbrev from_number : Option ℕ → Text
  from_number none = []
  from_number (some x) = c.format_float x

  abbrev from_string : Text → Option Text → Text
  from_string raw (some s) = s
  from_string raw none = from_number (c.raw_float raw)

  -- `lastStr`
  unfoldable pub last_text : Text → Text
  last_text raw = if eqb raw [] then [] else from_string raw (c.raw_string raw)

  abbrev pub gate_result : Option GateResult → Outcome
  gate_result none = skip
  gate_result (some r) =
      if eqb r.currency_pair []
      then skip
      else if eqb (last_text r.last) []
      then skip
      else priced r.currency_pair (c.parse_float (last_text r.last))

  unfoldable pub gate_frame : Option GateMsg → Outcome
  gate_frame none = skip
  gate_frame (some m) = if eqb m.channel (codes "spot.tickers") then gate_result m.result else skip

  abbrev pub bitget_error : ℤ → Outcome
  bitget_error (pos n) =
      if n == 30006 then count_30006 else if n == 30001 then count_30001 else skip
  bitget_error (negsuc n) = skip

  abbrev pub bitget_data : List BitgetData → Outcome
  bitget_data [] = skip
  bitget_data (d ∷ ds) =
      if eqb d.last_pr [] || eqb d.inst_id []
      then skip
      else priced d.inst_id (c.parse_float d.last_pr)

  abbrev pub bitget_arg : Option BitgetArg → List BitgetData → Outcome
  bitget_arg none ds = skip
  bitget_arg (some a) ds =
      if eqb a.channel (codes "ticker") && eqb (to_upper a.inst_type) (codes "SPOT")
      then bitget_data ds
      else skip

  unfoldable pub bitget_frame : Option BitgetMsg → Outcome
  bitget_frame none = skip
  bitget_frame (some m) =
      if not (is_zero_ℤ m.code) || eqb m.event (codes "error")
      then bitget_error m.code
      else bitget_arg m.arg m.data_field

  abbrev pub okx_data : List OkxData → Outcome
  okx_data [] = skip
  okx_data (d ∷ ds) =
      if eqb d.inst_id [] || eqb d.last [] then skip else priced d.inst_id (c.parse_float d.last)

  abbrev pub okx_arg : Option OkxArg → List OkxData → Outcome
  okx_arg none ds = skip
  okx_arg (some a) ds = if eqb a.channel (codes "tickers") then okx_data ds else skip

  unfoldable pub okx_frame : Option OkxMsg → Outcome
  okx_frame none = skip
  okx_frame (some m) =
      if eqb m.event (codes "error") || (not (eqb m.code []) && not (eqb m.code (codes "0")))
      then skip
      else okx_arg m.arg m.data_field
