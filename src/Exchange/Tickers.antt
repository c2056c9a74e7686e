-- ===== src/Exchange/Tickers.antt =====
-- Whatever an exchange sends, only well-formed tickers reach the channel.
use screener_cd.Prelude.{
  ℕ, ◌≡◌, ◌≢◌, refl, Bool, true, false, ◌||◌, List, [], ◌∷◌, Option, none, some, arith, ◌==◌,
  if◌then◌else◌, All, All-append, if_intro,
}
use screener_cd.Prelude.Int.{ℤ, pos, negsuc}
use screener_cd.Text.{Text, eqb, eqb_iff, to_lower}
use screener_cd.Float.{is_zero, f_zero}
use screener_cd.Market.{MarketData}
use screener_cd.Exchange.Frames.{
  Codec, BybitMsg, BybitData, GateMsg, GateResult, BitgetMsg, BitgetArg, BitgetData, OkxMsg, OkxArg,
  OkxData, Outcome, skip, count_30006, count_30001, send, bybit_symbol, bybit_quote, bybit_parsed,
  bybit_data, bybit_frame, gate_result, gate_frame, priced, bitget_error, bitget_data, bitget_arg,
  bitget_frame, okx_data, okx_arg, okx_frame,
}
use screener_cd.Exchange.Reader.{
  Exchange, bybit, gate, bitget, okx, Input, frame, read_error, tick, Reader, new_reader, handle,
  settle, receive, read_loop,
}

-- A message of the connector called `name`: the exchange is its name in lower case, the symbol is
-- there, and the price is one that ParseFloat has read.
pub record IsTicker (c : Codec) (name : Text) (md : MarketData) : Type 0 where
  pub named : md.exchange ≡ to_lower name
  pub traded : md.symbol ≢ []
  pub quoted : (s : Text) × (s ≢ []) × (c.parse_float s ≡ some md.price)

filled : (s : Text) → eqb s [] ≡ false → s ≢ []
filled s h = ground (arith, eqb_iff s [])

-- `a || b` is false.
both : (a b : Bool) → (a || b) ≡ false → (a ≡ false) × (b ≡ false)
both a b h = ground arith

-- A frame leads to nothing, to a count or to a ticker.
data IsFine (c : Codec) (name : Text) : Outcome → Type 0 where
  skipped : IsFine c name skip
  counted_30006 : IsFine c name count_30006
  counted_30001 : IsFine c name count_30001
  sent : {md : MarketData} → IsTicker c name md → IsFine c name (send md)

module _ (c : Codec) (name : Text) (now : ℤ) where
  priced-IsFine :
      (symbol text : Text) (o : Option ℕ)
      → symbol ≢ []
      → text ≢ []
      → c.parse_float text ≡ o
      → IsFine c name (priced c name now symbol o)
  priced-IsFine symbol text none hs ht h = skipped
  priced-IsFine symbol text (some price) hs ht h =
      sent (record { named = refl; traded = hs; quoted = (text, ht, h) })

  -- Bybit's price is read from the text where it is not zero.
  bybit_quote-IsFine :
      (symbol text : Text) (price : ℕ)
      → text ≢ []
      → c.parse_float text ≡ some price
      → IsFine c name (bybit_quote c name now symbol price)
  bybit_quote-IsFine symbol text price ht h =
      if_intro (IsFine c name) _ _ _ (λ _. skipped)
        (λ e.
          sent (record {
            named = refl;
            traded = filled symbol (both _ _ e).1;
            quoted = (text, ht, h);
          }))

  bybit_parsed-IsFine :
      (symbol text : Text) (o : Option ℕ)
      → text ≢ []
      → c.parse_float text ≡ o
      → IsFine c name (bybit_parsed c name now symbol o)
  bybit_parsed-IsFine symbol text none ht h = skipped
  bybit_parsed-IsFine symbol text (some price) ht h = bybit_quote-IsFine symbol text price ht h

  no_price-IsFine : (symbol : Text) → IsFine c name (bybit_quote c name now symbol f_zero)
  unfolding is_zero
  no_price-IsFine symbol = skipped

  bybit_data-IsFine :
      (symbol : Text) (o : Option BybitData) → IsFine c name (bybit_data c name now symbol o)
  bybit_data-IsFine symbol none = no_price-IsFine symbol
  bybit_data-IsFine symbol (some d) =
      if_intro (IsFine c name) _ _ _ (λ _. no_price-IsFine symbol)
        (λ e. bybit_parsed-IsFine symbol d.last_price _ (filled _ e) refl)

  bybit_frame-IsFine : (o : Option BybitMsg) → IsFine c name (bybit_frame c name now o)
  unfolding bybit_frame
  bybit_frame-IsFine none = skipped
  bybit_frame-IsFine (some m) = bybit_data-IsFine (bybit_symbol c name now m.topic) m.data_field

  gate_result-IsFine : (o : Option GateResult) → IsFine c name (gate_result c name now o)
  gate_result-IsFine none = skipped
  gate_result-IsFine (some r) =
      if_intro (IsFine c name) _ _ _ (λ _. skipped)
        (λ e.
          if_intro (IsFine c name) _ _ _ (λ _. skipped)
            (λ e'. priced-IsFine r.currency_pair _ _ (filled _ e) (filled _ e') refl))

  gate_frame-IsFine : (o : Option GateMsg) → IsFine c name (gate_frame c name now o)
  unfolding gate_frame
  gate_frame-IsFine none = skipped
  gate_frame-IsFine (some m) =
      if_intro (IsFine c name) _ _ _ (λ _. gate_result-IsFine m.result) (λ _. skipped)

  bitget_error-IsFine : (n : ℤ) → IsFine c name (bitget_error c name now n)
  bitget_error-IsFine (pos n) =
      if_intro (IsFine c name) (n == 30006) _ (if n == 30001 then count_30001 else skip)
        (λ _. counted_30006)
        (λ _. if_intro (IsFine c name) (n == 30001) _ _ (λ _. counted_30001) (λ _. skipped))
  bitget_error-IsFine (negsuc n) = skipped

  bitget_data-IsFine : (ds : List BitgetData) → IsFine c name (bitget_data c name now ds)
  bitget_data-IsFine [] = skipped
  bitget_data-IsFine (d ∷ ds) =
      if_intro (IsFine c name) _ _ _ (λ _. skipped)
        (λ e.
          priced-IsFine d.inst_id d.last_pr _ (filled _ (both _ _ e).1) (filled _ (both _ _ e).0)
            refl)

  bitget_arg-IsFine :
      (o : Option BitgetArg) (ds : List BitgetData) → IsFine c name (bitget_arg c name now o ds)
  bitget_arg-IsFine none ds = skipped
  bitget_arg-IsFine (some a) ds =
      if_intro (IsFine c name) _ _ _ (λ _. bitget_data-IsFine ds) (λ _. skipped)

  bitget_frame-IsFine : (o : Option BitgetMsg) → IsFine c name (bitget_frame c name now o)
  unfolding bitget_frame
  bitget_frame-IsFine none = skipped
  bitget_frame-IsFine (some m) =
      if_intro (IsFine c name) _ _ _ (λ _. bitget_error-IsFine m.code)
        (λ _. bitget_arg-IsFine m.arg m.data_field)

  okx_data-IsFine : (ds : List OkxData) → IsFine c name (okx_data c name now ds)
  okx_data-IsFine [] = skipped
  okx_data-IsFine (d ∷ ds) =
      if_intro (IsFine c name) _ _ _ (λ _. skipped)
        (λ e.
          priced-IsFine d.inst_id d.last _ (filled _ (both _ _ e).0) (filled _ (both _ _ e).1) refl)

  okx_arg-IsFine : (o : Option OkxArg) (ds : List OkxData) → IsFine c name (okx_arg c name now o ds)
  okx_arg-IsFine none ds = skipped
  okx_arg-IsFine (some a) ds =
      if_intro (IsFine c name) _ _ _ (λ _. okx_data-IsFine ds) (λ _. skipped)

  okx_frame-IsFine : (o : Option OkxMsg) → IsFine c name (okx_frame c name now o)
  unfolding okx_frame
  okx_frame-IsFine none = skipped
  okx_frame-IsFine (some m) =
      if_intro (IsFine c name) _ _ _ (λ _. skipped) (λ _. okx_arg-IsFine m.arg m.data_field)

  handle-IsFine : (ex : Exchange) (payload : Text) → IsFine c name (handle c ex name now payload)
  unfolding handle
  handle-IsFine bybit payload = bybit_frame-IsFine (c.bybit payload)
  handle-IsFine gate payload = gate_frame-IsFine (c.gate payload)
  handle-IsFine bitget payload = bitget_frame-IsFine (c.bitget payload)
  handle-IsFine okx payload = okx_frame-IsFine (c.okx payload)

  settle-out :
      (o : Outcome) (room : Bool) (r : Reader)
      → IsFine c name o
      → All (IsTicker c name) r.out
      → All (IsTicker c name) (settle o room r).out
  unfolding settle
  settle-out skip room r h k = k
  settle-out count_30006 room r h k = k
  settle-out count_30001 room r h k = k
  settle-out (send md) true r (sent h) k = All-append (IsTicker c name) r.out (md ∷ []) k (h, tt)
  settle-out (send md) false r h k = k

module _ (c : Codec) (ex : Exchange) (name : Text) where
  receive-out :
      (i : Input) (r : Reader)
      → All (IsTicker c name) r.out
      → All (IsTicker c name) (receive c ex name i r).out
  unfolding receive
  receive-out (frame payload now room) r k =
      settle-out c name now (handle c ex name now payload) room r
        (handle-IsFine c name now ex payload) k
  receive-out read_error r k = k
  receive-out tick r k = k

  read_from-out :
      (is : List Input) (r : Reader)
      → All (IsTicker c name) r.out
      → All (IsTicker c name) (read_loop c ex name is r).out
  unfolding read_loop
  read_from-out [] r k = k
  read_from-out (i ∷ is) r k =
      if_intro {A = Reader} (λ t. All (IsTicker c name) t.out) r.closed _ _ (λ _. k)
        (λ _. read_from-out is (receive c ex name i r) (receive-out i r k))

-- Whatever frames any of the four exchanges sends, each message that its read loop puts into the
-- channel carries the connector's name in lower case, a symbol, and a price that ParseFloat has
-- read from a text.
pub read_loop-All-IsTicker :
    (c : Codec) (ex : Exchange) (name : Text) (is : List Input)
    → All (IsTicker c name) (read_loop c ex name is new_reader).out
unfolding new_reader
read_loop-All-IsTicker c ex name is = read_from-out c ex name is new_reader tt
