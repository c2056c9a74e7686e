-- ===== src/Uniswap/Connector.antt =====
-- internal/dex/Etherium/Uniswap/v2_connector.go: the connector's handling of a message. The
-- pricer is any implementation of `pricing.Pricer`; `now k` is the k-th reading of the clock that
-- a message causes, in nanoseconds; a message that is sent is received, since `out <- md` waits.
use screener_cd.Prelude.{
  ℕ, ◌/◌, Bool, true, false, not, ◌||◌, ◌&&◌, List, [], ◌∷◌, ◌++◌, Option, none, some, ◌==◌ as eq_ℕ,
  if◌then◌else◌,
}
use screener_cd.Prelude.Dict.{nat_eq}
use screener_cd.Prelude.Int.{ℤ, pos}
use screener_cd.Prelude.Result.{Result, ok, err}
use screener_cd.Text.{Text, codes, eqb, equal_fold, to_upper, trim_space, trim_prefix}
use screener_cd.Float.{f_zero, f_lt, is_unusable}
use screener_cd.Eth.{EthCommon}
use screener_cd.Market.{MarketData}
use screener_cd.Pricing.Graph.{TokenInfo}
use screener_cd.Pricing.Resolve as Route
use screener_cd.Uniswap.Meta.{TokenMeta, PoolConfig, base_symbol, quote_symbol}
use screener_cd.Uniswap.Price.{Rat, PoolSnapshot, SnapshotError, invert}
use screener_cd.Uniswap.Amounts.{BigFloat, rat_to_float, reserve_weight}

-- The interface `pricing.Pricer` on a state `P`; the first number of the last two is the clock.
pub record Pricer (P : Type 0) : Type 0 where
  pub register_token : TokenInfo → P → P
  pub register_stable : TokenInfo → P → P
  pub update_pair : ℕ → TokenInfo → TokenInfo → ℕ → ℕ → ℕ → P → P
  pub resolve_usd : ℕ → TokenInfo → P → Route.Result × Bool

pub record PoolState : Type 0 where
  pub meta : PoolConfig
  pub last_price : Option Rat
  pub got_first : Bool

-- The parts of the messages that the code reads.
pub record RpcError : Type 0 where
  pub code : ℤ
  pub message : Text

pub record SubAck : Type 0 where
  pub result : Text
  pub error : Option RpcError

pub record LogEvent : Type 0 where
  pub address : Text
  pub payload : Text
  pub topics : List Text
  pub removed : Bool

pub record SubNote : Type 0 where
  pub method : Text
  pub result : LogEvent

-- json.Unmarshal into a `subAck` and into a `subNote`; `none` is an error.
pub record Json : Type 0 where
  pub ack : Text → Option SubAck
  pub note : Text → Option SubNote

abbrev pub sync_topic : Text
sync_topic = codes "0x1c411e9a96e071241c2f21f7726b17ae89e3cab4c78be50e062b03a9fffbbad1"

abbrev pub has_error : Option RpcError → Bool
has_error none = false
has_error (some x) = true

abbrev pub is_sync : List Text → Bool
is_sync [] = false
is_sync (t ∷ ts) = equal_fold t sync_topic

unfoldable pub try_ack : Option SubAck → Option SubAck
try_ack none = none
try_ack (some ack) = if eqb ack.result [] && not (has_error ack.error) then none else some ack

unfoldable pub try_note : Option SubNote → Option SubNote
try_note none = none
try_note (some note) =
    if not (equal_fold note.method (codes "eth_subscription"))
    then none
    else if not (is_sync note.result.topics)
    then none
    else if note.result.removed
    then none
    else some note

unfoldable pub exchange_name : Text → Text
exchange_name configured = if eqb (trim_space configured) [] then codes "uniswap_v2" else configured

abbrev pub info_of : TokenMeta → TokenInfo
info_of t = record { address = t.address; symbol = t.symbol; decimals = t.decimals }

abbrev pub unix_milli : ℕ → ℤ
unix_milli now = pos (now / 1000000)

-- `emitFloat`: what is sent, if anything.
unfoldable pub emit_float : Text → Text → ℕ → ℕ → Option MarketData
emit_float exchange symbol value now =
    if is_unusable value
    then none
    else some
        (record { exchange = exchange; symbol = symbol; price = value; timestamp = unix_milli now })

abbrev pub emit_value : Text → Text → ℕ → Option ℕ → Option MarketData
emit_value exchange symbol now none = none
emit_value exchange symbol now (some val) = emit_float exchange symbol val now

unfoldable pub emit_price : BigFloat → Text → Text → Rat → ℕ → Option MarketData
emit_price b exchange symbol value now =
    emit_value exchange symbol now (rat_to_float b (some value))

-- The symbol under which a pool is published.
unfoldable pub pool_symbol : PoolConfig → Text
pool_symbol meta =
    let pair = to_upper (trim_space meta.canonical_pair) in
    if eqb pair [] then to_upper (base_symbol meta ++ quote_symbol meta) else pair

-- The symbol of a price in USD.
unfoldable pub usd_symbol : EthCommon → TokenInfo → Text
usd_symbol e info =
    let symbol = to_upper (trim_space info.symbol) in
    let named =
      if eqb symbol [] then to_upper (trim_prefix (e.hex info.address) (codes "0x")) else symbol in
    named ++ codes "USD"

abbrev pub to_list {ℓ} : {A : Type ℓ} → Option A → List A
to_list none = []
to_list (some a) = a ∷ []

abbrev pub is_some {ℓ} : {A : Type ℓ} → Option A → Bool
is_some none = false
is_some (some a) = true

-- The price that goes to the pricer: that of a token, or else that of the other in it; `none`
-- where `updatePricing` returns early.
abbrev pub positive : Option ℕ → Option ℕ
positive none = none
positive (some val) = if f_lt f_zero val then some val else none

abbrev pub choose : Option ℕ → Option ℕ → Option (Bool × ℕ)
choose (some val) other = some (true, val)
choose none (some val) = some (false, val)
choose none none = none

unfoldable pub pair_price : BigFloat → PoolConfig → Rat → Option (Bool × ℕ)
pair_price b meta price =
    let per0 = if meta.base_is_token0 then some price else invert (some price) in
    let per1 = if meta.base_is_token0 then invert (some price) else some price in
    choose (positive (rat_to_float b per0)) (positive (rat_to_float b per1))

module _ {P : Type 0} (pricer : Pricer P) where
  unfoldable pub register_meta : TokenMeta → P → P
  register_meta t g =
      if eq_ℕ t.address 0
      then g
      else if t.is_stable
      then pricer.register_stable (info_of t) (pricer.register_token (info_of t) g)
      else pricer.register_token (info_of t) g

  unfoldable pub register_pool_tokens : PoolConfig → Option P → Option P
  register_pool_tokens pool none = none
  register_pool_tokens pool (some g) =
      some (register_meta pool.token1 (register_meta pool.token0 g))

module _ {P : Type 0} (e : EthCommon) (b : BigFloat) (pricer : Pricer P) (exchange : Text) where
  -- `emitUSD`, whose two readings of the clock are `at` and `sent`.
  unfoldable pub emit_usd : ℕ → ℕ → TokenInfo → P → Option MarketData
  emit_usd at sent info g = resolved (pricer.resolve_usd at info g)
    where
      resolved : Route.Result × Bool → Option MarketData
      resolved (res, found) =
          if not found || is_unusable res.price
          then none
          else emit_float exchange (usd_symbol e info) res.price sent

  -- `updatePricing`: the pricer after it, and what is sent.
  unfoldable pub update_pricing :
      (ℕ → ℕ) → PoolConfig → PoolSnapshot → Rat → P → P × List MarketData
  update_pricing now meta snap price g = with_price (pair_price b meta price)
    where
      info0 : TokenInfo
      info0 = info_of meta.token0

      info1 : TokenInfo
      info1 = info_of meta.token1

      updated : Bool → ℕ → P
      updated forward val =
          let w = reserve_weight b snap meta in
          if forward
          then pricer.update_pair (now 2) info0 info1 val w (now 1) g
          else pricer.update_pair (now 2) info1 info0 val w (now 1) g

      with_price : Option (Bool × ℕ) → P × List MarketData
      with_price none = (g, [])
      with_price (some (forward, val)) =
          let g' = updated forward val in
          (
            g',
            to_list (emit_usd (now 3) (now 4) info0 g')
                ++ to_list (emit_usd (now 5) (now 6) info1 g'),
          )

  abbrev pub update_pricer :
      (ℕ → ℕ) → PoolConfig → PoolSnapshot → Rat → Option P → Option P × List MarketData
  update_pricer now meta snap price none = (none, [])
  update_pricer now meta snap price (some g) =
      let r = update_pricing now meta snap price g in (some r.0, r.1)

  -- `publish`: the state of the pool and the pricer after it, and what is sent.
  unfoldable pub publish :
      (ℕ → ℕ) → PoolState → PoolSnapshot → Rat → Option P → PoolState × Option P × List MarketData
  publish now state snap price pr =
      let first = emit_price b exchange (pool_symbol state.meta) price (now 0) in
      let r = update_pricer now state.meta snap price pr in
      (record state { got_first = state.got_first || is_some first }, r.0, to_list first ++ r.1)

-- What `handleRaw` returns.
pub data HandleError : Type 0 where
  subscribe_error : RpcError → HandleError
  snapshot_error : SnapshotError → HandleError

-- The connector: its pools by address, the pricer, and what it has sent.
pub record Connector (P : Type 0) : Type 0 where
  pub pools : List (ℕ × PoolState)
  pub pricer : Option P
  pub out : List MarketData

abbrev pub ack_result : Option RpcError → Result HandleError (Unit {0})
ack_result none = ok tt
ack_result (some x) = err (subscribe_error x)
