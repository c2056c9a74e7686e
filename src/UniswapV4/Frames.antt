-- ===== src/UniswapV4/Frames.antt =====
-- internal/dex/Etherium/Uniswap/v4_connector.go: a new connector, its logs and its frames.
use screener_cd.Prelude.{
  ℕ, Bool, not, ◌||◌, List, [], ◌∷◌, Option, none, some, ◌==◌ as eq_ℕ, if◌then◌else◌,
}
use screener_cd.Prelude.Int.{pos, nonpos, ◌*ℤ◌}
use screener_cd.Prelude.Result.{Result, ok, err}
use screener_cd.Text.{Text, codes, eqb, equal_fold, to_lower, trim_space}
use screener_cd.Eth.{EthCommon}
use screener_cd.Uniswap.Amounts.{BigFloat}
use screener_cd.Uniswap.Configs.{V4Config}
use screener_cd.Uniswap.Session.{second}
use screener_cd.Uniswap.Connector.{Pricer, SubAck, SubNote, LogEvent, Json, try_ack, has_error}
use screener_cd.Launcher.Dex.{positive_or}
use screener_cd.UniswapV4.State.{V4Connector}
use screener_cd.UniswapV4.Swap.{
  Abi, SwapResult, handled, abi_failed, exchange_name_v4, handle_swap_event,
}

pub data NewError : Type 0 where
  pricer_required : NewError
  urls_required : NewError
  manager_required : NewError

-- The configuration with the defaults of `NewV4Connector`.
unfoldable pub normalized : V4Config → V4Config
normalized cfg = record cfg {
  exchange = exchange_name_v4 cfg.exchange;
  network = to_lower (trim_space cfg.network);
  subscribe_batch = positive_or 150 cfg.subscribe_batch;
  ping_interval = if nonpos cfg.ping_interval then pos 25 *ℤ pos second else cfg.ping_interval;
  max_meta_workers = positive_or 4 cfg.max_meta_workers;
}

module _ {P : Type 0} where
  abbrev pub with_pricer : Option P → V4Config → Result NewError (V4Config × V4Connector P)
  with_pricer none cfg = err pricer_required
  with_pricer (some g) cfg =
      if eqb cfg.ws_url [] || eqb cfg.http_url []
      then err urls_required
      else if eq_ℕ cfg.pool_manager 0
      then err manager_required
      else ok (
        cfg,
        record {
          pools = [];
          registered = [];
          success_updates = 0;
          conversion_errors = 0;
          unknown_pool_events = 0;
          pricer = g;
          out = [];
        },
      )

  unfoldable pub new_v4_connector : V4Config → Option P → Result NewError (V4Config × V4Connector P)
  new_v4_connector cfg pr = with_pricer pr (normalized cfg)

-- What `handleFrame` tells of an acknowledgement.
pub data AckState : Type 0 where
  ack_none : AckState
  ack_success : AckState
  ack_rejected : AckState

unfoldable pub parse_note : Option SubNote → Option SubNote
parse_note none = none
parse_note (some note) =
    if not (equal_fold note.method (codes "eth_subscription")) then none else some note

-- `abi` is `none` where `ensureABI` fails; `once` and `name` are settings of the connector.
module _ {P : Type 0} (e : EthCommon) (b : BigFloat) (json : Json) (pricer : Pricer P)
    (abi : Option Abi) (once : Bool) (name : Text) where
  abbrev pub exchange : Text
  exchange = exchange_name_v4 name

  abbrev pub with_event :
      Abi → (ℕ → ℕ) → LogEvent → Option Text → V4Connector P → SwapResult × V4Connector P
  with_event a now ev none c = (handled, c)
  with_event a now ev (some event) c =
      if eqb event (codes "Swap")
      then handle_swap_event e b pricer exchange a once now ev ev.topics c
      else (handled, c)

  abbrev pub with_topics :
      Abi → (ℕ → ℕ) → LogEvent → List Text → V4Connector P → SwapResult × V4Connector P
  with_topics a now ev [] c = (handled, c)
  with_topics a now ev (sig ∷ rest) c = with_event a now ev (a.event_of (a.hash sig)) c

  abbrev pub with_abi : Option Abi → (ℕ → ℕ) → LogEvent → V4Connector P → SwapResult × V4Connector P
  with_abi none now ev c = (abi_failed, c)
  with_abi (some a) now ev c = with_topics a now ev ev.topics c

  unfoldable pub handle_log : (ℕ → ℕ) → LogEvent → V4Connector P → SwapResult × V4Connector P
  handle_log now ev c = if ev.removed then (handled, c) else with_abi abi now ev c

  abbrev pub with_note :
      (ℕ → ℕ) → Option SubNote → V4Connector P → AckState × SwapResult × V4Connector P
  with_note now none c = (ack_none, handled, c)
  with_note now (some note) c = let r = handle_log now note.result c in (ack_none, r.0, r.1)

  abbrev pub with_ack :
      (ℕ → ℕ) → Text → Option SubAck → V4Connector P → AckState × SwapResult × V4Connector P
  with_ack now raw (some ack) c =
      (if has_error ack.error then ack_rejected else ack_success, handled, c)
  with_ack now raw none c = with_note now (parse_note (json.note raw)) c

  unfoldable pub handle_frame :
      (ℕ → ℕ) → Text → V4Connector P → AckState × SwapResult × V4Connector P
  handle_frame now raw c = with_ack now raw (try_ack (json.ack raw)) c
