-- ===== src/UniswapV4/Stream.antt =====
-- internal/dex/Etherium/Uniswap/v4_connector.go: `runStream` as a machine over what its select
-- receives. The events that follow the end of the call change nothing. With an event comes
-- whether the pause that it may cause ends before the context does, and whether the request that
-- it may cause can be written.
use screener_cd.Prelude.{
  ℕ, ◌+◌, ◌*◌, Bool, true, false, not, ◌||◌, List, [], ◌∷◌, ◌++◌, Option, none, some, ltb, leb,
  if◌then◌else◌,
}
use screener_cd.Text.{Text}
use screener_cd.Eth.{EthCommon}
use screener_cd.Uniswap.Amounts.{BigFloat}
use screener_cd.Uniswap.Session.{second}
use screener_cd.Uniswap.Connector.{Pricer, Json}
use screener_cd.UniswapV4.State.{V4Connector}
use screener_cd.UniswapV4.Swap.{Abi, SwapResult, handled, once_complete, abi_failed}
use screener_cd.UniswapV4.Frames.{AckState, ack_none, ack_success, ack_rejected, handle_frame}

-- How the call ends.
pub data StreamEnd : Type 0 where
  cancelled : StreamEnd
  read_failed : StreamEnd
  read_ended : StreamEnd
  reader_closed : StreamEnd
  ack_timeout : StreamEnd
  rejected : StreamEnd
  subscribe_failed : StreamEnd
  completed : StreamEnd
  no_abi : StreamEnd

pub data StreamEvent : Type 0 where
  stop : StreamEvent
  read_error : StreamEvent
  read_done : StreamEvent
  closed : StreamEvent
  timeout : Bool → Bool → StreamEvent
  frame : (ℕ → ℕ) → Text → Bool → Bool → StreamEvent

pub record Stream (P : Type 0) : Type 0 where
  pub connector : V4Connector P
  pub waiting_ack : Bool
  pub ack_failures : ℕ
  pub pauses : List ℕ
  pub ended : Option StreamEnd

abbrev pub ack_retry_max : ℕ
ack_retry_max = 5

unfoldable pub ack_backoff : ℕ → ℕ
ack_backoff attempt =
    let n = if ltb attempt 1 then 1 else attempt in
    let delay = n * 2 * second in if ltb (10 * second) delay then 10 * second else delay

module _ {P : Type 0} where
  unfoldable pub start_stream : V4Connector P → Stream P
  start_stream c = record {
    connector = c;
    waiting_ack = true;
    ack_failures = 0;
    pauses = [];
    ended = none;
  }

  abbrev pub finish : StreamEnd → Stream P → Stream P
  finish end s = record s { ended = some end }

  -- A subscription that fails once more, for the reason `end`.
  unfoldable pub retry : Bool → StreamEnd → Bool → Bool → Stream P → Stream P
  retry stop_on_error end slept written s =
      let failures = s.ack_failures + 1 in
      let counted = record s { ack_failures = failures } in
      let paused = record counted { pauses = s.pauses ++ ack_backoff failures ∷ [] } in
      if stop_on_error || leb ack_retry_max failures
      then finish end counted
      else if not slept
      then finish cancelled paused
      else if not written
      then finish subscribe_failed paused
      else record paused { waiting_ack = true }

module _ {P : Type 0} (e : EthCommon) (b : BigFloat) (json : Json) (pricer : Pricer P)
    (abi : Option Abi) (once : Bool) (name : Text) (stop_on_error : Bool) where
  abbrev pub acknowledged : AckState → Bool → Bool → Stream P → Stream P
  acknowledged ack_none slept written s = s
  acknowledged ack_success slept written s = record s { ack_failures = 0; waiting_ack = false }
  acknowledged ack_rejected slept written s =
      retry stop_on_error rejected slept written (record s { waiting_ack = false })

  abbrev pub framed : AckState → SwapResult → Bool → Bool → Stream P → Stream P
  framed state handled slept written s = acknowledged state slept written s
  framed state once_complete slept written s = finish completed s
  framed state abi_failed slept written s = finish no_abi s

  unfoldable pub receive : StreamEvent → Stream P → Stream P
  receive stop s = finish cancelled s
  receive read_error s = finish read_failed s
  receive read_done s = finish read_ended s
  receive closed s = finish reader_closed s
  receive (timeout slept written) s =
      if not s.waiting_ack then s else retry stop_on_error ack_timeout slept written s
  receive (frame now raw slept written) s =
      let r = handle_frame e b json pricer abi once name now raw s.connector in
      framed r.0 r.1 slept written (record s { connector = r.2 })

  abbrev pub step : Option StreamEnd → StreamEvent → Stream P → Stream P
  step none ev s = receive ev s
  step (some end) ev s = s

  unfoldable pub run_stream : List StreamEvent → Stream P → Stream P
  run_stream [] s = s
  run_stream (ev ∷ evs) s = run_stream evs (step s.ended ev s)
