-- ===== src/Launcher/Cex.antt =====
-- internal/launcher/register_cex.go: what the session of an exchange does, as the list of its
-- actions. Errors of a subscription are ignored or logged, so they change no later action.
use screener_cd.Prelude.{
  ℕ, ◌+◌, ◌-◌, ◌%◌, Bool, not, ◌&&◌, List, [], ◌∷◌, ◌++◌, Option, none, some, ltb, leb, ◌==◌,
  if◌then◌else◌, length,
}
use screener_cd.Prelude.Int.{ℤ, pos, pos_part, nonpos, ◌*ℤ◌}
use screener_cd.Text.{Text, contains_byte, remove_byte, replace_byte, to_upper}
use screener_cd.Market.{MarketData}
use screener_cd.Util.Helpers.{bybit_to_gate_symbol, insert_at}
use screener_cd.Config.Types.{Config}

-- A pause is in milliseconds.
pub data Action : Type 0 where
  subscribe : Text → Action
  subscribe_batch : List Text → Action
  pause : ℤ → Action
  read_loop : Action
  keep_alive : Option ℤ → Action
  forward : Action
  close : Action

-- `if x <= 0 { x = d }` on a size, which is positive then.
abbrev pub size_or : ℕ → ℤ → ℕ
size_or d x = if nonpos x then d else pos_part x

abbrev pub pause_or : ℕ → ℤ → ℤ
pause_or d x = if nonpos x then pos d else x

-- The end of a session; `nap` is the interval that `KeepAlive` is given, if any.
abbrev run_until_closed : Option ℤ → List Action
run_until_closed nap = read_loop ∷ keep_alive nap ∷ forward ∷ close ∷ []

-- The loop over the symbols of Bybit and Gate, from index `i` on.
unfoldable pub subscribe_each : (Text → Text) → ℕ → ℤ → ℕ → ℕ → List Text → List Action
subscribe_each name size rest nap i [] = []
subscribe_each name size rest nap i (s ∷ ss) =
    let later = subscribe_each name size rest nap (i + 1) ss in
    subscribe (name s)
    ∷ pause (pos nap)
    ∷ (if (i + 1) % size == 0 then pause rest ∷ later else later)

-- `push` of Bitget and `flush` of OKX.
abbrev pub push : ℤ → List Text → List Action → List Action
push rest [] later = later
push rest (s ∷ batch) later = subscribe_batch (s ∷ batch) ∷ pause rest ∷ later

-- The loop over the symbols of Bitget and OKX, with the open batch, and the last `push`.
unfoldable pub subscribe_batches : (Text → Text) → ℕ → ℤ → List Text → List Text → List Action
subscribe_batches name size rest batch [] = push rest batch []
subscribe_batches name size rest batch (s ∷ ss) =
    let batch1 = batch ++ name s ∷ [] in
    let full = leb size (length batch1) in
    let later = subscribe_batches name size rest (if full then [] else batch1) ss in
    if full then push rest batch1 later else later

unfoldable pub bitget_inst_id : Text → Text
bitget_inst_id s = to_upper (remove_byte b'_' (remove_byte b'-' s))

unfoldable pub okx_inst_id : Text → Text
okx_inst_id s =
    let id = to_upper (replace_byte b'/' b'-' (replace_byte b'_' b'-' s)) in
    if not (contains_byte b'-' id) && ltb 4 (length id)
    then insert_at (length id - 4) b'-' id
    else id

abbrev bare : Text → Text
bare s = s

unfoldable pub bybit_session : Config → List Text → List Action
bybit_session c symbols =
    subscribe_each bare (size_or 100 c.subscribe_batch_size) c.subscribe_batch_pause_ms 5 0 symbols
    ++ run_until_closed none

unfoldable pub gate_session : Config → List Text → List Action
gate_session c symbols =
    subscribe_each bybit_to_gate_symbol (size_or 100 c.subscribe_batch_size)
      c.subscribe_batch_pause_ms 10 0 symbols
    ++ run_until_closed none

-- Seconds as milliseconds.
abbrev seconds : ℤ → ℤ
seconds n = n *ℤ pos 1000

unfoldable pub bitget_session : Config → List Text → List Action
bitget_session c symbols =
    subscribe_batches bitget_inst_id (size_or 30 c.bitget_subscribe_batch_size)
      (pause_or 700 c.bitget_subscribe_pause_ms) [] symbols
    ++ run_until_closed (some (pause_or 25000 (seconds c.bitget_ping_interval_sec)))

unfoldable pub okx_session : Config → List Text → List Action
okx_session c symbols =
    subscribe_batches okx_inst_id (size_or 100 c.subscribe_batch_size)
      (pause_or 200 c.subscribe_batch_pause_ms) [] symbols
    ++ run_until_closed (some (pause_or 25000 (seconds c.metrics_period_sec)))

-- What a builder hands to the supervisor: nothing for no symbols, and a session that does nothing
-- where `Connect` fails.
unfoldable pub build : (List Text → List Action) → List Text → Option (Bool → List Action)
build session [] = none
build session (s ∷ ss) = some (λ connects. if connects then session (s ∷ ss) else [])

-- What `forward` receives in its `select`.
pub data Signal : Type 0 where
  stop : Signal
  out_closed : Signal
  market : MarketData → Signal

-- The messages that `forward` passes on before it returns.
unfoldable pub forwarded : List Signal → List MarketData
forwarded [] = []
forwarded (stop ∷ rest) = []
forwarded (out_closed ∷ rest) = []
forwarded (market md ∷ rest) = md ∷ forwarded rest
