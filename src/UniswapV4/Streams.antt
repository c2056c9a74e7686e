-- ===== src/UniswapV4/Streams.antt =====
-- A stream as a whole: what it sends, what it leaves in the pricer, and how long it pauses.
use screener_cd.Prelude.{
  ℕ, ◌+◌, ◌*◌, ◌≤◌, inl, inr, Bool, true, false, not, ◌||◌, List, [], ◌∷◌, Option, none, some,
  arith, leb, if◌then◌else◌, Bool-cases, Option-cases, All, All-append, if_intro,
}
use screener_cd.Text.{Text, codes, eqb}
use screener_cd.Eth.{EthCommon}
use screener_cd.Uniswap.Amounts.{BigFloat}
use screener_cd.Uniswap.Connector.{Pricer, LogEvent, Json, try_ack}
use screener_cd.Uniswap.Session.{second}
use screener_cd.Uniswap.Published.{KeptBy}
use screener_cd.UniswapV4.State.{V4Connector}
use screener_cd.UniswapV4.Swap.{
  Abi, SwapResult, handled, once_complete, abi_failed, exchange_name_v4,
}
use screener_cd.UniswapV4.Safe.{IsQuoting, handle_swap_event-IsQuoting}
use screener_cd.UniswapV4.Frames.{
  AckState, ack_none, ack_success, ack_rejected, with_topics, with_abi, handle_log, handle_frame,
  parse_note,
}
use screener_cd.UniswapV4.Stream.{
  StreamEnd, StreamEvent, Stream, ack_backoff, ack_retry_max, retry, receive, acknowledged, framed,
  step, run_stream, finish, cancelled, read_failed, read_ended, reader_closed, ack_timeout,
  rejected, completed, no_abi, stop, read_error, read_done, closed, timeout, frame,
}

abbrev pub IsPause : ℕ → Type 0
IsPause d = (2 * second ≤ d) × (d ≤ 10 * second)

module _ {P : Type 0} (e : EthCommon) (b : BigFloat) (json : Json) (pricer : Pricer P)
    (abi : Option Abi) (once : Bool) (name : Text) (I : P → Type 0) (kept : KeptBy P pricer I) where
  abbrev pub Good : V4Connector P → Type 0
  Good = IsQuoting e b json pricer (exchange_name_v4 name) I kept

  with_topics-Good :
      (a : Abi) (now : ℕ → ℕ) (ev : LogEvent) (topics : List Text) (c : V4Connector P)
      → Good c
      → Good (with_topics e b json pricer abi once name a now ev topics c).1
  with_topics-Good a now ev [] c h = h
  with_topics-Good a now ev (sig ∷ rest) c h = elim (Option-cases (a.event_of (a.hash sig))) [
    | inl unknown ↦ rw unknown h
    | inr (event, known) ↦ elim (Bool-cases (eqb event (codes "Swap"))) [
      | inl swap ↦
          rw (known, swap)
            (handle_swap_event-IsQuoting e b json pricer (exchange_name_v4 name) I kept a once now
              ev ev.topics c h)
      | inr other ↦ rw (known, other) h
    ]
  ]

  pick-Good :
      (test : Bool) (x y : SwapResult × V4Connector P)
      → Good x.1
      → Good y.1
      → Good (if test then x else y).1
  pick-Good true x y hx hy = hx
  pick-Good false x y hx hy = hy

  with_abi-Good :
      (o : Option Abi) (now : ℕ → ℕ) (ev : LogEvent) (c : V4Connector P)
      → Good c
      → Good (with_abi e b json pricer abi once name o now ev c).1
  with_abi-Good none now ev c h = h
  with_abi-Good (some a) now ev c h = with_topics-Good a now ev ev.topics c h

  handle_log-Good :
      (now : ℕ → ℕ) (ev : LogEvent) (c : V4Connector P)
      → Good c
      → Good (handle_log e b json pricer abi once name now ev c).1
  unfolding handle_log
  handle_log-Good now ev c h = pick-Good ev.removed _ _ h (with_abi-Good abi now ev c h)

  handle_frame-Good :
      (now : ℕ → ℕ) (raw : Text) (c : V4Connector P)
      → Good c
      → Good (handle_frame e b json pricer abi once name now raw c).2
  unfolding handle_frame
  handle_frame-Good now raw c h = elim (Option-cases (try_ack (json.ack raw))) [
    | inr (ack, found) ↦ rw found h
    | inl no_ack ↦ elim (Option-cases (parse_note (json.note raw))) [
      | inl no_note ↦ rw (no_ack, no_note) h
      | inr (note, found) ↦ rw (no_ack, found) (handle_log-Good now note.result c h)
    ]
  ]

  module _ (stop_on_error : Bool) where
    pub record IsStreaming (s : Stream P) : Type 0 where
      pub good : Good s.connector
      pub slept : All IsPause s.pauses

    ack_backoff-IsPause : (n : ℕ) → IsPause (ack_backoff n)
    unfolding ack_backoff
    ack_backoff-IsPause n = ground arith

    retry-IsStreaming :
        (end : StreamEnd) (slept written : Bool) (s : Stream P)
        → Good s.connector
        → All IsPause s.pauses
        → IsStreaming (retry stop_on_error end slept written s)
    unfolding retry
    retry-IsStreaming end slept written s good paused =
        let longer =
          All-append IsPause s.pauses (ack_backoff (s.ack_failures + 1) ∷ []) paused
            (ack_backoff-IsPause (s.ack_failures + 1), tt) in
        if_intro IsStreaming (stop_on_error || leb ack_retry_max (s.ack_failures + 1)) _ _
          (λ last. record { good = good; slept = paused })
          (λ again.
            if_intro IsStreaming (not slept) _ _ (λ _. record { good = good; slept = longer })
              (λ _.
                if_intro IsStreaming (not written) _ _ (λ _. record { good = good; slept = longer })
                  (λ _. record { good = good; slept = longer })))

    finish-IsStreaming :
        (end : StreamEnd) (s : Stream P) → IsStreaming s → IsStreaming (finish end s)
    finish-IsStreaming end s h = record { good = h.good; slept = h.slept }

    acknowledged-IsStreaming :
        (a : AckState) (slept written : Bool) (s : Stream P)
        → IsStreaming s
        → IsStreaming (acknowledged e b json pricer abi once name stop_on_error a slept written s)
    acknowledged-IsStreaming ack_none slept written s h = h
    acknowledged-IsStreaming ack_success slept written s h = record {
      good = h.good;
      slept = h.slept;
    }
    acknowledged-IsStreaming ack_rejected slept written s h =
        retry-IsStreaming rejected slept written _ h.good h.slept

    framed-IsStreaming :
        (a : AckState) (r : SwapResult) (slept written : Bool) (s : Stream P)
        → IsStreaming s
        → IsStreaming (framed e b json pricer abi once name stop_on_error a r slept written s)
    framed-IsStreaming a handled slept written s h = acknowledged-IsStreaming a slept written s h
    framed-IsStreaming a once_complete slept written s h = finish-IsStreaming completed s h
    framed-IsStreaming a abi_failed slept written s h = finish-IsStreaming no_abi s h

    receive-IsStreaming :
        (ev : StreamEvent) (s : Stream P)
        → IsStreaming s
        → IsStreaming (receive e b json pricer abi once name stop_on_error ev s)
    unfolding receive
    receive-IsStreaming stop s h = finish-IsStreaming cancelled s h
    receive-IsStreaming read_error s h = finish-IsStreaming read_failed s h
    receive-IsStreaming read_done s h = finish-IsStreaming read_ended s h
    receive-IsStreaming closed s h = finish-IsStreaming reader_closed s h
    receive-IsStreaming (timeout slept written) s h =
        if_intro IsStreaming (not s.waiting_ack) _ _ (λ _. h)
          (λ _. retry-IsStreaming ack_timeout slept written s h.good h.slept)
    receive-IsStreaming (frame now raw slept written) s h =
        let r = handle_frame e b json pricer abi once name now raw s.connector in
        framed-IsStreaming r.0 r.1 slept written (record s { connector = r.2 })
          (record { good = handle_frame-Good now raw s.connector h.good; slept = h.slept })

    step-IsStreaming :
        (o : Option StreamEnd) (ev : StreamEvent) (s : Stream P)
        → IsStreaming s
        → IsStreaming (step e b json pricer abi once name stop_on_error o ev s)
    step-IsStreaming none ev s h = receive-IsStreaming ev s h
    step-IsStreaming (some end) ev s h = h

    -- Of a stream that starts with a pricer of which `I` holds and with nothing sent.
    pub run_stream-IsStreaming :
        (evs : List StreamEvent) (s : Stream P)
        → IsStreaming s
        → IsStreaming (run_stream e b json pricer abi once name stop_on_error evs s)
    unfolding run_stream
    run_stream-IsStreaming [] s h = h
    run_stream-IsStreaming (ev ∷ evs) s h =
        run_stream-IsStreaming evs _ (step-IsStreaming s.ended ev s h)
