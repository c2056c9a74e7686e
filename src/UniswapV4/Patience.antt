-- ===== src/UniswapV4/Patience.antt =====
-- How often a stream asks again for a subscription that is not accepted.
use mathlib.Core.Path.{subst⁻¹}
use screener_cd.Prelude.{
  ℕ, ◌+◌, ◌-◌, ◌≤◌, ◌≡◌, refl, Bool, true, false, not, ◌||◌, List, [], ◌∷◌, ◌++◌, Option, none,
  some, arith, leb, if◌then◌else◌, if_intro, length, length-append,
}
use screener_cd.Text.{Text}
use screener_cd.Eth.{EthCommon}
use screener_cd.Uniswap.Amounts.{BigFloat}
use screener_cd.Uniswap.Connector.{Pricer, Json}
use screener_cd.UniswapV4.State.{V4Connector}
use screener_cd.UniswapV4.Swap.{Abi, SwapResult, handled, once_complete, abi_failed}
use screener_cd.UniswapV4.Frames.{AckState, ack_none, ack_success, ack_rejected, handle_frame}
use screener_cd.UniswapV4.Stream.{
  StreamEnd, StreamEvent, Stream, ack_backoff, ack_retry_max, retry, receive, framed, step,
  start_stream, ack_timeout, rejected, stop, read_error, read_done, closed, timeout, frame,
}

-- With `n` pauses behind it, a stream that goes on has counted them all.
abbrev IsRow : Option StreamEnd → ℕ → ℕ → Type 0
IsRow none n failures = (n ≤ failures) × (failures ≤ 4)
IsRow (some end) n failures = n ≤ 4

abbrev is_success : AckState → Bool
is_success ack_none = false
is_success ack_success = true
is_success ack_rejected = false

module _ {P : Type 0} where
  -- The pauses since the last accepted subscription, one event later.
  abbrev next_row : ℕ → Bool → Stream P → Stream P → ℕ
  next_row n accepted s t = if accepted then 0 else n + (length t.pauses - length s.pauses)

  abbrev After : ℕ → Bool → Stream P → Stream P → Type 0
  After n accepted s t = IsRow t.ended (next_row n accepted s t) t.ack_failures

  retry-After :
      (stops : Bool) (end : StreamEnd) (slept written : Bool) (n : ℕ) (s : Stream P)
      → s.ended ≡ none
      → IsRow none n s.ack_failures
      → After n false s (retry stops end slept written s)
  unfolding retry
  retry-After stops end slept written n s going (lo, hi) =
      let more = length-append s.pauses (ack_backoff (s.ack_failures + 1) ∷ []) in
      if_intro (After n false s) (stops || leb ack_retry_max (s.ack_failures + 1)) _ _
        (λ last. omega arith)
        (λ again.
          let few : s.ack_failures + 1 ≤ 4 = ground arith in
          if_intro (After n false s) (not slept) _ _ (λ _. omega (arith, more))
            (λ _.
              if_intro (After n false s) (not written) _ _ (λ _. omega (arith, more))
                (λ _.
                  subst⁻¹
                    (λ o.
                      IsRow o
                        (n
                          + (length (s.pauses ++ ack_backoff (s.ack_failures + 1) ∷ [])
                              - length s.pauses))
                        (s.ack_failures + 1))
                    going (omega (arith, more), few))))

module _ {P : Type 0} (e : EthCommon) (b : BigFloat) (json : Json) (pricer : Pricer P)
    (abi : Option Abi) (once : Bool) (name : Text) (stop_on_error : Bool) where
  -- Whether an event tells the connector that its subscription is accepted.
  abbrev accepts : StreamEvent → V4Connector P → Bool
  accepts stop c = false
  accepts read_error c = false
  accepts read_done c = false
  accepts closed c = false
  accepts (timeout slept written) c = false
  accepts (frame now raw slept written) c =
      is_success (handle_frame e b json pricer abi once name now raw c).0

  abbrev stepped : StreamEvent → Stream P → Stream P
  stepped ev s = step e b json pricer abi once name stop_on_error s.ended ev s

  -- How many pauses the stream makes behind the last accepted subscription, after `n` of them.
  unfoldable pub pauses_in_row : ℕ → List StreamEvent → Stream P → ℕ
  pauses_in_row n [] s = n
  pauses_in_row n (ev ∷ evs) s =
      pauses_in_row (next_row n (accepts ev s.connector) s (stepped ev s)) evs (stepped ev s)

  still : (n : ℕ) (s : Stream P) → s.ended ≡ none → IsRow none n s.ack_failures → After n false s s
  still n s going (lo, hi) =
      subst⁻¹ (λ o. IsRow o (n + (length s.pauses - length s.pauses)) s.ack_failures) going
        (omega arith, hi)

  framed-After :
      (a : AckState) (r : SwapResult) (slept written : Bool) (n : ℕ) (s : Stream P)
      → s.ended ≡ none
      → IsRow none n s.ack_failures
      → After n
          (is_success a)
          s
          (framed e b json pricer abi once name stop_on_error a r slept written s)
  framed-After ack_none handled slept written n s going h = still n s going h
  framed-After ack_success handled slept written n s going h =
      subst⁻¹ (λ o. IsRow o 0 0) going (omega arith, omega arith)
  framed-After ack_rejected handled slept written n s going h =
      retry-After stop_on_error rejected slept written n (record s { waiting_ack = false }) going h
  framed-After a once_complete slept written n s going (lo, hi) = ground arith
  framed-After a abi_failed slept written n s going (lo, hi) = ground arith

  receive-After :
      (ev : StreamEvent) (n : ℕ) (s : Stream P)
      → s.ended ≡ none
      → IsRow none n s.ack_failures
      → After n
          (accepts ev s.connector)
          s
          (receive e b json pricer abi once name stop_on_error ev s)
  unfolding receive
  receive-After stop n s going (lo, hi) = omega arith
  receive-After read_error n s going (lo, hi) = omega arith
  receive-After read_done n s going (lo, hi) = omega arith
  receive-After closed n s going (lo, hi) = omega arith
  receive-After (timeout slept written) n s going h =
      if_intro (After n false s) (not s.waiting_ack) _ _ (λ _. still n s going h)
        (λ _. retry-After stop_on_error ack_timeout slept written n s going h)
  receive-After (frame now raw slept written) n s going h =
      let r = handle_frame e b json pricer abi once name now raw s.connector in
      framed-After r.0 r.1 slept written n (record s { connector = r.2 }) going h

  step-After :
      (o : Option StreamEnd) (ev : StreamEvent) (n : ℕ) (s : Stream P)
      → s.ended ≡ o
      → IsRow o n s.ack_failures
      → After n (accepts ev s.connector) s (step e b json pricer abi once name stop_on_error o ev s)
  step-After none ev n s going h = receive-After ev n s going h
  step-After (some end) ev n s ended h =
      subst⁻¹ (λ o. IsRow o (next_row n (accepts ev s.connector) s s) s.ack_failures) ended
        (ground arith)

  pauses_in_row-short :
      (evs : List StreamEvent) (n : ℕ) (s : Stream P)
      → IsRow s.ended n s.ack_failures
      → pauses_in_row n evs s ≤ 4
  unfolding pauses_in_row
  pauses_in_row-short [] n s h = at_most s.ended s.ack_failures h
    where
      at_most : (o : Option StreamEnd) (k : ℕ) → IsRow o n k → n ≤ 4
      at_most none k (lo, hi) = omega arith
      at_most (some end) k few = few
  pauses_in_row-short (ev ∷ evs) n s h =
      pauses_in_row-short evs _ (stepped ev s) (step-After s.ended ev n s refl h)

-- Whatever a stream receives, it pauses to ask again at most four times behind the last event that
-- told it that its subscription is accepted.
pub start_stream-IsPatient :
    {P : Type 0} (e : EthCommon) (b : BigFloat) (json : Json) (pricer : Pricer P) (abi : Option Abi)
    (once : Bool) (name : Text) (stop_on_error : Bool) (c : V4Connector P) (evs : List StreamEvent)
    → pauses_in_row e b json pricer abi once name stop_on_error 0 evs (start_stream c) ≤ 4
unfolding start_stream
start_stream-IsPatient e b json pricer abi once name stop_on_error c evs =
    pauses_in_row-short e b json pricer abi once name stop_on_error evs 0 (start_stream c)
      (omega arith, omega arith)
