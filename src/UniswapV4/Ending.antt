-- ===== src/UniswapV4/Ending.antt =====
-- A stream whose subscription is never acknowledged comes to an end.
use mathlib.Core.Path.{subst⁻¹}
use screener_cd.Prelude.{
  ℕ, ◌+◌, ◌≤◌, ◌≡◌, refl, Bool, true, not, ◌||◌, List, [], ◌∷◌, Option, none, some, arith, leb,
  if_intro, length, ◌⊎◌, inl, inr,
}
use screener_cd.Text.{Text}
use screener_cd.Eth.{EthCommon}
use screener_cd.Uniswap.Amounts.{BigFloat}
use screener_cd.Uniswap.Connector.{Pricer, Json}
use screener_cd.UniswapV4.State.{V4Connector}
use screener_cd.UniswapV4.Swap.{Abi}
use screener_cd.UniswapV4.Stream.{
  StreamEnd, StreamEvent, Stream, ack_retry_max, retry, receive, step, run_stream, start_stream,
  cancelled, ack_timeout, subscribe_failed, timeout,
}

-- With each timeout comes whether its pause runs to its end and whether its request can be written.
abbrev pub timeouts : List (Bool × Bool) → List StreamEvent
timeouts [] = []
timeouts ((slept, written) ∷ ts) = timeout slept written ∷ timeouts ts

-- A stream that has ended.
abbrev pub HasEnded : {P : Type 0} → Stream P → Type 0
HasEnded s = (end : StreamEnd) × (s.ended ≡ some end)

module _ {P : Type 0} where
  -- A stream that still waits for an answer, after `k` failures.
  abbrev IsWaiting : ℕ → Stream P → Type 0
  IsWaiting k s = (s.ended ≡ none) × (s.waiting_ack ≡ true) × (s.ack_failures ≡ k) × (k ≤ 4)

  retry-cases :
      (stops : Bool) (end : StreamEnd) (slept written : Bool) (k : ℕ) (s : Stream P)
      → IsWaiting k s
      → HasEnded (retry stops end slept written s)
        ⊎ IsWaiting (k + 1) (retry stops end slept written s)
  unfolding retry
  retry-cases stops end slept written k s (going, waits, failures, few) =
      let IsEither : Stream P → Type 0 = λ t. HasEnded t ⊎ IsWaiting (k + 1) t in
      if_intro IsEither (stops || leb ack_retry_max (s.ack_failures + 1)) _ _
        (λ last. inl (end, refl))
        (λ again.
          if_intro IsEither (not slept) _ _ (λ _. inl (cancelled, refl))
            (λ _.
              if_intro IsEither (not written) _ _ (λ _. inl (subscribe_failed, refl))
                (λ _. inr (going, refl, omega arith, ground arith))))

module _ {P : Type 0} (e : EthCommon) (b : BigFloat) (json : Json) (pricer : Pricer P)
    (abi : Option Abi) (once : Bool) (name : Text) (stop_on_error : Bool) where
  abbrev stepped : StreamEvent → Stream P → Stream P
  stepped ev s = step e b json pricer abi once name stop_on_error s.ended ev s

  stepped-HasEnded : (ev : StreamEvent) (s : Stream P) → HasEnded s → HasEnded (stepped ev s)
  stepped-HasEnded ev s (end, h) =
      subst⁻¹ (λ o. HasEnded (step e b json pricer abi once name stop_on_error o ev s)) h (end, h)

  run_stream-HasEnded :
      (evs : List StreamEvent) (s : Stream P)
      → HasEnded s
      → HasEnded (run_stream e b json pricer abi once name stop_on_error evs s)
  unfolding run_stream
  run_stream-HasEnded [] s h = h
  run_stream-HasEnded (ev ∷ evs) s h =
      run_stream-HasEnded evs (stepped ev s) (stepped-HasEnded ev s h)

  abbrev IsEither : ℕ → Stream P → Type 0
  IsEither k s = HasEnded s ⊎ IsWaiting k s

  timeout-cases :
      (slept written : Bool) (k : ℕ) (s : Stream P)
      → IsWaiting k s
      → IsEither (k + 1) (stepped (timeout slept written) s)
  unfolding receive
  timeout-cases slept written k s w =
      subst⁻¹
        (λ o.
          IsEither (k + 1)
            (step e b json pricer abi once name stop_on_error o (timeout slept written) s))
        w.0
        (if_intro (IsEither (k + 1)) (not s.waiting_ack) _ _ (λ asleep. absurd (ground arith))
          (λ _. retry-cases stop_on_error ack_timeout slept written k s w))

  waiting-HasEnded :
      (ts : List (Bool × Bool)) (k : ℕ) (s : Stream P)
      → IsWaiting k s
      → 5 ≤ k + length ts
      → HasEnded (run_stream e b json pricer abi once name stop_on_error (timeouts ts) s)
  unfolding run_stream
  waiting-HasEnded [] k s (going, waits, failures, few) h = absurd (omega arith)
  waiting-HasEnded ((slept, written) ∷ ts) k s w h =
      let t = stepped (timeout slept written) s in
      elim (timeout-cases slept written k s w) [
        | inl ended ↦ run_stream-HasEnded (timeouts ts) t ended
        | inr waits ↦ waiting-HasEnded ts (k + 1) t waits (omega arith)
      ]

-- A stream that receives nothing but timeouts ends by the fifth, whether or not its pauses are cut
-- short and its requests can be written.
pub start_stream-HasEnded :
    {P : Type 0} (e : EthCommon) (b : BigFloat) (json : Json) (pricer : Pricer P) (abi : Option Abi)
    (once : Bool) (name : Text) (stop_on_error : Bool) (c : V4Connector P) (ts : List (Bool × Bool))
    → 5 ≤ length ts
    → HasEnded
        (run_stream e b json pricer abi once name stop_on_error (timeouts ts) (start_stream c))
unfolding start_stream
start_stream-HasEnded e b json pricer abi once name stop_on_error c ts h =
    waiting-HasEnded e b json pricer abi once name stop_on_error ts 0 (start_stream c)
      (refl, refl, refl, omega arith) (omega arith)
