-- ===== src/Worker/Bounds.antt =====
-- The pipelines stay within their size, and a closed channel leaves nothing behind.
use screener_cd.Prelude.{
  ℕ, ◌+◌, ◌<◌, ◌≤◌, ap, Bool, true, false, List, [], ◌∷◌, arith, leb, if_intro, length,
  length-append, All, All-append, List-cases, Option-cases, inl, inr,
}
use screener_cd.Text.{Text}
use screener_cd.Market.{MarketData}
use screener_cd.Redis.Batch.{Value, Entry, Command, read_entry, pipeline}
use screener_cd.Worker.Loop.{
  Event, received, closed, timeout, Worker, entries_of, send, flush, receive, step, run, start,
}

length-pipeline :
    (sprint : Value → Text) (es : List Entry) → length (pipeline sprint es) ≤ length es
unfolding pipeline
length-pipeline sprint [] = omega arith
length-pipeline sprint (e ∷ es) = elim (Option-cases (read_entry sprint e)) [
  | inl h ↦ rw h (omega (arith, length-pipeline sprint es))
  | inr (c, h) ↦ rw h (omega (arith, length-pipeline sprint es))
]

module _ (sprint : Value → Text) (size : ℕ) where
  -- Each pipeline that was sent holds at most size + 1 commands.
  abbrev pub AllShort : List (List Command) → Type 0
  AllShort = All (λ p. length p ≤ size + 1)

  record IsBounded (w : Worker) : Type 0 where
    open_batch : length w.batch < size
    short : AllShort w.sent

  -- As `IsBounded`, before the test of the batch's length.
  record IsFilling (w : Worker) : Type 0 where
    filling : length w.batch ≤ size + 1
    short : AllShort w.sent

  send-IsBounded :
      (s : Bool) (w : Worker) → 0 < size → IsFilling w → IsBounded (send sprint size s w)
  unfolding send
  send-IsBounded true w pos h = record {
    open_batch = pos;
    short =
        All-append (λ p. length p ≤ size + 1) w.sent (pipeline sprint w.batch ∷ []) h.short
          (omega (arith, length-pipeline sprint w.batch, h.filling), tt);
  }
  send-IsBounded false w pos h = record {
    open_batch = pos;
    short =
        All-append (λ p. length p ≤ size + 1) w.sent (pipeline sprint w.batch ∷ []) h.short
          (omega (arith, length-pipeline sprint w.batch, h.filling), tt);
  }

  flush-IsBounded :
      (s : Bool) (w : Worker) → 0 < size → IsFilling w → IsBounded (flush sprint size s w)
  unfolding flush
  flush-IsBounded s w pos h = elim (List-cases w.batch) [
    | inl e ↦ simp (e, flush) (record { open_batch = omega (arith, ap length e); short = h.short })
    | inr (x, rest, e) ↦ simp (e, flush) (send-IsBounded s w pos h)
  ]

  receive-IsFilling :
      (md : MarketData) (w : Worker) → IsBounded w → IsFilling (receive sprint size md w)
  unfolding receive entries_of
  receive-IsFilling md w h = record {
    filling = omega (arith, length-append w.batch (entries_of md), h.open_batch);
    short = h.short;
  }

  weaken : (w : Worker) → IsBounded w → IsFilling w
  weaken w h = record { filling = omega (arith, h.open_batch); short = h.short }

  step-IsBounded :
      (e : Event) (w : Worker) → 0 < size → IsBounded w → IsBounded (step sprint size e w)
  unfolding step
  step-IsBounded (received md s) w pos h =
      let w' = receive sprint size md w in
      let filled = receive-IsFilling md w h in
      if_intro IsBounded (leb size (length w'.batch)) _ _ (λ _. flush-IsBounded s w' pos filled)
        (λ small. record { open_batch = ground arith; short = filled.short })
  step-IsBounded (closed s) w pos h =
      let b = flush-IsBounded s w pos (weaken w h) in
      record { open_batch = b.open_batch; short = b.short }
  step-IsBounded (timeout s) w pos h = flush-IsBounded s w pos (weaken w h)

  run_from-IsBounded :
      (es : List Event) (w : Worker) → 0 < size → IsBounded w → IsBounded (run sprint size es w)
  unfolding run
  run_from-IsBounded [] w pos h = h
  run_from-IsBounded (e ∷ es) w pos h =
      if_intro IsBounded w.stopped _ _ (λ _. h)
        (λ _. run_from-IsBounded es (step sprint size e w) pos (step-IsBounded e w pos h))

-- With a positive size of a pipeline, a worker holds fewer entries than that between two rounds, and
-- no pipeline that it sends holds more than size + 1 commands.
pub run_bounds :
    (sprint : Value → Text) (size : ℕ) (es : List Event)
    → 0 < size
    → (length (run sprint size es (start sprint size)).batch < size)
      × AllShort sprint size (run sprint size es (start sprint size)).sent
unfolding start
run_bounds sprint size es pos =
    let b =
      run_from-IsBounded sprint size es (start sprint size) pos
        (record { open_batch = pos; short = tt }) in
    (b.open_batch, b.short)
