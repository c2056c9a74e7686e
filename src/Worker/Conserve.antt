-- ===== src/Worker/Conserve.antt =====
-- Nothing that a worker receives is lost, repeated or put out of order on the way to Redis, and
-- the pipelines stay within their size.
use mathlib.Core.List.{flatten}
use screener_cd.Prelude.{
  ◌⊎◌, ℕ, ◌≡◌, refl, sym, ap, ◌∙◌, Bool, true, false, List, [], ◌∷◌, ◌++◌, append_assoc, append-nil,
  leb, if_intro, length, List-cases, Option-cases, inl, inr,
}
use screener_cd.Text.{Text, codes}
use screener_cd.Market.{MarketData}
use screener_cd.Redis.Batch.{
  Value, str, float, int, Entry, Command, read_fields, read_entry, pipeline,
}
use screener_cd.Worker.Loop.{
  Event, received, closed, timeout, Worker, key_raw, key_canon, entry_for, entries_of, send, flush,
  receive, step, run, start,
}

-- The messages up to the closing of the channel.
unfoldable pub messages : List Event → List MarketData
messages [] = []
messages (received md s ∷ es) = md ∷ messages es
messages (closed s ∷ es) = []
messages (timeout s ∷ es) = messages es

flatten-snoc {ℓ} :
    {A : Type ℓ} (xs : List (List A)) (y : List A) → flatten (xs ++ y ∷ []) ≡ flatten xs ++ y
unfolding flatten
flatten-snoc [] y = append-nil y
flatten-snoc (x ∷ xs) y = simp (flatten-snoc xs y, append_assoc)

module _ (sprint : Value → Text) where
  -- The write of a price under a key.
  unfoldable pub command_for : Text → MarketData → Command
  command_for key md = record {
    key = key;
    fields =
        (codes "price", sprint (float md.price))
        ∷ (codes "timestamp", sprint (int md.timestamp))
        ∷ (codes "exchange", sprint (str md.exchange))
        ∷ (codes "symbol", sprint (str md.symbol))
        ∷ [];
  }

  unfoldable pub commands_of : List MarketData → List Command
  commands_of [] = []
  commands_of (md ∷ mds) =
      command_for (key_raw md) md ∷ command_for (key_canon md) md ∷ commands_of mds

  pipeline-append :
      (xs ys : List Entry) → pipeline sprint (xs ++ ys) ≡ pipeline sprint xs ++ pipeline sprint ys
  unfolding pipeline
  pipeline-append [] ys = refl
  pipeline-append (x ∷ xs) ys = elim (Option-cases (read_entry sprint x)) [
    | inl e ↦ rw e (pipeline-append xs ys)
    | inr (c, e) ↦ rw e (ap (λ t. c ∷ t) (pipeline-append xs ys))
  ]

  pipeline-entries_of :
      (md : MarketData)
      → pipeline sprint (entries_of md)
        ≡ command_for (key_raw md) md ∷ command_for (key_canon md) md ∷ []
  unfolding pipeline entries_of entry_for read_entry read_fields command_for
  pipeline-entries_of md = refl

  module _ (size : ℕ) where
    -- What has been sent, and what the next pipeline would send.
    abbrev written : Worker → List Command
    written w = flatten w.sent ++ pipeline sprint w.batch

    written-send : (s : Bool) (w : Worker) → written (send sprint size s w) ≡ written w
    unfolding send pipeline
    written-send true w = append-nil _ ∙ flatten-snoc w.sent (pipeline sprint w.batch)
    written-send false w = append-nil _ ∙ flatten-snoc w.sent (pipeline sprint w.batch)

    -- A flush of an empty batch does nothing.
    flush-cases :
        (s : Bool) (w : Worker)
        → (flush sprint size s w ≡ w) ⊎ (flush sprint size s w ≡ send sprint size s w)
    unfolding flush
    flush-cases s w = elim (List-cases w.batch) [
      | inl e ↦ inl (simp (e, flush))
      | inr (x, rest, e) ↦ inr (simp (e, flush))
    ]

    written-flush : (s : Bool) (w : Worker) → written (flush sprint size s w) ≡ written w
    written-flush s w = elim (flush-cases s w) [
      | inl e ↦ ap written e
      | inr e ↦ ap written e ∙ written-send s w
    ]

    written-receive :
        (md : MarketData) (w : Worker)
        → written (receive sprint size md w)
          ≡ written w ++ (command_for (key_raw md) md ∷ command_for (key_canon md) md ∷ [])
    unfolding receive
    written-receive md w = simp (pipeline-append, pipeline-entries_of md, append_assoc)

    written-received :
        (md : MarketData) (s : Bool) (w : Worker)
        → written (step sprint size (received md s) w)
          ≡ written w ++ (command_for (key_raw md) md ∷ command_for (key_canon md) md ∷ [])
    unfolding step
    written-received md s w =
        if_intro
          (λ (v : Worker).
            written v
            ≡ written w ++ (command_for (key_raw md) md ∷ command_for (key_canon md) md ∷ []))
          (leb size (length (receive sprint size md w).batch)) _ _
          (λ _. written-flush s (receive sprint size md w) ∙ written-receive md w)
          (λ _. written-receive md w)

    stopped-send : (s : Bool) (w : Worker) → (send sprint size s w).stopped ≡ w.stopped
    unfolding send
    stopped-send true w = refl
    stopped-send false w = refl

    stopped-flush : (s : Bool) (w : Worker) → (flush sprint size s w).stopped ≡ w.stopped
    stopped-flush s w = elim (flush-cases s w) [
      | inl e ↦ ap (λ (v : Worker). v.stopped) e
      | inr e ↦ ap (λ (v : Worker). v.stopped) e ∙ stopped-send s w
    ]

    stopped-received :
        (md : MarketData) (s : Bool) (w : Worker)
        → (step sprint size (received md s) w).stopped ≡ w.stopped
    unfolding step
    stopped-received md s w =
        if_intro (λ (v : Worker). v.stopped ≡ w.stopped)
          (leb size (length (receive sprint size md w).batch)) _ _
          (λ _. stopped-flush s (receive sprint size md w) ∙ unfold receive in refl)
          (λ _. unfold receive in refl)

    run-stopped : (es : List Event) (w : Worker) → w.stopped ≡ true → run sprint size es w ≡ w
    unfolding run
    run-stopped [] w h = refl
    run-stopped (e ∷ es) w h = rw h

    stopped-closed : (s : Bool) (w : Worker) → (step sprint size (closed s) w).stopped ≡ true
    unfolding step
    stopped-closed s w = refl

    written-closed : (s : Bool) (w : Worker) → written (step sprint size (closed s) w) ≡ written w
    unfolding step
    written-closed s w = written-flush s w

    stopped-timeout : (s : Bool) (w : Worker) → (step sprint size (timeout s) w).stopped ≡ w.stopped
    unfolding step
    stopped-timeout s w = stopped-flush s w

    written-timeout : (s : Bool) (w : Worker) → written (step sprint size (timeout s) w) ≡ written w
    unfolding step
    written-timeout s w = written-flush s w

    run-cons :
        (e : Event) (es : List Event) (w : Worker)
        → w.stopped ≡ false
        → run sprint size (e ∷ es) w ≡ run sprint size es (step sprint size e w)
    unfolding run
    run-cons e es w h = simp h

    written-run :
        (es : List Event) (w : Worker)
        → w.stopped ≡ false
        → written (run sprint size es w) ≡ written w ++ commands_of (messages es)
    unfolding commands_of messages
    written-run [] w h = unfold run in sym (append-nil _)
    written-run (received md s ∷ es) w h =
        let w' = step sprint size (received md s) w in
        ap written (run-cons (received md s) es w h)
        ∙ written-run es w' (stopped-received md s w ∙ h)
        ∙ ap (λ t. t ++ commands_of (messages es)) (written-received md s w)
        ∙ append_assoc (written w) _ _
    written-run (closed s ∷ es) w h =
        ap written (run-cons (closed s) es w h)
        ∙ ap written (run-stopped es (step sprint size (closed s) w) (stopped-closed s w))
        ∙ written-closed s w
        ∙ sym (append-nil _)
    written-run (timeout s ∷ es) w h =
        let w' = step sprint size (timeout s) w in
        ap written (run-cons (timeout s) es w h)
        ∙ written-run es w' (stopped-timeout s w ∙ h)
        ∙ ap (λ t. t ++ commands_of (messages es)) (written-timeout s w)

-- Whatever the worker receives and however the pipelines end, what it has sent and still holds is
-- one write to the raw and one to the canonical key of every message, in the order of arrival.
pub run_conserves :
    (sprint : Value → Text) (size : ℕ) (es : List Event)
    → flatten (run sprint size es (start sprint size)).sent
        ++ pipeline sprint (run sprint size es (start sprint size)).batch
      ≡ commands_of sprint (messages es)
unfolding start pipeline flatten
run_conserves sprint size es = written-run sprint size es (start sprint size) refl
