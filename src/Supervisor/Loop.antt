-- ===== src/Supervisor/Loop.antt =====
-- The loop of `supervisor` as a machine over what its two selects receive. A delay is in seconds,
-- and a call of `fn` that returns or panics closes `done`.
use screener_cd.Prelude.{ℕ, ◌+◌, ◌*◌, List, [], ◌∷◌, ◌++◌, ltb, if◌then◌else◌}

pub data Phase : Type 0 where
  running : Phase
  waiting : Phase
  returned : Phase

pub data Event : Type 0 where
  done : Event
  stop : Event
  elapsed : Event

-- `delays` are the pauses that were begun, and `calls` counts the calls of `fn`.
pub record Supervisor : Type 0 where
  pub phase : Phase
  pub backoff : ℕ
  pub delays : List ℕ
  pub calls : ℕ

unfoldable pub start : Supervisor
start = record { phase = running; backoff = 1; delays = []; calls = 1 }

-- `if backoff < 30*time.Second { backoff *= 2 }`
unfoldable pub next_backoff : ℕ → ℕ
next_backoff b = if ltb b 30 then b * 2 else b

unfoldable pub restart : Supervisor → Supervisor
restart s = record s { phase = running; backoff = next_backoff s.backoff; calls = s.calls + 1 }

-- What an event does in each phase; one that the select does not wait for changes nothing.
unfoldable pub step_in : Phase → Event → Supervisor → Supervisor
step_in running done s = record s { phase = waiting; delays = s.delays ++ s.backoff ∷ [] }
step_in running stop s = record s { phase = returned }
step_in running elapsed s = s
step_in waiting done s = s
step_in waiting stop s = record s { phase = returned }
step_in waiting elapsed s = restart s
step_in returned e s = s

unfoldable pub step : Event → Supervisor → Supervisor
step e s = step_in s.phase e s

unfoldable pub supervise : List Event → Supervisor → Supervisor
supervise [] s = s
supervise (e ∷ es) s = supervise es (step e s)
