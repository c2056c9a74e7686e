-- ===== src/Supervisor/Delays.antt =====
-- The delays of a supervisor are 1, 2, 4, 8, 16 or 32 seconds.
use screener_cd.Prelude.{
  ℕ, ◌≡◌, refl, Bool, true, ◌||◌, List, [], ◌∷◌, ◌==◌, arith, All, All-append, All-implies, ◌≤◌,
}
use screener_cd.Supervisor.Loop.{
  Phase, running, waiting, returned, Event, done, stop, elapsed, Supervisor, start, next_backoff,
  restart, step, step_in, supervise,
}

abbrev is_delay : ℕ → Bool
is_delay b = b == 1 || b == 2 || b == 4 || b == 8 || b == 16 || b == 32

abbrev IsDelay : ℕ → Type 0
IsDelay b = is_delay b ≡ true

next_backoff-IsDelay : (b : ℕ) → IsDelay b → IsDelay (next_backoff b)
unfolding next_backoff
next_backoff-IsDelay b h = ground arith

record IsPaced (s : Supervisor) : Type 0 where
  next : IsDelay s.backoff
  begun : All IsDelay s.delays

step_in-IsPaced : (ph : Phase) (e : Event) (s : Supervisor) → IsPaced s → IsPaced (step_in ph e s)
unfolding step_in restart
step_in-IsPaced running done s h = record {
  next = h.next;
  begun = All-append IsDelay s.delays (s.backoff ∷ []) h.begun (h.next, tt);
}
step_in-IsPaced running stop s h = record { next = h.next; begun = h.begun }
step_in-IsPaced running elapsed s h = h
step_in-IsPaced waiting done s h = h
step_in-IsPaced waiting stop s h = record { next = h.next; begun = h.begun }
step_in-IsPaced waiting elapsed s h = record {
  next = next_backoff-IsDelay s.backoff h.next;
  begun = h.begun;
}
step_in-IsPaced returned e s h = h

supervise-IsPaced : (es : List Event) (s : Supervisor) → IsPaced s → IsPaced (supervise es s)
unfolding supervise step
supervise-IsPaced [] s h = h
supervise-IsPaced (e ∷ es) s h = supervise-IsPaced es (step e s) (step_in-IsPaced s.phase e s h)

-- However often a connector ends, each pause before its restart is between 1 and 32 seconds.
pub supervise_delays : (es : List Event) → All (λ b. (1 ≤ b) × (b ≤ 32)) (supervise es start).delays
unfolding start
supervise_delays es =
    All-implies IsDelay _ _ (λ b h. (ground arith, ground arith))
      (supervise-IsPaced es start (record { next = refl; begun = tt })).begun
