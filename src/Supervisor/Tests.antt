-- ===== src/Supervisor/Tests.antt =====
-- A supervisor whose connector ends seven times, and the theorem about it at a witness.
use screener_cd.Prelude.{ℕ, zero, suc, ◌≡◌, refl, List, [], ◌∷◌, ◌≤◌, All}
use screener_cd.Supervisor.Loop.{
  Event, done, stop, elapsed, start, next_backoff, restart, step, step_in, supervise,
}
use screener_cd.Supervisor.Delays.{supervise_delays}

abbrev ends : ℕ → List Event → List Event
ends zero rest = rest
ends (suc n) rest = done ∷ elapsed ∷ ends n rest

doubled :
    (supervise (ends 7 (done ∷ stop ∷ elapsed ∷ [])) start).delays
    ≡ 1 ∷ 2 ∷ 4 ∷ 8 ∷ 16 ∷ 32 ∷ 32 ∷ 32 ∷ []
unfolding supervise step step_in restart next_backoff start
doubled = refl

supervise_delays_example :
    All (λ b. (1 ≤ b) × (b ≤ 32)) (supervise (ends 7 (done ∷ stop ∷ [])) start).delays
supervise_delays_example = supervise_delays (ends 7 (done ∷ stop ∷ []))
