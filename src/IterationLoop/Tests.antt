-- ===== src/IterationLoop/Tests.antt =====
-- A loop whose third cycle is done.
use beerengineer.Base.{ℕ, suc, String, ◌≡◌, refl, Option, none, some}
use beerengineer.IterationLoop.{
  ExhaustionReason, CycleOutcome, done, continue, cycles, run_cycled_loop,
}

-- The state counts the cycles.
abbrev third_is_done : ℕ → Option String → ℕ → ℕ × CycleOutcome String
third_is_done (suc (suc cycle)) feedback n = (suc n, done "passed")
third_is_done cycle feedback n = (suc n, continue (some "again"))

abbrev give_up : ExhaustionReason → ℕ → ℕ × String
give_up reason n = (n, "blocked")

third_stops : run_cycled_loop third_is_done give_up 5 0 none 0 ≡ (3, "passed")
unfolding run_cycled_loop cycles
third_stops = refl
