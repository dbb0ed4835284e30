-- ===== src/RalphStoryLoop/Outcome.antt =====
-- How the implementation loop of a story ends
-- (apps/engine/src/stages/execution/ralphStoryLoop.ts).
use beerengineer.Base.{
  ℕ, zero, suc, ◌-◌, ◌≤◌, ◌<◌, String, ◌≡◌, refl, ◌∙◌, Bool, true, false, not, Option, some, List,
  [], ◌∷◌, arith,
}
use beerengineer.Base.Tests.{if_ind}
use beerengineer.Base.Lists.{length, select}
use beerengineer.IterationLoop.{next, cycles, run_cycled_loop, CycleOutcome}
use beerengineer.RalphStoryLoop.{
  passed, Iteration, Implementation, StoryReview, review_passed, review_revise, Surroundings,
  in_cycle, count_iterations_in_cycle, run_coder_cycle_until_green, is_ready, coded, review_when,
  after_review, run_cycle, on_all_cycles_exhausted, run_ralph_loop,
}
use beerengineer.RalphStoryLoop.Green.{UpTo, IsCoded, run_coder_cycle_until_green-IsCoded}

-- The recorded iterations are of cycles before this one.
abbrev pub Before : ℕ → List Iteration → Type 0
Before cycle [] = Unit
Before cycle (i ∷ is) = (i.review_cycle < cycle) × Before cycle is

Before-UpTo : (cycle : ℕ) (is : List Iteration) → Before cycle is → UpTo cycle is
Before-UpTo cycle [] h = tt
Before-UpTo cycle (i ∷ is) (b, h) = (omega arith, Before-UpTo cycle is h)

UpTo-Before : (cycle : ℕ) (is : List Iteration) → UpTo cycle is → Before (suc cycle) is
UpTo-Before cycle [] h = tt
UpTo-Before cycle (i ∷ is) (b, h) = (omega arith, UpTo-Before cycle is h)

no_iterations_yet :
    (cycle : ℕ) (is : List Iteration) → Before cycle is → length (select (in_cycle cycle) is) ≡ 0
unfolding select
no_iterations_yet cycle [] h = refl
no_iterations_yet cycle (i ∷ is) (b, h) = ground (arith, no_iterations_yet cycle is h)

module _ (env : Surroundings)
    (always_ok : (cycle : ℕ) (impl : Implementation) → env.boundary_ok cycle impl ≡ true)
    (recorded : ℕ) where
  abbrev Going : ℕ → Implementation → Type 0
  Going cycle impl =
      (2 ≤ impl.max_iterations) × (Before cycle impl.iterations × (impl.recoveries ≡ recorded))

  abbrev HasPassed : Implementation × Implementation → Type 0
  HasPassed out = (out.1.status ≡ passed) × (out.1.recoveries ≡ recorded)

  abbrev Loop : Type 0
  Loop = ℕ → Option String → Implementation → Implementation × Implementation

  module _ (loop : Loop) (cycle : ℕ)
      (goes_on : (feedback : Option String) (impl : Implementation)
        → Going (suc cycle) impl
        → HasPassed (loop (suc cycle) feedback impl)) where
    abbrev step : Implementation × CycleOutcome Implementation → Implementation × Implementation
    step = next (run_cycle env) (on_all_cycles_exhausted env) loop cycle

    after_review-HasPassed :
        (impl : Implementation) (r : StoryReview)
        → Going (suc cycle) impl
        → HasPassed (step (after_review impl r))
    after_review-HasPassed impl review_passed (two, (b, e)) = (refl, e)
    after_review-HasPassed impl (review_revise feedback) (two, (b, e)) =
        goes_on (some feedback) _ (two, (b, e))

    review_when-HasPassed :
        (impl : Implementation) (green : Bool)
        → green ≡ true
        → Going (suc cycle) impl
        → HasPassed (step (review_when env cycle (impl, green)))
    review_when-HasPassed impl true g h = after_review-HasPassed impl (env.review cycle impl) h
    review_when-HasPassed impl false g h = absurd (ground arith)

    coded-Going :
        (feedback : Option String) (impl : Implementation)
        → Going cycle impl
        → ((coded env cycle feedback impl).1 ≡ true)
          × Going (suc cycle) (coded env cycle feedback impl).0
    unfolding count_iterations_in_cycle
    coded-Going feedback impl (two, (b, e)) =
        if_ind (λ (o : Implementation × Bool). (o.1 ≡ true) × Going (suc cycle) o.0)
          (is_ready env impl.status)
          (λ _. (
            refl,
            (two, (UpTo-Before cycle impl.iterations (Before-UpTo cycle impl.iterations b), e)),
          ))
          (λ _. from_coded (run_coder_cycle_until_green cycle feedback impl) (
            run_coder_cycle_until_green-IsCoded cycle feedback impl two (few impl two b)
              (Before-UpTo cycle impl.iterations b)))
      where
        few :
            (x : Implementation)
            → 2 ≤ x.max_iterations
            → Before cycle x.iterations
            → count_iterations_in_cycle x cycle < x.max_iterations
        few x t h = omega (arith, no_iterations_yet cycle x.iterations h)

        from_coded :
            (out : Implementation × Bool)
            → IsCoded 2 cycle impl out
            → (out.1 ≡ true) × Going (suc cycle) out.0
        from_coded out (green, (m, (c, (r, (u, l))))) =
            (green, (omega (arith, m), (UpTo-Before cycle out.0.iterations u, r ∙ e)))

    run_cycle-HasPassed :
        (feedback : Option String) (impl : Implementation)
        → Going cycle impl
        → HasPassed (step (run_cycle env cycle feedback impl))
    unfolding run_cycle
    run_cycle-HasPassed feedback impl h =
        let impl' : Implementation = record impl { current_review_cycle = cycle } in
        let after = coded-Going feedback impl' h in
        if_ind (λ o. HasPassed (step o)) (not (env.boundary_ok cycle impl))
          (λ stopped. absurd (ground (arith, always_ok cycle impl)))
          (λ _. review_when-HasPassed (coded env cycle feedback impl').0 _ after.0 after.1)

  cycles-HasPassed :
      (left cycle : ℕ) (feedback : Option String) (impl : Implementation)
      → Going cycle impl
      → HasPassed (cycles (run_cycle env) (on_all_cycles_exhausted env) left cycle feedback impl)
  unfolding cycles on_all_cycles_exhausted
  cycles-HasPassed zero cycle feedback impl (two, (b, e)) = (refl, e)
  cycles-HasPassed (suc left) cycle feedback impl h =
      run_cycle-HasPassed (cycles (run_cycle env) (on_all_cycles_exhausted env) left) cycle
        (cycles-HasPassed left (suc cycle)) feedback impl h

-- A story ends as passed and without a recovery record, whatever its reviews say, if every cycle may
-- begin, a cycle may have at least two iterations, and no iteration is recorded for the cycle it
-- starts from or a later one.
pub run_ralph_loop-passed :
    (env : Surroundings) (seed : Option String) (impl : Implementation)
    → ((cycle : ℕ) (i : Implementation) → env.boundary_ok cycle i ≡ true)
    → 2 ≤ impl.max_iterations
    → Before impl.current_review_cycle impl.iterations
    → ((run_ralph_loop env seed impl).status ≡ passed)
      × ((run_ralph_loop env seed impl).recoveries ≡ impl.recoveries)
unfolding run_ralph_loop run_cycled_loop
run_ralph_loop-passed env seed impl always_ok two b =
    cycles-HasPassed env always_ok impl.recoveries
      (impl.max_review_cycles - impl.current_review_cycle) impl.current_review_cycle seed impl
      (two, (b, refl))
