-- ===== src/RalphStoryLoop.antt =====
-- The implementation loop of a story (apps/engine/src/stages/execution/ralphStoryLoop.ts). The coder's
-- work in the worktree, the files written and the events are left out: no check below reads them.
-- The review of a cycle and its boundary are the environment.
use beerengineer.Base.{
  ℕ, zero, suc, ◌+◌, ◌-◌, String, Bool, true, false, not, ◌&&◌, ◌||◌, Option, none, some, List, [],
  ◌∷◌,
}
use beerengineer.Base.Tests.{leb, ◌==◌, if◌then◌else◌}
use beerengineer.Base.Lists.{length, select, all}
use beerengineer.Base.Texts.{eq_text}
use beerengineer.IterationLoop.{
  ExhaustionReason, max_cycles_reached, cycle_exhausted, CycleOutcome, done, continue, exhausted,
  run_cycled_loop,
}
pub mod Green
pub mod Outcome
mod Tests

pub data StoryStatus : Type 0 where
  in_progress ready_for_review passed blocked : StoryStatus

pub data CheckStatus : Type 0 where
  check_pass check_fail : CheckStatus

pub data IterationResult : Type 0 where
  iteration_done tests_failed : IterationResult

pub record Iteration : Type 0 where
  pub number : ℕ
  pub review_cycle : ℕ
  pub checks : List CheckStatus
  pub result : IterationResult

-- `StoryImplementationArtifact`, with the recoveries recorded for the story. Iterations are the
-- latest first.
pub record Implementation : Type 0 where
  pub status : StoryStatus
  pub current_review_cycle : ℕ
  pub max_iterations : ℕ
  pub max_review_cycles : ℕ
  pub iterations : List Iteration
  pub recoveries : ℕ

pub data StoryReview : Type 0 where
  review_passed : StoryReview
  review_revise : (feedback : String) → StoryReview

-- What happens outside: whether the boundary before a cycle lets it begin, and the review.
pub record Surroundings : Type 0 where
  pub boundary_ok : ℕ → Implementation → Bool
  pub review : ℕ → Implementation → StoryReview

-- `Boolean(feedback)`.
abbrev pub is_remediation : Option String → Bool
is_remediation none = false
is_remediation (some feedback) = not (eq_text feedback "")

unfoldable pub checks_for_iteration : ℕ → Bool → List CheckStatus
checks_for_iteration iterations_this_cycle remediation =
    (if leb 2 iterations_this_cycle || remediation then check_pass else check_fail)
    ∷ check_pass
    ∷ []

abbrev pub is_not_failed : CheckStatus → Bool
is_not_failed check_pass = true
is_not_failed check_fail = false

unfoldable pub result_from_checks : List CheckStatus → IterationResult
result_from_checks checks = if all is_not_failed checks then iteration_done else tests_failed

abbrev pub status_after : IterationResult → StoryStatus
status_after iteration_done = ready_for_review
status_after tests_failed = in_progress

abbrev pub in_cycle : ℕ → Iteration → Bool
in_cycle cycle i = i.review_cycle == cycle

unfoldable pub count_iterations_in_cycle : Implementation → ℕ → ℕ
count_iterations_in_cycle impl cycle = length (select (in_cycle cycle) impl.iterations)

unfoldable pub run_one_iteration :
    (cycle iterations_this_cycle : ℕ)
    → Option String
    → Implementation
    → Implementation × IterationResult
run_one_iteration cycle k feedback impl =
    let checks = checks_for_iteration k (is_remediation feedback) in
    let result = result_from_checks checks in
    (
      record impl {
        status = status_after result;
        iterations =
            record {
              number = suc (length impl.iterations);
              review_cycle = cycle;
              checks = checks;
              result = result;
            }
            ∷ impl.iterations;
      },
      result,
    )

-- The `while` loop, with `left` iterations to go in this cycle.
abbrev pub next_iteration :
    (Implementation → Implementation × Bool)
    → Implementation × IterationResult
    → Implementation × Bool
next_iteration loop (impl, iteration_done) = (impl, true)
next_iteration loop (impl, tests_failed) = loop impl

unfoldable pub iterate :
    ℕ → (cycle iterations_this_cycle : ℕ) → Option String → Implementation → Implementation × Bool
iterate zero cycle k feedback impl = (impl, false)
iterate (suc left) cycle k feedback impl =
    next_iteration (iterate left cycle (suc k) feedback)
      (run_one_iteration cycle (suc k) feedback impl)

-- Whether the cycle became green: `ready_for_review` rather than `exhausted`.
unfoldable pub run_coder_cycle_until_green :
    ℕ → Option String → Implementation → Implementation × Bool
run_coder_cycle_until_green cycle feedback impl =
    let k = count_iterations_in_cycle impl cycle in
    iterate (impl.max_iterations - k) cycle k feedback (record impl { status = in_progress })

abbrev pub block_story : Implementation → Implementation
block_story impl = record impl { status = blocked; recoveries = suc impl.recoveries }

abbrev pub after_review :
    Implementation → StoryReview → Implementation × CycleOutcome Implementation
after_review impl review_passed =
    (record impl { status = passed }, done (record impl { status = passed }))
after_review impl (review_revise feedback) =
    (record impl { status = in_progress }, continue (some feedback))

module _ (env : Surroundings) where
  abbrev pub review_when : ℕ → Implementation × Bool → Implementation × CycleOutcome Implementation
  review_when cycle (impl, true) = after_review impl (env.review cycle impl)
  review_when cycle (impl, false) = (impl, exhausted "story_error")

  abbrev pub is_ready : StoryStatus → Bool
  is_ready ready_for_review = true
  is_ready _ = false

  abbrev pub coded : ℕ → Option String → Implementation → Implementation × Bool
  coded cycle feedback impl =
      if is_ready impl.status then (impl, true) else run_coder_cycle_until_green cycle feedback impl

  unfoldable pub run_cycle :
      ℕ → Option String → Implementation → Implementation × CycleOutcome Implementation
  run_cycle cycle feedback impl =
      if not (env.boundary_ok cycle impl)
      then (block_story impl, done (block_story impl))
      else review_when cycle (coded cycle feedback (record impl { current_review_cycle = cycle }))

  -- A cycle that does not become green blocks the story; reviews that never pass do not.
  unfoldable pub on_all_cycles_exhausted :
      ExhaustionReason → Implementation → Implementation × Implementation
  on_all_cycles_exhausted (cycle_exhausted _ _) impl = (block_story impl, block_story impl)
  on_all_cycles_exhausted (max_cycles_reached _) impl =
      (record impl { status = passed }, record impl { status = passed })

  -- `seed` is the feedback of an earlier review or remediation.
  unfoldable pub run_ralph_loop : (seed : Option String) → Implementation → Implementation
  run_ralph_loop seed impl =
      (run_cycled_loop run_cycle on_all_cycles_exhausted impl.max_review_cycles
        impl.current_review_cycle seed impl).1
