-- ===== src/RalphStoryLoop/Tests.antt =====
-- A story whose reviewer never passes it.
use beerengineer.Base.{◌≡◌, refl, true, none, [], arith}
use beerengineer.Base.Lists.{length, select, all}
use beerengineer.Base.Texts.{eq_text}
use beerengineer.IterationLoop.{run_cycled_loop, cycles}
use beerengineer.RalphStoryLoop.{
  Implementation, in_progress, passed, review_revise, Surroundings, run_ralph_loop,
  run_coder_cycle_until_green, run_cycle, on_all_cycles_exhausted, iterate, run_one_iteration,
  checks_for_iteration, result_from_checks, count_iterations_in_cycle,
}
use beerengineer.RalphStoryLoop.Outcome.{run_ralph_loop-passed}

abbrev story : Implementation
story = record {
  status = in_progress;
  current_review_cycle = 0;
  max_iterations = 4;
  max_review_cycles = 3;
  iterations = [];
  recoveries = 0;
}

abbrev strict : Surroundings
strict = record {
  boundary_ok = λ cycle impl. true;
  review = λ cycle impl. review_revise "Not yet.";
}

-- Two iterations in the first cycle, one in each of the others.
iterations_test : length (run_ralph_loop strict none story).iterations ≡ 4
unfolding run_ralph_loop run_cycled_loop cycles run_cycle on_all_cycles_exhausted iterate
    run_one_iteration checks_for_iteration result_from_checks count_iterations_in_cycle
    run_coder_cycle_until_green select all eq_text
iterations_test = refl

run_ralph_loop-passed_example :
    ((run_ralph_loop strict none story).status ≡ passed)
    × ((run_ralph_loop strict none story).recoveries ≡ 0)
run_ralph_loop-passed_example =
    run_ralph_loop-passed strict none story (λ cycle i. refl) (omega arith) tt
