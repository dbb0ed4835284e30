-- ===== src/StageRuntime/Tests.antt =====
-- An agent that asks once and whose second artifact passes.
use beerengineer.Base.{ℕ, zero, suc, ◌≤◌, ◌≡◌, refl, Bool, true, false, Option, some, arith}
use beerengineer.Base.Tests.{is_some}
use beerengineer.Base.Lists.{select}
use beerengineer.Base.Texts.{eq_text}
use beerengineer.StageRuntime.{
  StageDefinition, StageAgentResponse, message, artifact_response, returns, answer, Review, pass,
  revise, Next, finish, run_stage, run_stage_body, run_loop, advance_stage_agent, handle_response,
  continue_stage_after_user_message, handle_review_outcome, request_revision,
  count_prior_identical_stage_prompts,
}
use beerengineer.StageRuntime.Invariants.{Ends}
use beerengineer.StageRuntime.Prompts.{final_run, times_asked, run_stage-prompts}
use beerengineer.StageRuntime.Outcome.{Outcome, run_stage-Outcome}
use beerengineer.StageRuntime.Fuel.{IsQuietFrom, calls_message, run_stage_ends}

abbrev first_asks : ℕ → StageAgentResponse
first_asks zero = message "Which colour?"
first_asks (suc n) = artifact_response "a design"

abbrev second_passes : ℕ → Review
second_passes (suc (suc n)) = pass
second_passes _ = revise "bolder"

abbrev definition : StageDefinition
definition = record {
  step = λ run. returns (first_asks run.stage_agent_turn_count);
  ask_user = λ text run. returns (answer "red");
  persist_artifacts = λ text run. returns true;
  review = λ text run. returns (second_passes run.review_iteration);
  on_approved = λ text run. returns text;
  max_reviews = 3;
}

first_asks-quiet : (n : ℕ) → 1 ≤ n → calls_message (returns (first_asks n)) ≡ false
first_asks-quiet zero h = absurd (omega arith)
first_asks-quiet (suc n) h = refl

definition-IsQuietFrom : IsQuietFrom definition 1
definition-IsQuietFrom run h = first_asks-quiet run.stage_agent_turn_count h

abbrev approved_design : Option Next → Bool
approved_design (some (finish run result)) = eq_text result "a design"
approved_design _ = false

-- Four rounds are enough: a question and at most three reviews.
run_stage_test : approved_design (run_stage definition 4) ≡ true
unfolding run_stage run_stage_body run_loop advance_stage_agent handle_response
    continue_stage_after_user_message handle_review_outcome request_revision
    count_prior_identical_stage_prompts select eq_text
run_stage_test = refl

run_stage_ends_example : is_some (run_stage definition 4) ≡ true
run_stage_ends_example = run_stage_ends definition 1 4 definition-IsQuietFrom (omega arith)

run_stage-prompts_example :
    Ends (λ n. times_asked "Which colour?" (final_run n) ≤ 2) (run_stage definition 4)
run_stage-prompts_example = run_stage-prompts definition "Which colour?" 4

run_stage-Outcome_example : Ends (Outcome definition) (run_stage definition 4)
run_stage-Outcome_example = run_stage-Outcome definition 4
