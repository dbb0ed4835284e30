-- ===== src/StageRuntime/Prompts.antt =====
-- The limit on repeated prompts of a stage agent (apps/engine/src/core/stageRuntime.ts).
use beerengineer.Base.{ℕ, ◌≤◌, String, ◌≡◌, refl, Bool, false, arith}
use beerengineer.Base.Tests.{leb, if_ind}
use beerengineer.Base.Lists.{select, length}
use beerengineer.Base.Texts.{eq_text, eq_text_iff}
use beerengineer.StageRuntime.{
  StageRun, StageDefinition, StageAgentResponse, Next, respond, finish, raise, run_stage,
  advance_stage_agent, handle_response, set_status, chat_in_progress, create_stage_run, caught,
  count_prior_identical_stage_prompts, max_identical_stage_prompts,
  continue_stage_after_user_message, request_revision, handle_review_outcome, message,
  artifact_response, ask, calling, Call, returns, throws, Answer, no_answer, answer, Review, pass,
  block, revise, advanced, after_answer, answered, approved_with, reviewed, persisted,
  workflow_cancelled, blocked_run, port_pool_exhausted, error, has_ended,
}
use beerengineer.StageRuntime.Invariants.{Holds, Ends, run_stage_body-Ends, map_next-Ends}

abbrev pub final_run : Next → StageRun
final_run (respond run r) = run
final_run (finish run result) = run
final_run (raise run e) = run

-- How often the user was asked the text.
abbrev pub times_asked : String → StageRun → ℕ
times_asked text run = length (select (λ m. eq_text m text) run.asked_user)

module _ (definition : StageDefinition) (text : String) where
  abbrev WithinLimit : StageRun → Type 0
  WithinLimit run =
      (times_asked text run ≡ count_prior_identical_stage_prompts run text)
      × (count_prior_identical_stage_prompts run text ≤ max_identical_stage_prompts)

  abbrev P : StageRun → StageAgentResponse → Type 0
  P run r = WithinLimit run

  abbrev Q : Next → Type 0
  Q n = WithinLimit (final_run n)

  advanced-WithinLimit :
      (run : StageRun) (c : Call StageAgentResponse)
      → WithinLimit run
      → Holds P Q (advanced definition run c)
  unfolding count_prior_identical_stage_prompts
  advanced-WithinLimit run (returns r) h = h
  advanced-WithinLimit run (throws e) h = h

  advance-WithinLimit :
      (run : StageRun) → WithinLimit run → Holds P Q (advance_stage_agent definition run)
  unfolding advance_stage_agent
  advance-WithinLimit run h = advanced-WithinLimit run (definition.step run) h

  ask-WithinLimit :
      (run : StageRun) (m : String)
      → WithinLimit run
      → leb max_identical_stage_prompts (count_prior_identical_stage_prompts run m) ≡ false
      → WithinLimit (calling definition (ask definition run m) m)
  unfolding count_prior_identical_stage_prompts select
  ask-WithinLimit run m h k =
      (ground (arith, eq_text_iff m text), ground (arith, eq_text_iff m text))

  after_answer-WithinLimit :
      (run : StageRun) (m : String) (c : Call Answer)
      → WithinLimit run
      → Holds P Q (after_answer definition run m c)
  unfolding count_prior_identical_stage_prompts select
  after_answer-WithinLimit run m (throws e) h = h
  after_answer-WithinLimit run m (returns no_answer) h = h
  after_answer-WithinLimit run m (returns (answer reply)) h =
      advance-WithinLimit (answered definition run reply) h

  continue-WithinLimit :
      (run : StageRun) (m : String)
      → WithinLimit run
      → Holds P Q (continue_stage_after_user_message definition run m)
  unfolding continue_stage_after_user_message count_prior_identical_stage_prompts select
  continue-WithinLimit run m h =
      if_ind (Holds P Q)
        (leb max_identical_stage_prompts (count_prior_identical_stage_prompts run m)) (λ _. h)
        (λ k.
          after_answer-WithinLimit (calling definition (ask definition run m) m) m
            (definition.ask_user m (calling definition (ask definition run m) m))
            (ask-WithinLimit run m h k))

  request-WithinLimit :
      (run : StageRun) (feedback : String)
      → WithinLimit run
      → Holds P Q (request_revision definition run feedback)
  unfolding request_revision count_prior_identical_stage_prompts select
  request-WithinLimit run feedback h =
      if_ind (Holds P Q) (leb definition.max_reviews run.review_iteration) (λ _. h)
        (λ _. advance-WithinLimit _ h)

  approved-WithinLimit :
      (run : StageRun) (c : Call String)
      → WithinLimit run
      → Holds P Q (approved_with definition run c)
  approved-WithinLimit run (returns result) h = h
  approved-WithinLimit run (throws e) h = h

  reviewed-WithinLimit :
      (run : StageRun) (a : String) (c : Call Review)
      → WithinLimit run
      → Holds P Q (reviewed definition run a c)
  unfolding handle_review_outcome count_prior_identical_stage_prompts select
  reviewed-WithinLimit run a (throws e) h = h
  reviewed-WithinLimit run a (returns pass) h =
      approved-WithinLimit _ (definition.on_approved a _) h
  reviewed-WithinLimit run a (returns (block why)) h = h
  reviewed-WithinLimit run a (returns (revise feedback)) h = request-WithinLimit run feedback h

  persisted-WithinLimit :
      (run : StageRun) (a : String) (c : Call Bool)
      → WithinLimit run
      → Holds P Q (persisted definition run a c)
  unfolding count_prior_identical_stage_prompts select
  persisted-WithinLimit run a (throws e) h = h
  persisted-WithinLimit run a (returns _) h = reviewed-WithinLimit _ a (definition.review a _) h

  handle-WithinLimit :
      (run : StageRun) (r : StageAgentResponse)
      → WithinLimit run
      → Holds P Q (handle_response definition run r)
  unfolding handle_response count_prior_identical_stage_prompts select
  handle-WithinLimit run (message m) h = continue-WithinLimit run m h
  handle-WithinLimit run (artifact_response a) h =
      persisted-WithinLimit _ a (definition.persist_artifacts a _) h

  caught-WithinLimit : (n : Next) → Q n → Q (caught definition n)
  unfolding count_prior_identical_stage_prompts select
  caught-WithinLimit (respond run r) h = h
  caught-WithinLimit (finish run result) h = h
  caught-WithinLimit (raise run workflow_cancelled) h = h
  caught-WithinLimit (raise run blocked_run) h =
      if_ind Q (has_ended definition run.status) (λ _. h) (λ _. h)
  caught-WithinLimit (raise run port_pool_exhausted) h =
      if_ind Q (has_ended definition run.status) (λ _. h) (λ _. h)
  caught-WithinLimit (raise run (error e)) h =
      if_ind Q (has_ended definition run.status) (λ _. h) (λ _. h)

-- However a stage ends, and whatever its agent does, `askUser` was called with the same text at most
-- twice.
pub run_stage-prompts :
    (definition : StageDefinition) (text : String) (fuel : ℕ)
    → Ends (λ n. times_asked text (final_run n) ≤ 2) (run_stage definition fuel)
unfolding run_stage count_prior_identical_stage_prompts select
run_stage-prompts definition text fuel =
    map_next-Ends definition (Q definition text) (λ n. times_asked text (final_run n) ≤ 2)
      (λ n q. within (caught definition n) (caught-WithinLimit definition text n q)) _
      (run_stage_body-Ends definition (P definition text) (Q definition text)
        (handle-WithinLimit definition text) fuel _
        (advance-WithinLimit definition text (set_status chat_in_progress create_stage_run)
          (refl, omega arith)))
  where
    within : (n : Next) → Q definition text n → times_asked text (final_run n) ≤ 2
    within n q = omega (arith, q.0, q.1)
