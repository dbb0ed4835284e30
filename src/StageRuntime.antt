-- ===== src/StageRuntime.antt =====
-- The life of a stage: agent, user and reviewer (apps/engine/src/core/stageRuntime.ts). Writes to disk,
-- times, sessions and presentation events are left out. A cancellation, which the source checks
-- beside every outside call, counts as that call throwing it.
use beerengineer.Base.{
  ℕ, zero, suc, String, Bool, true, false, not, ◌&&◌, ◌||◌, Option, none, some, List, [], ◌∷◌, ◌⊎◌,
  inl, inr,
}
use beerengineer.Base.Tests.{leb, if◌then◌else◌}
use beerengineer.Base.Lists.{length, select}
use beerengineer.Base.Texts.{eq_text}
pub mod Invariants
pub mod Prompts
pub mod Outcome
pub mod Fuel
mod Tests

pub data StageStatus : Type 0 where
  not_started chat_in_progress waiting_for_user artifact_ready in_review revision_requested approved
        blocked failed :
      StageStatus

-- The entries that the runtime itself writes; of a change of status the log keeps the status.
pub data StageLogEntry : Type 0 where
  status_changed : StageStatus → StageLogEntry
  reason : String → StageLogEntry
  stage_message user_message review_revise : String → StageLogEntry
  artifact_created review_pass : StageLogEntry

pub data RecoveryCause : Type 0 where
  review_block review_limit stage_error system_error worktree_port_pool_exhausted : RecoveryCause

-- What a call throws.
pub data Thrown : Type 0 where
  workflow_cancelled blocked_run port_pool_exhausted : Thrown
  error : String → Thrown

-- `StageRun`, with the recovery causes recorded so far, and the texts that `askUser` was called with,
-- of which the source keeps no list. Logs, causes and texts are the latest first.
pub record StageRun : Type 0 where
  pub status : StageStatus
  pub user_turn_count : ℕ
  pub stage_agent_turn_count : ℕ
  pub review_iteration : ℕ
  pub artifact : Option String
  pub logs : List StageLogEntry
  pub recoveries : List RecoveryCause
  pub asked_user : List String

pub data StageAgentResponse : Type 0 where
  message artifact_response : String → StageAgentResponse

pub data Review : Type 0 where
  pass : Review
  block revise : String → Review

pub data Call {ℓ} (A : Type ℓ) : Type ℓ where
  returns : A → Call A
  throws : Thrown → Call A

pub data Answer : Type 0 where
  no_answer : Answer
  answer : String → Answer

-- The adapters: what each call does may depend on the whole run so far.
pub record StageDefinition : Type 0 where
  pub step : StageRun → Call StageAgentResponse
  pub ask_user : String → StageRun → Call Answer
  pub persist_artifacts : String → StageRun → Call Bool
  pub review : String → StageRun → Call Review
  pub on_approved : String → StageRun → Call String
  pub max_reviews : ℕ

abbrev pub push_log : StageLogEntry → StageRun → StageRun
push_log e run = record run { logs = e ∷ run.logs }

abbrev pub set_status : StageStatus → StageRun → StageRun
set_status s run = record run { status = s; logs = status_changed s ∷ run.logs }

abbrev pub create_stage_run : StageRun
create_stage_run = record {
  status = not_started;
  user_turn_count = 0;
  stage_agent_turn_count = 0;
  review_iteration = 0;
  artifact = none;
  logs = [];
  recoveries = [];
  asked_user = [];
}

abbrev pub record_stage_blocked : RecoveryCause → StageRun → StageRun
record_stage_blocked cause run = record run { recoveries = cause ∷ run.recoveries }

abbrev pub max_identical_stage_prompts : ℕ
max_identical_stage_prompts = 2

abbrev pub is_stage_message : String → StageLogEntry → Bool
is_stage_message text (stage_message m) = eq_text m text
is_stage_message text _ = false

unfoldable pub count_prior_identical_stage_prompts : StageRun → String → ℕ
count_prior_identical_stage_prompts run text = length (select (is_stage_message text) run.logs)

abbrev pub block_repeated_stage_prompt : StageRun → String → StageRun
block_repeated_stage_prompt run text =
    record_stage_blocked stage_error (push_log (reason text) (set_status blocked run))

abbrev pub block_review_run : StageRun → String → StageRun
block_review_run run why =
    record_stage_blocked review_block (set_status blocked (push_log (reason why) run))

-- What a part of the loop ends with: the run and the next response, an approved result, or a throw.
pub data Next : Type 0 where
  respond : StageRun → StageAgentResponse → Next
  finish : StageRun → String → Next
  raise : StageRun → Thrown → Next

module _ (definition : StageDefinition) where
  abbrev pub advanced : StageRun → Call StageAgentResponse → Next
  advanced run (returns r) =
      respond (record run { stage_agent_turn_count = suc run.stage_agent_turn_count }) r
  advanced run (throws e) = raise run e

  unfoldable pub advance_stage_agent : StageRun → Next
  advance_stage_agent run = advanced run (definition.step run)

  abbrev pub ask : StageRun → String → StageRun
  ask run text = push_log (stage_message text) (set_status waiting_for_user run)

  -- The call of `askUser`.
  abbrev pub calling : StageRun → String → StageRun
  calling run text = record run { asked_user = text ∷ run.asked_user }

  abbrev pub answered : StageRun → String → StageRun
  answered run text =
      let heard : StageRun = push_log (user_message text) run in
      set_status chat_in_progress (record heard { user_turn_count = suc run.user_turn_count })

  abbrev pub after_answer : StageRun → String → Call Answer → Next
  after_answer run text (throws e) = raise run e
  after_answer run text (returns no_answer) =
      raise (record_stage_blocked stage_error (push_log (reason text) (set_status blocked run)))
        blocked_run
  after_answer run text (returns (answer reply)) = advance_stage_agent (answered run reply)

  unfoldable pub continue_stage_after_user_message : StageRun → String → Next
  continue_stage_after_user_message run text =
      if leb max_identical_stage_prompts (count_prior_identical_stage_prompts run text)
      then raise (block_repeated_stage_prompt run text) blocked_run
      else after_answer (calling (ask run text) text) text
          (definition.ask_user text (calling (ask run text) text))

  unfoldable pub request_revision : StageRun → String → Next
  request_revision run feedback =
      let logged : StageRun = push_log (review_revise feedback) run in
      if leb definition.max_reviews run.review_iteration
      then raise (record_stage_blocked review_limit (set_status blocked logged)) blocked_run
      else advance_stage_agent (set_status revision_requested logged)

  abbrev pub approved_with : StageRun → Call String → Next
  approved_with run (returns result) = finish run result
  approved_with run (throws e) = raise run e

  unfoldable pub handle_review_outcome : StageRun → String → Review → Next
  handle_review_outcome run artifact pass =
      let done : StageRun = set_status approved (push_log review_pass run) in
      approved_with done (definition.on_approved artifact done)
  handle_review_outcome run artifact (block why) = raise (block_review_run run why) blocked_run
  handle_review_outcome run artifact (revise feedback) = request_revision run feedback

  abbrev pub reviewed : StageRun → String → Call Review → Next
  reviewed run artifact (throws e) = raise run e
  reviewed run artifact (returns r) = handle_review_outcome run artifact r

  abbrev pub ready : StageRun → String → StageRun
  ready run text =
      push_log artifact_created (set_status artifact_ready (record run { artifact = some text }))

  abbrev pub under_review : StageRun → StageRun
  under_review run =
      let entered : StageRun = set_status in_review run in
      record entered { review_iteration = suc run.review_iteration }

  abbrev pub persisted : StageRun → String → Call Bool → Next
  persisted run text (throws e) = raise run e
  persisted run text (returns _) =
      reviewed (under_review run) text (definition.review text (under_review run))

  unfoldable pub handle_response : StageRun → StageAgentResponse → Next
  handle_response run (message text) = continue_stage_after_user_message run text
  handle_response run (artifact_response text) =
      persisted (ready run text) text (definition.persist_artifacts text (ready run text))

  -- The loop; the fuel bounds its rounds, and none is given when it runs out.
  abbrev pub proceed : (StageRun → StageAgentResponse → Option Next) → Next → Option Next
  proceed loop (respond run r) = loop run r
  proceed loop (finish run result) = some (finish run result)
  proceed loop (raise run e) = some (raise run e)

  unfoldable pub run_loop : ℕ → StageRun → StageAgentResponse → Option Next
  run_loop zero run r = none
  run_loop (suc fuel) run r = proceed (run_loop fuel) (handle_response run r)

  unfoldable pub run_stage_body : ℕ → StageRun → Option Next
  run_stage_body fuel run = proceed (run_loop fuel) (advance_stage_agent run)

  abbrev pub has_ended : StageStatus → Bool
  has_ended blocked = true
  has_ended failed = true
  has_ended _ = false

  abbrev pub cause_of : Thrown → RecoveryCause
  cause_of port_pool_exhausted = worktree_port_pool_exhausted
  cause_of _ = system_error

  -- The `catch` of `runStage`.
  abbrev pub caught : Next → Next
  caught (raise run workflow_cancelled) = raise run workflow_cancelled
  caught (raise run e) =
      if has_ended run.status
      then raise run e
      else raise (record_stage_blocked (cause_of e) (set_status failed run)) e
  caught next = next

  abbrev pub map_next : (Next → Next) → Option Next → Option Next
  map_next f none = none
  map_next f (some n) = some (f n)

  unfoldable pub run_stage : ℕ → Option Next
  run_stage fuel =
      map_next caught (run_stage_body fuel (set_status chat_in_progress create_stage_run))
