-- ===== src/ProjectPipeline.antt =====
-- The pipeline of a project: its stages in their order, each run or skipped and loaded from disk
-- (apps/engine/src/core/projectStageRegistry.ts and `runProjectStages` of apps/engine/src/workflow.ts).
use beerengineer.Base.{
  ℕ, suc, ◌≡◌, Bool, true, false, ◌&&◌, String, Option, none, some, List, [], ◌∷◌, ◌++◌, arith,
}
use beerengineer.Base.Tests.{if◌then◌else◌, leb, is_none, is_some, get_or, split_option}
use beerengineer.Base.Effects.{Result, ok, err, Effect, return, throw, ◌>>=◌, ◌>>◌}
pub mod Soundness
pub mod Violations
mod Tests

pub data ProjectStageId : Type 0 where
  requirements architecture planning execution project_review qa documentation handoff :
      ProjectStageId

abbrev pub project_stage_order : List ProjectStageId
project_stage_order =
    requirements ∷ architecture ∷ planning ∷ execution ∷ project_review ∷ qa ∷ documentation
    ∷ handoff ∷ []

pub ProjectStageId-discrete : Discrete ProjectStageId
ProjectStageId-discrete = hlevel

-- `a === b`.
abbrev pub eq_stage : ProjectStageId → ProjectStageId → Bool
eq_stage requirements requirements = true
eq_stage architecture architecture = true
eq_stage planning planning = true
eq_stage execution execution = true
eq_stage project_review project_review = true
eq_stage qa qa = true
eq_stage documentation documentation = true
eq_stage handoff handoff = true
eq_stage _ _ = false

-- `stages.indexOf(stage)`, for a stage that is in the list.
abbrev pub index_of : List ProjectStageId → ProjectStageId → ℕ
index_of [] stage = 0
index_of (x ∷ xs) stage = if eq_stage x stage then 0 else suc (index_of xs stage)

pub record ExecutionResumeOptions : Type 0 where
  pub wave_number : Option ℕ
  pub story_id : Option String
  pub rerun_test_writer : Bool

pub record ProjectResumePlan : Type 0 where
  pub start_stage : ProjectStageId
  pub execution : Option ExecutionResumeOptions
  pub project_start_stages : Option (List (String × ProjectStageId))

unfoldable pub should_run_project_stage : Option ProjectResumePlan → ProjectStageId → Bool
should_run_project_stage none stage = true
should_run_project_stage (some resume) stage =
    leb (index_of project_stage_order resume.start_stage) (index_of project_stage_order stage)

-- The artifacts of a `ProjectContext`. The fields that no stage of the pipeline sets are left out,
-- and so is `supabase`, which the planning node sets from its dependencies for the planning stage
-- alone.
pub record ProjectContext (A : Type 0) : Type 0 where
  pub prd : Option A
  pub architecture : Option A
  pub plan : Option A
  pub execution_summaries : Option A
  pub project_review : Option A
  pub documentation : Option A

pub data Missing : Type 0 where
  prd_missing architecture_missing plan_missing execution_missing project_review_missing
        documentation_missing :
      Missing

-- What a stage, a loader or the readiness check throws: a `BlockedRunError`, the error that the pool
-- of worktree ports is exhausted, or another error.
pub data StageError : Type 0 where
  blocked_run : (message : String) → StageError
  port_pool_exhausted_error : (message : String) → StageError
  other_error : (message : String) → StageError

pub data Failure : Type 0 where
  cancelled : Failure
  invariant_violated : Missing → Failure
  stage_failed : StageError → Failure

-- `withStageLifecycle` emits these; the texts of errors are left out.
pub data StageEvent : Type 0 where
  stage_started : ProjectStageId → StageEvent
  stage_completed : ProjectStageId → StageEvent
  stage_completed_failed : ProjectStageId → StageEvent

-- What the pipeline calls, with the dependencies of the project filled in. `S` is the state of all
-- that is outside the pipeline (files, git, models, the cancellation), `A` the contents of artifacts.
pub record Stages (S A : Type 0) : Type 0 where
  -- The stage's function. The result of `qa` and `handoff` is not used.
  pub stage :
      ProjectStageId
      → Option ExecutionResumeOptions
      → ProjectContext A
      → S
      → Result StageError A × S
  -- The loader of the stage's artifact, none when what it reads is undefined or null: the loaders
  -- check neither the parsed JSON nor the field that they take of it.
  pub load : ProjectStageId → ProjectContext A → S → Result StageError (Option A)
  -- `deps.supabaseReadiness`, and the check that it asks for with the plan.
  pub supabase_readiness : Option (A → S → Result StageError (Unit {0}) × S)
  pub is_cancelled : S → Bool

abbrev missing_when : Bool → Missing → Option Missing
missing_when true m = some m
missing_when false m = none

module _ {A : Type 0} where
  -- `assertWithPrd` and so on: what is thrown, or none.
  abbrev pub assert_with_prd : ProjectContext A → Option Missing
  assert_with_prd c = missing_when (is_none c.prd) prd_missing

  abbrev pub assert_with_architecture : ProjectContext A → Option Missing
  assert_with_architecture c =
      if is_some c.prd && is_some c.architecture then none else some architecture_missing

  abbrev pub assert_with_plan : ProjectContext A → Option Missing
  assert_with_plan c =
      if is_some c.prd && is_some c.architecture && is_some c.plan then none else some plan_missing

  abbrev pub assert_with_execution : ProjectContext A → Option Missing
  assert_with_execution c =
      if is_some c.prd && is_some c.architecture && is_some c.plan && is_some c.execution_summaries
      then none
      else some execution_missing

  abbrev pub assert_with_project_review : ProjectContext A → Option Missing
  assert_with_project_review c =
      if is_some c.prd
        && is_some c.architecture
        && is_some c.plan
        && is_some c.execution_summaries
        && is_some c.project_review
      then none
      else some project_review_missing

  abbrev pub assert_with_documentation : ProjectContext A → Option Missing
  assert_with_documentation c =
      if is_some c.prd
        && is_some c.architecture
        && is_some c.plan
        && is_some c.execution_summaries
        && is_some c.project_review
        && is_some c.documentation
      then none
      else some documentation_missing

-- The outside state and the events so far.
pub record Pipeline (S : Type 0) : Type 0 where
  pub outside : S
  pub events : List StageEvent

module _ {S A : Type 0} (stages : Stages S A) where
  abbrev pub Act : Type 0 → Type 0
  Act B = Effect (Pipeline S) Failure B

  abbrev pub lift_result : {B : Type 0} → Result StageError B → Result Failure B
  lift_result (ok b) = ok b
  lift_result (err e) = err (stage_failed e)

  abbrev pub call : {B : Type 0} → (S → Result StageError B × S) → Act B
  call f p = (lift_result (f p.outside).0, record p { outside = (f p.outside).1 })

  abbrev pub load_from : {B : Type 0} → (S → Result StageError B) → Act B
  load_from f p = (lift_result (f p.outside), p)

  abbrev pub require : Option Missing → Act (Unit {0})
  require none p = (ok tt, p)
  require (some m) p = (err (invariant_violated m), p)

  abbrev pub assert_not_cancelled : Act (Unit {0})
  assert_not_cancelled p = if stages.is_cancelled p.outside then (err cancelled, p) else (ok tt, p)

  -- `emitEvent`, through the io of a workflow, which throws once the run is cancelled.
  abbrev pub emit : StageEvent → Act (Unit {0})
  emit e p =
      if stages.is_cancelled p.outside
      then (err cancelled, p)
      else (ok tt, record p { events = p.events ++ e ∷ [] })

  -- The `catch` of `withStageLifecycle`.
  abbrev pub after_stage :
      {B : Type 0} → ProjectStageId → Result Failure B × Pipeline S → Result Failure B × Pipeline S
  after_stage id (ok b, p) = (ok b, p)
  after_stage id (err (stage_failed (blocked_run m)), p) = (err (stage_failed (blocked_run m)), p)
  after_stage id (err e, p) = (emit (stage_completed_failed id) >> throw e) p

  unfoldable pub with_stage_lifecycle : {B : Type 0} → ProjectStageId → Act B → Act B
  with_stage_lifecycle id run = do
    assert_not_cancelled
    emit (stage_started id)
    λ p.
        after_stage id
          ((do result ← run; assert_not_cancelled; emit (stage_completed id); return result) p)

  -- `assertSupabaseReadyBeforeExecution`.
  abbrev pub assert_supabase_ready : Option A → Act (Unit {0})
  assert_supabase_ready (some plan) =
      split_option (return tt) (λ check. call (check plan)) stages.supabase_readiness
  assert_supabase_ready none = return tt

  abbrev no_resume : Option ExecutionResumeOptions
  no_resume = none

  -- The `run` of each node.
  unfoldable pub run_node :
      Option ProjectResumePlan → ProjectStageId → ProjectContext A → Act (ProjectContext A)
  run_node resume requirements c = do
    prd ← call (stages.stage requirements no_resume c)
    return (record c { prd = some prd })
  run_node resume architecture c = do
    require (assert_with_prd c)
    a ← call (stages.stage architecture no_resume c)
    return (record c { architecture = some a })
  run_node resume planning c = do
    require (assert_with_architecture c)
    plan ← call (stages.stage planning no_resume c)
    return (record c { plan = some plan })
  run_node resume execution c = do
    require (assert_with_plan c)
    assert_supabase_ready c.plan
    summaries ← call (stages.stage execution (split_option none (λ r. r.execution) resume) c)
    return (record c { execution_summaries = some summaries })
  run_node resume project_review c = do
    require (assert_with_execution c)
    review ← call (stages.stage project_review no_resume c)
    return (record c { project_review = some review })
  run_node resume qa c = do call (stages.stage qa no_resume c) >>= λ _. return c
  run_node resume documentation c = do
    require (assert_with_project_review c)
    d ← call (stages.stage documentation no_resume c)
    return (record c { documentation = some d })
  run_node resume handoff c = do
    require (assert_with_documentation c)
    call (stages.stage handoff no_resume c) >>= λ _. return c

  -- The `resumeFromDisk` of each node.
  unfoldable pub resume_from_disk : ProjectStageId → ProjectContext A → Act (ProjectContext A)
  resume_from_disk requirements c = do
    prd ← load_from (stages.load requirements c)
    return (record c { prd = prd })
  resume_from_disk architecture c = do
    a ← load_from (stages.load architecture c)
    return (record c { architecture = a })
  resume_from_disk planning c = do
    plan ← load_from (stages.load planning c)
    return (record c { plan = plan })
  resume_from_disk execution c = do
    require (assert_with_plan c)
    summaries ← load_from (stages.load execution c)
    return (record c { execution_summaries = summaries })
  resume_from_disk project_review c = do
    review ← load_from (stages.load project_review c)
    return (record c { project_review = review })
  resume_from_disk qa c = return c
  resume_from_disk documentation c = do
    d ← load_from (stages.load documentation c)
    return (record c { documentation = d })
  resume_from_disk handoff c = return c

  unfoldable pub advance :
      Option ProjectResumePlan → ProjectStageId → ProjectContext A → Act (ProjectContext A)
  unfolding should_run_project_stage with_stage_lifecycle run_node resume_from_disk
  advance resume id c = do
    assert_not_cancelled
    c' ←
        if should_run_project_stage resume id
        then with_stage_lifecycle id (run_node resume id c)
        else resume_from_disk id c
    assert_not_cancelled
    return c'

  unfoldable pub run_nodes :
      Option ProjectResumePlan → List ProjectStageId → ProjectContext A → Act (ProjectContext A)
  unfolding advance
  run_nodes resume [] c = return c
  run_nodes resume (id ∷ ids) c = do c' ← advance resume id c; run_nodes resume ids c'

-- The nodes up to and with a stage.
unfoldable pub nodes_until : List ProjectStageId → ProjectStageId → List ProjectStageId
nodes_until [] stop = []
nodes_until (x ∷ xs) stop = x ∷ (if eq_stage x stop then [] else nodes_until xs stop)

unfoldable pub run_project_stages :
    {S A : Type 0} (stages : Stages S A)
    → Option ProjectResumePlan
    → (stop_after : Option ProjectStageId) → ProjectContext A
    → Pipeline S
    → Result Failure (ProjectContext A) × Pipeline S
unfolding nodes_until run_nodes
run_project_stages stages resume stop_after c =
    run_nodes stages resume
      (split_option project_stage_order (nodes_until project_stage_order) stop_after) c
