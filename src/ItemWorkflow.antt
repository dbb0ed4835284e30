-- ===== src/ItemWorkflow.antt =====
-- The workflow of an item (`runWorkflow` of apps/engine/src/workflow.ts): the stages of the item, the
-- pipelines of its projects, the merge gate, and what is done however it ends.
use beerengineer.Base.{
  ℕ, suc, String, Bool, true, false, not, ◌&&◌, ◌||◌, Option, none, some, List, [], ◌∷◌, ◌++◌, map,
}
use text.Mathlib.Text.{starts_with}
use beerengineer.Base.Tests.{if◌then◌else◌, ◌==◌, is_some, get_or, split_option}
use beerengineer.Base.Lists.{length}
use beerengineer.Base.Sorting.{sort}
use beerengineer.Base.Texts.{eq_text}
use beerengineer.Base.Effects.{Result, ok, err, Effect, return, throw, then_at, ◌>>=◌, ◌>>◌}
use beerengineer.ProjectPipeline.{
  ProjectStageId, ProjectResumePlan, ProjectContext, StageError, blocked_run,
  port_pool_exhausted_error, other_error, Failure, stage_failed, Stages, Pipeline,
  run_project_stages,
}
use beerengineer.ResumePlan.{
  WorkflowResumeInput, ItemStage, brainstorm, projects, merge_gate, ItemResumePlan, is_stage,
  DesignPrepPlan, normalize_item_resume, normalize_project_resume, build_design_prep_plan,
}
pub mod Steps
pub mod Gate
mod Tests

pub data WorkflowFailure : Type 0 where
  workflow_cancelled : WorkflowFailure
  -- A file that is read without a check is not there.
  file_missing : (path : String) → WorkflowFailure
  port_pool_exhausted : WorkflowFailure
  blocked_run_error : (summary : String) → WorkflowFailure
  threw : (message : String) → WorkflowFailure
  -- What the pipeline of a project throws.
  project_failed : (id : String) → Failure → WorkflowFailure

-- What the workflow calls. `S` is the state outside of it, `A` the contents of artifacts. A stage of
-- the item is given with its lifecycle, and a project by its id.
pub record Workflow (S A : Type 0) : Type 0 where
  pub is_cancelled : S → Bool
  pub ensure_git_adapter : Effect S WorkflowFailure (Unit {0})
  -- `ensureItemBranch`, and the check that the workspace is on its base branch.
  pub ensure_item_branch : Effect S WorkflowFailure (Unit {0})
  pub ensure_project_branch : String → Effect S WorkflowFailure (Unit {0})
  pub brainstorm_stage : Effect S WorkflowFailure (List String)
  pub load_projects : S → Result WorkflowFailure (List String)
  -- The project set that the design preparation was made for; none where it cannot be read.
  pub design_prep_freeze : S → Option (List String)
  -- `localeCompare`, as a total order.
  pub text_le : String → String → Bool
  -- The recovery record and the event of a run that is blocked.
  pub record_blocked : S → S
  pub assign_preview_port : Effect S WorkflowFailure (Unit {0})
  -- `itemConcept.hasUi !== false`.
  pub load_concept_has_ui : Effect S WorkflowFailure Bool
  pub wireframes_file : S → Option A
  pub design_file : S → Option A
  pub visual_companion_stage : List String → Effect S WorkflowFailure A
  pub frontend_design_stage : List String → A → Effect S WorkflowFailure A
  pub emit_project_created : String → Effect S WorkflowFailure (Unit {0})
  -- The stages of a project, and its context before them.
  pub stages : String → Stages S A
  pub initial_context : String → (wireframes design : Option A) → ProjectContext A
  pub merge_gate_stage : Effect S WorkflowFailure (Unit {0})
  -- `exitRunToItemBranch` and the last check; what they throw is caught.
  pub exit_run : (preserve_active_branch : Bool) → S → S

-- The outside, the projects of the item once they are known, those whose pipeline has completed, and
-- whether the merge gate was entered.
pub record Working (S : Type 0) : Type 0 where
  pub outside : S
  pub known_projects : List String
  pub finished : List String
  pub gate_entered : Bool

abbrev same_project_set : List String → List String → Bool
same_project_set [] [] = true
same_project_set (x ∷ xs) (y ∷ ys) = eq_text x y && same_project_set xs ys
same_project_set _ _ = false

-- The plan of one project: `{ ...resumePlan, startStage: projectStartStages[id] }` where it is set.
abbrev stage_for : String → List (String × ProjectStageId) → Option ProjectStageId
stage_for id [] = none
stage_for id ((x, s) ∷ xs) = if eq_text x id then some s else stage_for id xs

unfoldable pub project_resume_plan : Option ProjectResumePlan → String → Option ProjectResumePlan
project_resume_plan none id = none
project_resume_plan (some plan) id = some (
    split_option plan (λ s. record plan { start_stage = s })
      (stage_for id (get_or plan.project_start_stages [])))

-- The plan of a workflow that does not resume.
abbrev pub fresh_plan : ItemResumePlan
fresh_plan = record {
  start_stage = brainstorm;
  skip_design_prep = false;
  manual_stage = none;
  skip_merge_gate = false;
}

-- The message of an error, where it may be one of git.
abbrev message_of : WorkflowFailure → String
message_of (threw message) = message
message_of (project_failed id (stage_failed (other_error message))) = message
message_of (project_failed id (stage_failed (blocked_run message))) = message
message_of (project_failed id (stage_failed (port_pool_exhausted_error message))) = message
message_of (blocked_run_error message) = message
message_of _ = ""

abbrev is_port_pool_exhausted : WorkflowFailure → Bool
is_port_pool_exhausted port_pool_exhausted = true
is_port_pool_exhausted (project_failed id (stage_failed (port_pool_exhausted_error message))) = true
is_port_pool_exhausted _ = false

abbrev pub blocks_run : WorkflowFailure → Bool
blocks_run e =
    is_port_pool_exhausted e
    || starts_with (message_of e) "git:"
    || starts_with (message_of e) "branch_gate:"

module _ {S A : Type 0} (env : Workflow S A) where
  abbrev pub Act : Type 0 → Type 0
  Act B = Effect (Working S) WorkflowFailure B

  abbrev pub call : {B : Type 0} → Effect S WorkflowFailure B → Act B
  call f w = ((f w.outside).0, record w { outside = (f w.outside).1 })

  abbrev pub assert_not_cancelled : Act (Unit {0})
  assert_not_cancelled w =
      if env.is_cancelled w.outside then (err workflow_cancelled, w) else (ok tt, w)

  abbrev pub load : {B : Type 0} → (S → Result WorkflowFailure B) → Act B
  load f w = (f w.outside, w)

  abbrev pub read_file : String → (S → Option A) → Act A
  read_file path f w = (split_option (err (file_missing path)) ok (f w.outside), w)

  abbrev pub know_projects : List String → Act (List String)
  know_projects ids w = (ok ids, record w { known_projects = ids })

  unfoldable pub resolve_workflow_projects : ItemResumePlan → Act (List String)
  resolve_workflow_projects plan w =
      if is_stage plan.start_stage brainstorm
      then (call env.brainstorm_stage >>= know_projects) w
      else (do call env.ensure_item_branch; ids ← load env.load_projects; know_projects ids) w

  abbrev pub freeze_fails : List String → Option (List String) → Bool
  freeze_fails ids none = false
  freeze_fails ids (some frozen) =
      not (same_project_set (sort env.text_le ids) (sort env.text_le frozen))

  unfoldable pub assert_design_prep_project_freeze : List String → Act (Unit {0})
  assert_design_prep_project_freeze ids w =
      if freeze_fails ids (env.design_prep_freeze w.outside)
      then (
        err (blocked_run_error "project set changed"),
        record w { outside = env.record_blocked w.outside },
      )
      else (ok tt, w)

  abbrev pub visual : Bool → List String → Act A
  visual true ids = call (env.visual_companion_stage ids)
  visual false ids = read_file "wireframes.json" env.wireframes_file

  abbrev pub frontend : Bool → List String → A → Act A
  frontend true ids wireframes = call (env.frontend_design_stage ids wireframes)
  frontend false ids wireframes = read_file "design.json" env.design_file

  abbrev pub design_prep : DesignPrepPlan → List String → Act (Option A × Option A)
  design_prep prep ids = do
    wireframes ← visual prep.should_run_visual_companion ids
    design ← frontend prep.should_run_frontend_design ids wireframes
    return (some wireframes, some design)

  unfoldable pub resolve_design_prep_artifacts :
      ItemResumePlan → (has_ui : Bool) → List String → Act (Option A × Option A)
  unfolding build_design_prep_plan
  resolve_design_prep_artifacts plan has_ui ids w =
      if not has_ui || plan.skip_design_prep
      then (ok (none, none), w)
      else design_prep
          (build_design_prep_plan (is_some (env.wireframes_file w.outside))
            (is_some (env.design_file w.outside)) plan)
          ids w

  unfoldable pub emit_workflow_projects_created : List String → Act (Unit {0})
  emit_workflow_projects_created [] = return tt
  emit_workflow_projects_created (id ∷ ids) = do
    call (env.emit_project_created id)
    emit_workflow_projects_created ids

  abbrev of_pipeline : {B : Type 0} → String → Result Failure B → Result WorkflowFailure (Unit {0})
  of_pipeline id (ok c) = ok tt
  of_pipeline id (err e) = err (project_failed id e)

  -- One project: its branch and its pipeline.
  unfoldable pub run_project :
      Option ProjectResumePlan → Option A × Option A → String → Act (Unit {0})
  unfolding run_project_stages project_resume_plan
  run_project resume artifacts id = do
    call (env.ensure_project_branch id)
    λ w.
        let ran =
          run_project_stages (env.stages id) (project_resume_plan resume id) none
            (env.initial_context id artifacts.0 artifacts.1)
            (record { outside = w.outside; events = [] }) in
        (of_pipeline id ran.0, record w { outside = ran.1.outside })

  abbrev pub finish_project : String → Act (Unit {0})
  finish_project id w = (ok tt, record w { finished = w.finished ++ id ∷ [] })

  unfoldable pub run_workflow_projects :
      Option ProjectResumePlan → Option A × Option A → List String → Act (Unit {0})
  unfolding run_project
  run_workflow_projects resume artifacts [] = return tt
  run_workflow_projects resume artifacts (id ∷ ids) = do
    run_project resume artifacts id
    finish_project id
    run_workflow_projects resume artifacts ids

  abbrev pub enter_gate : Act (Unit {0})
  enter_gate w = (ok tt, record w { gate_entered = true })

  abbrev pub projects_unless_merging :
      ItemResumePlan → Option ProjectResumePlan → Option A × Option A → List String → Act (Unit {0})
  projects_unless_merging plan resume artifacts ids w =
      if is_stage plan.start_stage merge_gate
      then (ok tt, w)
      else run_workflow_projects resume artifacts ids w

  abbrev pub merge_unless_skipped : ItemResumePlan → Act (Unit {0})
  merge_unless_skipped plan w =
      if plan.skip_merge_gate then (ok tt, w) else (enter_gate >> call env.merge_gate_stage) w

  abbrev pub freeze_at_projects : ItemResumePlan → List String → Act (Unit {0})
  freeze_at_projects plan ids w =
      if is_stage plan.start_stage projects
      then assert_design_prep_project_freeze ids w
      else (ok tt, w)

  -- What follows the design preparation.
  unfoldable pub deliver :
      ItemResumePlan → Option ProjectResumePlan → Option A × Option A → List String → Act (Unit {0})
  unfolding emit_workflow_projects_created run_workflow_projects
  deliver plan resume artifacts ids = do
    assert_not_cancelled
    emit_workflow_projects_created ids
    projects_unless_merging plan resume artifacts ids
    merge_unless_skipped plan
    assert_not_cancelled

  -- The body of the `try`.
  unfoldable pub workflow_body : ItemResumePlan → Option ProjectResumePlan → Act (Unit {0})
  unfolding resolve_workflow_projects assert_design_prep_project_freeze
      resolve_design_prep_artifacts deliver
  workflow_body plan resume = do
    call env.ensure_item_branch
    ids ← resolve_workflow_projects plan
    assert_not_cancelled
    freeze_at_projects plan ids
    call env.assign_preview_port
    has_ui ← call env.load_concept_has_ui
    assert_not_cancelled
    artifacts ← resolve_design_prep_artifacts plan has_ui ids
    deliver plan resume artifacts ids

  -- `handleWorkflowFailure`: the error that is thrown in the end.
  unfoldable pub handle_workflow_failure : WorkflowFailure → Act (Unit {0})
  handle_workflow_failure e w =
      if blocks_run e
      then (
        err (blocked_run_error "run blocked"),
        record w { outside = env.record_blocked w.outside },
      )
      else (err e, w)

  abbrev pub caught :
      Result WorkflowFailure (Unit {0}) × Working S → Result WorkflowFailure (Unit {0}) × Working S
  caught (ok u, w) = (ok u, record w { outside = env.exit_run false w.outside })
  caught (err e, w) =
      let handled = handle_workflow_failure e w in
      (handled.0, record handled.1 { outside = env.exit_run true handled.1.outside })

  unfoldable pub run_workflow : Option WorkflowResumeInput → Act (Unit {0})
  unfolding workflow_body handle_workflow_failure normalize_item_resume normalize_project_resume
  run_workflow resume = do
    assert_not_cancelled
    call env.ensure_git_adapter
    λ w. caught (
        workflow_body (split_option fresh_plan normalize_item_resume resume)
          (split_option none normalize_project_resume resume) w)
