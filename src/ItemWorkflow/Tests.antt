-- ===== src/ItemWorkflow/Tests.antt =====
-- An item with two projects, whose artifacts are texts kept in one file per stage.
use beerengineer.Base.{String, ◌<>◌, ◌≡◌, refl, true, false, Option, none, some, [], ◌∷◌}
use beerengineer.Base.Tests.{if◌then◌else◌, get_or}
use beerengineer.Base.Texts.{eq_text, before_slash}
use beerengineer.Base.Effects.{Result, ok, err, Outcome}
use beerengineer.ProjectPipeline.{
  ProjectStageId, requirements, architecture, planning, ProjectContext, StageError, other_error,
  Stages, eq_stage,
}
use beerengineer.ResumePlan.{stage_scope, WorkflowResumeInput, manual_visual_companion}
use beerengineer.ItemWorkflow.{Workflow, Working, file_missing, run_workflow}
use beerengineer.ItemWorkflow.Steps.{At}
use beerengineer.ItemWorkflow.Gate.{Reason, Safe, item_plan, run_workflow-gate}

-- The files of the stages of the projects: one per stage, whatever the project is.
abbrev Disk : Type 0
Disk = ProjectStageId → Option String

abbrev write : ProjectStageId → String → Disk → Disk
write id a disk other = if eq_stage id other then some a else disk other

abbrev read : Option String → Result StageError (Option String)
read none = err (other_error "ENOENT")
read (some a) = ok (some a)

-- The plan names the architecture that it was made from; every other artifact names its project.
abbrev artifact : String → ProjectStageId → ProjectContext String → String
artifact project planning c = project <> " from " <> get_or c.architecture ""
artifact project id c = project

abbrev stages : String → Stages Disk String
stages project = record {
  stage = λ id o c disk. (ok (artifact project id c), write id (artifact project id c) disk);
  load = λ id c disk. read (disk id);
  supabase_readiness = none;
  is_cancelled = λ disk. false;
}

abbrev env : Workflow Disk String
env = record {
  is_cancelled = λ disk. false;
  ensure_git_adapter = λ disk. (ok tt, disk);
  ensure_item_branch = λ disk. (ok tt, disk);
  ensure_project_branch = λ id disk. (ok tt, disk);
  brainstorm_stage = λ disk. (ok ("P1" ∷ "P2" ∷ []), disk);
  load_projects = λ disk. ok ("P1" ∷ "P2" ∷ []);
  design_prep_freeze = λ disk. none;
  text_le = λ s t. true;
  record_blocked = λ disk. disk;
  assign_preview_port = λ disk. (ok tt, disk);
  load_concept_has_ui = λ disk. (ok true, disk);
  wireframes_file = λ disk. some "wireframes";
  design_file = λ disk. none;
  visual_companion_stage = λ ids disk. (ok "wireframes", disk);
  frontend_design_stage = λ ids wireframes disk. (ok "design", disk);
  emit_project_created = λ id disk. (ok tt, disk);
  stages = stages;
  initial_context = λ id wireframes design. record {
    prd = none;
    architecture = none;
    plan = none;
    execution_summaries = none;
    project_review = none;
    documentation = none;
  };
  merge_gate_stage = λ disk. (ok tt, disk);
  exit_run = λ preserve disk. disk;
}

abbrev start : Disk → Working Disk
start disk = record { outside = disk; known_projects = []; finished = []; gate_entered = false }

abbrev resume_at : String → WorkflowResumeInput
resume_at stage = record {
  scope = stage_scope stage;
  current_stage = none;
  project_start_stages = none;
  skip_design_prep = true;
  manual_stage = none;
  skip_merge_gate = false;
}

both_finished : (run_workflow env none (start (λ id. none))).1.finished ≡ "P1" ∷ "P2" ∷ []
unfolding run_workflow
both_finished = refl

fresh_plan_of_second :
    (run_workflow env none (start (λ id. none))).1.outside planning ≡ some "P2 from P2"
unfolding run_workflow
fresh_plan_of_second = refl

-- The first project was interrupted in its planning. The second, which has not begun, is resumed
-- there too, and plans from the architecture of the first.
resumed_plan_of_second :
    (run_workflow env
        (some (resume_at "planning"))
        (start (write requirements "P1" (write architecture "P1" (λ id. none))))).1.outside
      planning
    ≡ some "P2 from P1"
unfolding run_workflow before_slash eq_text
resumed_plan_of_second = refl

-- The wireframes alone are made again, and the design, which was never made, is then read.
manual_visual_fails :
    (run_workflow env
      (some (record (resume_at "visual-companion") {
        skip_design_prep = false;
        manual_stage = some manual_visual_companion;
      }))
      (start (λ id. none))).0
    ≡ err (file_missing "design.json")
unfolding run_workflow before_slash eq_text
manual_visual_fails = refl

run_workflow-gate_example :
    Outcome
      (λ _. At (Reason (item_plan (some (resume_at "planning")))))
      (At (Safe (item_plan (some (resume_at "planning")))))
      (run_workflow env
        (some (resume_at "planning"))
        (start (write requirements "P1" (write architecture "P1" (λ id. none)))))
run_workflow-gate_example =
    run_workflow-gate env (some (resume_at "planning"))
      (start (write requirements "P1" (write architecture "P1" (λ id. none)))) refl refl
