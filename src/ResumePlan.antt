-- ===== src/ResumePlan.antt =====
-- Where a workflow starts again (`normalizeExecutionResume`, `normalizeProjectResume`,
-- `normalizeItemResume` and `buildDesignPrepPlan` of apps/engine/src/workflow.ts).
use beerengineer.Base.{
  ℕ, zero, suc, ◌+◌, ◌*◌, ◌-◌, String, Bool, true, false, not, ◌&&◌, ◌||◌, Option, none, some, List,
  [], ◌∷◌,
}
use Prim.Native.Char.{Char, code}
use beerengineer.Base.Tests.{if◌then◌else◌, ◌==◌, leb, is_none, is_some, get_or, split_option}
use beerengineer.Base.Texts.{eq_text, before_slash}
use beerengineer.ProjectPipeline.{
  ProjectStageId, requirements, architecture, planning, execution, project_review, qa,
  documentation, handoff, ExecutionResumeOptions, ProjectResumePlan,
}
pub mod Starts
pub mod DesignPrep
mod Tests

-- `RecoveryScope`, without the id of the run.
pub data ResumeScope : Type 0 where
  run_scope : ResumeScope
  stage_scope : (stage_id : String) → ResumeScope
  story_scope : (wave_number : ℕ) → (story_id : String) → ResumeScope

pub data ManualStage : Type 0 where
  manual_visual_companion manual_frontend_design : ManualStage

-- Without `dirtyCheckIgnoredPaths`.
pub record WorkflowResumeInput : Type 0 where
  pub scope : ResumeScope
  pub current_stage : Option String
  pub project_start_stages : Option (List (String × ProjectStageId))
  pub skip_design_prep : Bool
  pub manual_stage : Option ManualStage
  pub skip_merge_gate : Bool

pub data ItemStage : Type 0 where
  brainstorm visual_companion frontend_design projects merge_gate : ItemStage

pub record ItemResumePlan : Type 0 where
  pub start_stage : ItemStage
  pub skip_design_prep : Bool
  pub manual_stage : Option ManualStage
  pub skip_merge_gate : Bool

abbrev onto_first : Char → List String → List String
onto_first c [] = String.◌∷◌ c "" ∷ []
onto_first c (x ∷ xs) = String.◌∷◌ c x ∷ xs

-- `s.split("/")`.
unfoldable pub split_slash : String → List String
split_slash String.[] = "" ∷ []
split_slash (String.◌∷◌ c s) =
    let rest = split_slash s in if code c == b'/' then "" ∷ rest else onto_first c rest

abbrev digits_from : ℕ → String → Option ℕ
digits_from n String.[] = some n
digits_from n (String.◌∷◌ c s) =
    let rest = digits_from (10 * n + (code c - b'0')) s in
    if leb b'0' (code c) && leb (code c) b'9' then rest else none

-- `\d+` and `Number(…)`, exact below 2 ^ 53.
unfoldable pub number_of : String → Option ℕ
number_of String.[] = none
number_of (String.◌∷◌ c s) = digits_from 0 (String.◌∷◌ c s)

abbrev test_writer_of : Option ℕ → String → Option ExecutionResumeOptions
test_writer_of none id = none
test_writer_of (some n) id =
    if eq_text id ""
    then none
    else some (record { wave_number = some n; story_id = some id; rerun_test_writer = true })

abbrev scope_of_parts : List String → Option ExecutionResumeOptions
scope_of_parts (a ∷ b ∷ n ∷ c ∷ id ∷ d ∷ []) =
    if eq_text a "execution" && eq_text b "waves" && eq_text c "stories" && eq_text d "test-writer"
    then test_writer_of (number_of n) id
    else none
scope_of_parts _ = none

-- The pattern `^execution/waves/(\d+)/stories/([^/]+)/test-writer$`.
unfoldable pub normalize_execution_resume : String → Option ExecutionResumeOptions
unfolding split_slash number_of
normalize_execution_resume stage_id = scope_of_parts (split_slash stage_id)

-- The stage that a scope names, where that of a story is `default`.
unfoldable pub stage_id_of : String → WorkflowResumeInput → String
stage_id_of default input = elim input.scope [
  | run_scope ↦ get_or input.current_stage ""
  | stage_scope id ↦ id
  | story_scope _ _ ↦ default
]

abbrev pub story_options :
    ResumeScope → Option ExecutionResumeOptions → Option ExecutionResumeOptions
story_options (story_scope n id) o =
    some (record { wave_number = some n; story_id = some id; rerun_test_writer = false })
story_options _ o = o

-- The project stage of that name.
unfoldable pub project_stage_named : String → Option ProjectStageId
project_stage_named name =
    if eq_text name "requirements"
    then some requirements
    else if eq_text name "architecture"
    then some architecture
    else if eq_text name "planning"
    then some planning
    else if eq_text name "project-review"
    then some project_review
    else if eq_text name "qa"
    then some qa
    else if eq_text name "documentation"
    then some documentation
    else if eq_text name "handoff"
    then some handoff
    else if eq_text name "execution"
    then some execution
    else none

abbrev is_execution : ProjectStageId → Bool
is_execution execution = true
is_execution _ = false

unfoldable pub normalize_project_resume : WorkflowResumeInput → Option ProjectResumePlan
unfolding stage_id_of project_stage_named normalize_execution_resume
normalize_project_resume input =
    let stage_id = stage_id_of "execution" input in
    if eq_text (before_slash stage_id) "brainstorm"
    then none
    else split_option
        (split_option none
          (λ stages. some (record {
            start_stage = requirements;
            execution = none;
            project_start_stages = some stages;
          }))
          input.project_start_stages)
        (λ stage. some (record {
          start_stage = stage;
          execution =
              if is_execution stage
              then story_options input.scope (normalize_execution_resume stage_id)
              else none;
          project_start_stages = input.project_start_stages;
        }))
        (project_stage_named (before_slash stage_id))

unfoldable pub item_stage_named : String → ItemStage
item_stage_named name =
    if eq_text name "brainstorm"
    then brainstorm
    else if eq_text name "visual-companion"
    then visual_companion
    else if eq_text name "frontend-design"
    then frontend_design
    else if eq_text name "merge-gate"
    then merge_gate
    else projects

unfoldable pub normalize_item_resume : WorkflowResumeInput → ItemResumePlan
unfolding stage_id_of item_stage_named
normalize_item_resume input = record {
  start_stage = item_stage_named (before_slash (stage_id_of "projects" input));
  skip_design_prep = input.skip_design_prep;
  manual_stage = input.manual_stage;
  skip_merge_gate = input.skip_merge_gate;
}

abbrev pub is_stage : ItemStage → ItemStage → Bool
is_stage brainstorm brainstorm = true
is_stage visual_companion visual_companion = true
is_stage frontend_design frontend_design = true
is_stage projects projects = true
is_stage merge_gate merge_gate = true
is_stage _ _ = false

pub record DesignPrepPlan : Type 0 where
  pub should_run_visual_companion : Bool
  pub should_run_frontend_design : Bool

abbrev pub is_manual_visual : Option ManualStage → Bool
is_manual_visual (some manual_visual_companion) = true
is_manual_visual _ = false

abbrev pub is_manual_frontend : Option ManualStage → Bool
is_manual_frontend (some manual_frontend_design) = true
is_manual_frontend _ = false

-- With whether each stage's artifact exists.
unfoldable pub build_design_prep_plan :
    (wireframes_file_exists design_file_exists : Bool) → ItemResumePlan → DesignPrepPlan
build_design_prep_plan wireframes_exist design_exists plan =
    let visual =
      is_manual_visual plan.manual_stage
      || (is_none plan.manual_stage
          && (is_stage plan.start_stage brainstorm
              || is_stage plan.start_stage visual_companion
              || not wireframes_exist)) in
    record {
      should_run_visual_companion = visual;
      should_run_frontend_design =
          is_manual_frontend plan.manual_stage
          || (is_none plan.manual_stage
              && (visual || is_stage plan.start_stage frontend_design || not design_exists));
    }
