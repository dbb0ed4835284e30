-- ===== src/ResumePlan/Starts.antt =====
-- The names of the stages, and where a resume starts (`normalizeProjectResume` and
-- `normalizeItemResume` of workflow.ts).
use beerengineer.Base.{String, ◌≡◌, refl, ap, ◌∙◌, sym, subst, Option, none, some, arith}
use beerengineer.Base.Tests.{if◌then◌else◌, if_ind, split_option, split_option_ind}
use beerengineer.Base.Texts.{eq_text, eq_text_iff, before_slash}
use beerengineer.ProjectPipeline.{
  ProjectStageId, requirements, architecture, planning, execution, project_review, qa,
  documentation, handoff, ProjectResumePlan,
}
use beerengineer.ResumePlan.{
  ResumeScope, run_scope, stage_scope, story_scope, WorkflowResumeInput, projects, stage_id_of,
  project_stage_named, split_slash, normalize_execution_resume, item_stage_named,
  normalize_project_resume, normalize_item_resume,
}

-- The name of a stage, as its events and its recovery records spell it.
abbrev pub stage_name : ProjectStageId → String
stage_name requirements = "requirements"
stage_name architecture = "architecture"
stage_name planning = "planning"
stage_name execution = "execution"
stage_name project_review = "project-review"
stage_name qa = "qa"
stage_name documentation = "documentation"
stage_name handoff = "handoff"

project_stage_named-stage_name : (s : ProjectStageId) → project_stage_named (stage_name s) ≡ some s
unfolding project_stage_named eq_text
project_stage_named-stage_name requirements = refl
project_stage_named-stage_name architecture = refl
project_stage_named-stage_name planning = refl
project_stage_named-stage_name execution = refl
project_stage_named-stage_name project_review = refl
project_stage_named-stage_name qa = refl
project_stage_named-stage_name documentation = refl
project_stage_named-stage_name handoff = refl

-- A name of a project stage is no name of an item stage.
stage_name-projects : (s : ProjectStageId) → item_stage_named (stage_name s) ≡ projects
unfolding item_stage_named eq_text
stage_name-projects requirements = refl
stage_name-projects architecture = refl
stage_name-projects planning = refl
stage_name-projects execution = refl
stage_name-projects project_review = refl
stage_name-projects qa = refl
stage_name-projects documentation = refl
stage_name-projects handoff = refl

-- One test of a name.
named_by :
    (name n : String) (t s : ProjectStageId) (rest : Option ProjectStageId)
    → n ≡ stage_name t
    → (rest ≡ some s → name ≡ stage_name s)
    → (if eq_text name n then some t else rest) ≡ some s
    → name ≡ stage_name s
named_by name n t s rest e k =
    if_ind (λ o. o ≡ some s → name ≡ stage_name s) (eq_text name n)
      (λ b h. cc (e, (eq_text_iff name n).0 b, h)) (λ _. k)

-- A text names the stage that it gives.
stage_name-project_stage_named :
    (name : String) (s : ProjectStageId) → project_stage_named name ≡ some s → name ≡ stage_name s
unfolding project_stage_named
stage_name-project_stage_named name s = named_by name _ requirements s _ refl (
    named_by name _ architecture s _ refl (
      named_by name _ planning s _ refl (
        named_by name _ project_review s _ refl (
          named_by name _ qa s _ refl (
            named_by name _ documentation s _ refl (
              named_by name _ handoff s _ refl
                (named_by name "execution" execution s none refl (λ h. ground arith))))))))

-- A resume at the scope of a stage of the project starts at that stage, whatever else the input
-- says, and goes past the stages of the item.
pub normalize_resume-stage_name :
    (input : WorkflowResumeInput) (s : ProjectStageId)
    → input.scope ≡ stage_scope (stage_name s)
    → (normalize_project_resume input
        ≡ some (record {
          start_stage = s;
          execution = none;
          project_start_stages = input.project_start_stages;
        }))
      × ((normalize_item_resume input).start_stage ≡ projects)
unfolding normalize_project_resume normalize_item_resume normalize_execution_resume stage_id_of
    split_slash project_stage_named item_stage_named before_slash eq_text
normalize_resume-stage_name input s h = subst Starts (sym h) (starts s)
  where
    Starts : ResumeScope → Type 0
    Starts scope =
        (normalize_project_resume (record input { scope = scope })
          ≡ some (record {
            start_stage = s;
            execution = none;
            project_start_stages = input.project_start_stages;
          }))
        × ((normalize_item_resume (record input { scope = scope })).start_stage ≡ projects)

    starts :
        (t : ProjectStageId)
        → (normalize_project_resume (record input { scope = stage_scope (stage_name t) })
            ≡ some (record {
              start_stage = t;
              execution = none;
              project_start_stages = input.project_start_stages;
            }))
          × ((normalize_item_resume
                (record input { scope = stage_scope (stage_name t) })).start_stage
              ≡ projects)
    starts requirements = (refl, refl)
    starts architecture = (refl, refl)
    starts planning = (refl, refl)
    starts execution = (refl, refl)
    starts project_review = (refl, refl)
    starts qa = (refl, refl)
    starts documentation = (refl, refl)
    starts handoff = (refl, refl)

story_stage : item_stage_named (before_slash "projects") ≡ projects
unfolding item_stage_named before_slash eq_text
story_stage = refl

module _ (input : WorkflowResumeInput) where
  -- A scope that names a stage of the project names none of the item.
  start_stage-projects :
      (scope : ResumeScope) (s : ProjectStageId)
      → before_slash (stage_id_of "execution" (record input { scope = scope })) ≡ stage_name s
      → item_stage_named (before_slash (stage_id_of "projects" (record input { scope = scope })))
        ≡ projects
  unfolding stage_id_of
  start_stage-projects run_scope s h = ap item_stage_named h ∙ stage_name-projects s
  start_stage-projects (stage_scope id) s h = ap item_stage_named h ∙ stage_name-projects s
  start_stage-projects (story_scope n id) s h = story_stage

  -- Without start stages of single projects, a workflow that resumes inside of the projects goes past
  -- the stages of the item, and starts at the stage that its input names (the execution, for a
  -- story).
  pub normalize_resume-agree :
      (plan : ProjectResumePlan)
      → input.project_start_stages ≡ none
      → normalize_project_resume input ≡ some plan
      → ((normalize_item_resume input).start_stage ≡ projects)
        × (before_slash (stage_id_of "execution" input) ≡ stage_name plan.start_stage)
  unfolding normalize_project_resume normalize_item_resume
  normalize_resume-agree plan e =
      if_ind (λ o. o ≡ some plan → Agrees)
        (eq_text (before_slash (stage_id_of "execution" input)) "brainstorm") (λ _ h. ground arith)
        (λ _.
          split_option_ind (λ o. o ≡ some plan → Agrees)
            (project_stage_named (before_slash (stage_id_of "execution" input)))
            (λ _.
              split_option_ind (λ o. o ≡ some plan → Agrees) input.project_start_stages
                (λ _ h. ground arith) (λ _ k. cc (e, k)))
            (λ s found h.
              let named = stage_name-project_stage_named _ s found in
              let same =
                ap (λ (o : Option ProjectResumePlan). split_option s (λ p. p.start_stage) o) h in
              (start_stage-projects input.scope s named, named ∙ ap stage_name same)))
    where
      Agrees : Type 0
      Agrees =
          ((normalize_item_resume input).start_stage ≡ projects)
          × (before_slash (stage_id_of "execution" input) ≡ stage_name plan.start_stage)
