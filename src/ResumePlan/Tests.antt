-- ===== src/ResumePlan/Tests.antt =====
-- Resumes at a stage, at a story and at the test writer of a story.
use beerengineer.Base.{◌≡◌, refl, true, false, none, some}
use beerengineer.Base.Texts.{eq_text, before_slash}
use beerengineer.ProjectPipeline.{project_review, execution}
use beerengineer.ResumePlan.{
  ResumeScope, stage_scope, story_scope, WorkflowResumeInput, projects, normalize_execution_resume,
  stage_id_of, normalize_project_resume, normalize_item_resume,
}
use beerengineer.ResumePlan.Starts.{normalize_resume-stage_name, normalize_resume-agree}

abbrev at : ResumeScope → WorkflowResumeInput
at scope = record {
  scope = scope;
  current_stage = none;
  project_start_stages = none;
  skip_design_prep = false;
  manual_stage = none;
  skip_merge_gate = false;
}

test_writer :
    normalize_execution_resume "execution/waves/12/stories/US-3/test-writer"
    ≡ some (record { wave_number = some 12; story_id = some "US-3"; rerun_test_writer = true })
unfolding normalize_execution_resume eq_text
test_writer = refl

not_a_number : normalize_execution_resume "execution/waves/x/stories/US-3/test-writer" ≡ none
unfolding normalize_execution_resume eq_text
not_a_number = refl

-- An unknown stage starts every project from its first stage.
unknown_stage : normalize_project_resume (at (stage_scope "deployment")) ≡ none
unfolding normalize_project_resume before_slash eq_text
unknown_stage = refl

story_plan :
    normalize_project_resume (at (story_scope 2 "US-3"))
    ≡ some (record {
      start_stage = execution;
      execution =
          some (record { wave_number = some 2; story_id = some "US-3"; rerun_test_writer = false });
      project_start_stages = none;
    })
unfolding normalize_project_resume before_slash eq_text
story_plan = refl

normalize_resume-stage_name_example :
    (normalize_project_resume (at (stage_scope "project-review"))
      ≡ some
          (record { start_stage = project_review; execution = none; project_start_stages = none }))
    × ((normalize_item_resume (at (stage_scope "project-review"))).start_stage ≡ projects)
normalize_resume-stage_name_example =
    normalize_resume-stage_name (at (stage_scope "project-review")) project_review refl

normalize_resume-agree_example :
    ((normalize_item_resume (at (story_scope 2 "US-3"))).start_stage ≡ projects)
    × (before_slash (stage_id_of "execution" (at (story_scope 2 "US-3"))) ≡ "execution")
normalize_resume-agree_example =
    normalize_resume-agree (at (story_scope 2 "US-3"))
      (record {
        start_stage = execution;
        execution =
            some
              (record { wave_number = some 2; story_id = some "US-3"; rerun_test_writer = false });
        project_start_stages = none;
      })
      refl story_plan
