-- ===== src/ItemActions/Types.antt =====
-- The state, the results and the environment of the item actions service
-- (apps/engine/src/core/itemActions.ts).
use beerengineer.Base.{ℕ, String, Bool, Option, List}
use beerengineer.RunStore.Rows.{RunRow, Db, BoardColumn, PhaseStatus}
use beerengineer.ItemActions.Matrix.{ItemAction}
use beerengineer.ItemActions.Readiness.{Scope, Files}

pub record ResumePayload : Type 0 where
  pub summary : String
  pub branch : Option String
  pub commit_sha : Option String
  pub review_notes : Option String

pub record Remediation : Type 0 where
  pub id : String
  pub run_id : String
  pub scope : Scope
  pub payload : ResumePayload
  pub source : String

pub data ItemActionEvent : Type 0 where
  item_column_changed :
      (item_id : String) (from to : BoardColumn) (phase_status : PhaseStatus) → ItemActionEvent

pub record State : Type 0 where
  pub db : Db
  pub remediations : List Remediation
  pub events : List ItemActionEvent

pub data Conflict : Type 0 where
  invalid_transition not_resumable resume_in_progress merge_resolution_incomplete
        manual_resolution_commit_required :
      Conflict

-- `ItemActionResult`. `resume_run` carries the prompt answer, or none when it is to skip the merge
-- gate of the run. A 409 carries its error and message; the summary of a resume is left out.
pub data ItemActionResult : Type 0 where
  state : (item_id : String) → BoardColumn → PhaseStatus → ItemActionResult
  needs_spawn :
      (item_id : String)
      → ItemAction
      → BoardColumn
      → PhaseStatus
      → (run_id remediation_id : Option String) → ItemActionResult
  resume_run :
      (item_id run_id : String)
      → (prompt_answer : Option String) → BoardColumn
      → PhaseStatus
      → ItemActionResult
  item_not_found : ItemActionResult
  conflict :
      Conflict
      → (message : Option String) → BoardColumn
      → PhaseStatus
      → ItemAction
      → ItemActionResult
  remediation_required : ItemAction → ItemActionResult

-- What `validateMergeConflictResolution` finds: nothing wrong, an error, or a failed inspection.
pub data Validation : Type 0 where
  ok : Validation
  failed : Conflict → String → Validation
  inspection_failed : String → Validation

-- What an action reads beside the store: the clock, the identifier of a new row, the resumes under
-- way, the files of a run, the values a prompt's actions offer (none when the text does not parse),
-- the recording of an answer (`answerRunPromptInProcess`), the workspace root of a run, and the
-- merge-conflict artifact in it with the check of the resolution.
pub record Environment : Type 0 where
  pub now : ℕ
  pub new_id : String
  pub inflight : List String
  pub files : Files
  pub action_values : String → List String
  pub answer_run_prompt : (run_id prompt_id answer : String) → Db → Db × Bool
  pub names_conflict : String → Bool
  pub workspace_root : Db → RunRow → Option String
  pub validate : String → Option Validation
