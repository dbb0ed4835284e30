-- ===== src/DbSync/Events.antt =====
-- The events of a workflow (apps/engine/src/core/io.ts) and what the subscriber of
-- apps/engine/src/core/dbSync.ts keeps.
use beerengineer.Base.{ℕ, String, Bool, true, false, Option, List}
use beerengineer.RunStore.Rows.{BoardColumn, PhaseStatus}
use beerengineer.RunStore.Journal.{Journal}
use beerengineer.BoardColumns.{StageOutcome, is_completed, is_failed}

pub data RecoveryEventScope : Type 0 where
  run_scope : RecoveryEventScope
  stage_scope : (stage_id : String) → RecoveryEventScope
  story_scope : (wave_number : ℕ) → (story_id : String) → RecoveryEventScope

-- The status of a stage or run that has ended.
pub data EndStatus : Type 0 where
  completed failed : EndStatus

-- An event of the workflow, with the fields that are written. `log_only` stands for the events whose
-- handler only appends a log entry: its fields are the entry's. `fresh` is the id that a new project
-- gets where its own is taken. The two types that no handler takes (startup_recovery and
-- run_recovery_action) are left out.
pub data WorkflowEvent : Type 0 where
  run_started : (run_id title : String) → WorkflowEvent
  stage_started :
      (run_id stage_run_id stage_key : String) → (project_id : Option String) → WorkflowEvent
  stage_completed :
      (run_id : String)
      → (stage_run_id : Option String) → (stage_key : String) → EndStatus
      → (error : Option String) → WorkflowEvent
  prompt_answered : (run_id answer : String) → (from_bridge : Bool) → WorkflowEvent
  artifact_written :
      (run_id : String)
      → (stage_run_id : Option String) → (label kind path : String) → WorkflowEvent
  run_finished : (run_id : String) → EndStatus → WorkflowEvent
  item_column_changed : (item_id : String) → BoardColumn → PhaseStatus → WorkflowEvent
  project_created :
      (run_id item_id project_id fresh code name summary : String) → (position : ℕ) → WorkflowEvent
  run_blocked : (run_id : String) → RecoveryEventScope → (summary : String) → WorkflowEvent
  run_failed : (run_id : String) → RecoveryEventScope → (summary : String) → WorkflowEvent
  run_resumed : (run_id : String) → RecoveryEventScope → WorkflowEvent
  presentation :
      (run_id : Option String) → (stage_run_id : Option String) → (text : String) → WorkflowEvent
  log_only :
      (run_id : String)
      → (stage_run_id : Option String) → (event_type message : String) → WorkflowEvent

-- The payload of `onItemColumnChanged`.
pub record ItemColumnChange : Type 0 where
  pub item_id : String
  pub from : BoardColumn
  pub to : BoardColumn
  pub phase_status : PhaseStatus

-- The tables, the subscriber's maps, and the column changes it has published. The set of written log
-- ids is left out.
pub record Sync : Type 0 where
  pub journal : Journal
  pub stage_run_ids : List (String × String)
  pub persisted_stage_ids : List String
  pub persisted_project_ids : List (String × String)
  pub published : List ItemColumnChange

-- What a subscriber is attached with: its run and item, the time of the event, the text of a
-- story's scope `<wave>/<story>`, the test whether a recovery payload is one of Supabase
-- provisioning, the sentinel answer, and whether `onItemColumnChanged` is given.
pub record SyncContext : Type 0 where
  pub run_id : String
  pub item_id : String
  pub now : ℕ
  pub story_ref : ℕ → String → String
  pub is_supabase_provisioning : Option String → Bool
  pub no_answer_sentinel : String
  pub notifies : Bool

abbrev pub outcome_of : EndStatus → StageOutcome
outcome_of completed = is_completed
outcome_of failed = is_failed

abbrev pub status_text : EndStatus → String
status_text completed = "completed"
status_text failed = "failed"

abbrev pub is_failed_status : EndStatus → Bool
is_failed_status completed = false
is_failed_status failed = true
