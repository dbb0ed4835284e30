-- ===== src/DbSync.antt =====
-- The subscriber that writes each event of a run to the database
-- (apps/engine/src/core/dbSync.ts). A handler that throws keeps the writes that it has made.
use beerengineer.Base.{
  ℕ, String, Bool, true, false, not, ◌&&◌, Option, none, some, List, [], ◌∷◌, ◌++◌, ◌||◌, ◌<>◌,
}
use beerengineer.Base.Tests.{if◌then◌else◌, is_some, get_or, split_option}
use beerengineer.Base.Lists.{any}
use beerengineer.Base.Texts.{eq_text, has}
use beerengineer.Base.Maps.{lookup, map_set, add_to}
use beerengineer.Base.Effects.{Result, ok, err, Effect, return, ◌>>=◌, ◌>>◌}
use beerengineer.RunStore.Rows.{
  RunRow, ItemRow, Db, BoardColumn, PhaseStatus, idea, RecoveryStatus, RecoveryScope, has_status,
}
use beerengineer.RunStore.Updates.{
  get_run, get_item, RunPatch, no_patch, update_run, set_item_column, set_item_current_stage,
}
use beerengineer.RunStore.Queries.{list_runs_for_item}
use beerengineer.RunStore.Journal.{
  Journal, DbError, StageRunRow, ProjectRow, create_stage_run, complete_stage_run, append_log,
  record_artifact, create_project, set_run_recovery, clear_run_recovery, StageLogRow,
}
use beerengineer.BoardColumns.{
  map_stage_to_column, StageOutcome, is_running, is_completed, is_failed,
}
use beerengineer.DbSync.Events.{
  EndStatus, ItemColumnChange, RecoveryEventScope, Sync, SyncContext, WorkflowEvent,
  artifact_written, completed, failed, is_failed_status, item_column_changed, log_only, outcome_of,
  presentation, project_created, prompt_answered, run_blocked, run_failed, run_finished,
  run_resumed, run_scope, run_started, stage_completed, stage_scope, stage_started, status_text,
  story_scope,
}
pub mod Events
pub mod Writes
pub mod Authority
pub mod Finish
mod Tests

abbrev pub Handler : Type 0
Handler = Effect Sync DbError (Unit {0})

abbrev pub set_runs : List RunRow → Sync → Sync
set_runs runs s = record s {
  journal = record s.journal { db = record s.journal.db { runs = runs } };
}

abbrev pub set_items : List ItemRow → Sync → Sync
set_items items s = record s {
  journal = record s.journal { db = record s.journal.db { items = items } };
}

-- A statement on the tables.
abbrev pub on_journal : {A : Type 0} → Effect Journal DbError A → Effect Sync DbError A
on_journal statement s = ((statement s.journal).0, record s { journal = (statement s.journal).1 })

abbrev pub change : (Sync → Sync) → Handler
change f s = (ok tt, f s)

module _ (ctx : SyncContext) where
  abbrev pub log :
      (run_id : String) → (stage_run_id : Option String) → (event_type message : String) → Handler
  log run_id stage_run_id event_type message =
      on_journal (append_log run_id stage_run_id event_type message ctx.now)

  abbrev pub change_run : String → RunPatch → Handler
  change_run id patch = change (λ s. set_runs (update_run id patch ctx.now s.journal.db.runs) s)

  abbrev pub live_sibling : RunRow → Bool
  live_sibling r =
      not (eq_text r.id ctx.run_id) && (has_status r "running" || has_status r "blocked")

  unfoldable pub was_sole_live_run : Sync → Bool
  was_sole_live_run s = not (any live_sibling (list_runs_for_item s.journal.db.runs ctx.item_id))

  -- `isAuthoritative`, with the status that a run ends with.
  unfoldable pub is_authoritative : Option EndStatus → Sync → Bool
  unfolding was_sole_live_run
  is_authoritative status s =
      if split_option false is_failed_status status then false else was_sole_live_run s

  abbrev publish : ItemColumnChange → Sync → Sync
  publish c s = if ctx.notifies then record s { published = s.published ++ c ∷ [] } else s

  abbrev column_before : Sync → BoardColumn
  column_before s =
      split_option idea (λ i. i.current_column) (get_item s.journal.db.items ctx.item_id)

  unfoldable pub update_authoritative_item_column : BoardColumn × PhaseStatus → Bool → Sync → Sync
  update_authoritative_item_column (column, phase) can_write s =
      if can_write
      then publish
          (record {
            item_id = ctx.item_id;
            from = column_before s;
            to = column;
            phase_status = phase;
          })
          (set_items (set_item_column ctx.item_id column phase ctx.now s.journal.db.items) s)
      else s

  abbrev update_column : Option String → StageOutcome → Bool → Handler
  update_column stage outcome can_write =
      change (update_authoritative_item_column (map_stage_to_column stage outcome) can_write)

  abbrev pub clear_stage_if : Bool → Handler
  clear_stage_if sole = change (λ s.
      if sole
      then set_items (set_item_current_stage ctx.item_id none ctx.now s.journal.db.items) s
      else s)

  abbrev pub with_status : String → RunPatch
  with_status status = record no_patch { status = some status }

  unfoldable pub persist_run_started_event : String → String → Handler
  persist_run_started_event run_id title = do
    change_run run_id (with_status "running")
    log run_id none "run_started" title

  -- An empty project id is none.
  abbrev pub persisted_project : Option String → Sync → Option String
  persisted_project none s = none
  persisted_project (some id) s =
      if eq_text id "" then none else some (get_or (lookup id s.persisted_project_ids) id)

  abbrev pub remember_stage_run : (stage_run_id stage_key : String) → Handler
  remember_stage_run stage_run_id stage_key = change (λ t. record t {
    persisted_stage_ids = add_to t.persisted_stage_ids stage_run_id;
    stage_run_ids = map_set stage_key stage_run_id t.stage_run_ids;
  })

  -- The part of `persistStageStartedEvent` after the stage run is written.
  unfoldable pub enter_stage : (run_id stage_run_id stage_key : String) → Handler
  unfolding is_authoritative update_authoritative_item_column
  enter_stage run_id stage_run_id stage_key = do
    change_run run_id (record no_patch { current_stage = some (some stage_key) })
    λ t.
        (do
          update_column (some stage_key) is_running (is_authoritative none t)
          change (λ u.
              if is_authoritative none t
              then set_items
                  (set_item_current_stage ctx.item_id (some stage_key) ctx.now u.journal.db.items) u
              else u)
          log run_id (some stage_run_id) "stage_started" ("stage " <> stage_key <> " started"))
          t

  unfoldable pub persist_stage_started_event :
      (run_id stage_run_id stage_key : String) → (project_id : Option String) → Handler
  unfolding enter_stage
  persist_stage_started_event run_id stage_run_id stage_key project_id s =
      if has s.persisted_stage_ids stage_run_id
      then (ok tt, s)
      else (on_journal (
              create_stage_run stage_run_id run_id stage_key (persisted_project project_id s)
                ctx.now)
            >>= λ _.
                remember_stage_run stage_run_id stage_key
                >> enter_stage run_id stage_run_id stage_key)
          s

  -- `event.stageRunId ?? stageRunIds.get(event.stageKey)`.
  abbrev pub stage_run_of : Option String → String → Sync → Option String
  stage_run_of (some id) stage_key s = some id
  stage_run_of none stage_key s = lookup stage_key s.stage_run_ids

  abbrev is_present : Option String → Bool
  is_present none = false
  is_present (some id) = not (eq_text id "")

  abbrev pub complete_stage : Option String → EndStatus → Option String → Handler
  complete_stage none status error = return tt
  complete_stage (some id) status error = change (λ s. if eq_text id "" then s else record s {
    journal = complete_stage_run id (status_text status) error ctx.now s.journal;
  })

  unfoldable pub persist_stage_completed_event :
      (run_id : String)
      → (stage_run_id : Option String) → (stage_key : String) → EndStatus
      → (error : Option String) → Handler
  unfolding is_authoritative update_authoritative_item_column
  persist_stage_completed_event run_id stage_run_id stage_key status error s =
      let id = stage_run_of stage_run_id stage_key s in
      (do
        complete_stage id status error
        λ t. update_column (some stage_key) (outcome_of status) (is_authoritative none t) t
        log run_id id "stage_completed" ("stage " <> stage_key <> " " <> status_text status))
        s

  unfoldable pub persist_artifact_written_event :
      (run_id : String) → (stage_run_id : Option String) → (label kind path : String) → Handler
  persist_artifact_written_event run_id stage_run_id label kind path = do
    on_journal (record_artifact run_id stage_run_id label kind path)
    log run_id stage_run_id "artifact_written" label

  -- `item?.current_stage ?? "documentation"`.
  abbrev pub final_stage : Sync → String
  final_stage s =
      split_option "documentation" (λ i. get_or i.current_stage "documentation")
        (get_item s.journal.db.items ctx.item_id)

  unfoldable pub persist_run_finished_event : String → EndStatus → Handler
  unfolding is_authoritative was_sole_live_run update_authoritative_item_column
  persist_run_finished_event run_id status s =
      let authoritative = is_authoritative (some status) s in
      let sole_live = was_sole_live_run s in
      (do
        change_run run_id (with_status (status_text status))
        λ t. update_column (some (final_stage t)) (outcome_of status) authoritative t
        clear_stage_if sole_live
        log run_id none "run_finished" ("run " <> status_text status))
        s

  unfoldable pub persist_item_column_changed_event : String → BoardColumn → PhaseStatus → Handler
  persist_item_column_changed_event item_id column phase =
      change (λ s. set_items (set_item_column item_id column phase ctx.now s.journal.db.items) s)

  abbrev pub remember_project : (project_id : String) → ProjectRow → Handler
  remember_project project_id project = change (λ s. record s {
    persisted_project_ids = map_set project_id project.id s.persisted_project_ids;
  })

  unfoldable pub persist_project_created_event :
      (run_id item_id project_id fresh code name summary : String) → (position : ℕ) → Handler
  persist_project_created_event run_id item_id project_id fresh code name summary position = do
    project ← on_journal (create_project fresh project_id item_id code name summary position)
    remember_project project_id project
    log run_id none "project_created" name

  abbrev pub event_recovery_scope : RecoveryEventScope → RecoveryScope
  event_recovery_scope run_scope = RecoveryScope.run
  event_recovery_scope (stage_scope id) = RecoveryScope.stage
  event_recovery_scope (story_scope wave id) = RecoveryScope.story

  abbrev pub recovery_scope_ref : RecoveryEventScope → Option String
  recovery_scope_ref run_scope = none
  recovery_scope_ref (stage_scope id) = some id
  recovery_scope_ref (story_scope wave id) = some (ctx.story_ref wave id)

  abbrev pub recovery_text : RecoveryStatus → String
  recovery_text RecoveryStatus.blocked = "blocked"
  recovery_text RecoveryStatus.failed = "failed"

  abbrev event_type_of : RecoveryStatus → String
  event_type_of RecoveryStatus.blocked = "run_blocked"
  event_type_of RecoveryStatus.failed = "run_failed"

  -- The recovery payload that the run had is kept.
  unfoldable pub persist_run_recovery_event :
      String → RecoveryStatus → RecoveryEventScope → (summary : String) → Handler
  unfolding was_sole_live_run
  persist_run_recovery_event run_id status scope summary s =
      let sole_live = was_sole_live_run s in
      let payload =
        split_option none (λ r. r.recovery_payload_json) (get_run s.journal.db.runs run_id) in
      (do
        change_run run_id (with_status (recovery_text status))
        clear_stage_if sole_live
        change (λ t.
            set_runs
              (set_run_recovery run_id (some status) (some (event_recovery_scope scope))
                (recovery_scope_ref scope) (some summary) payload ctx.now t.journal.db.runs)
              t)
        log run_id none (event_type_of status) summary)
        s

  unfoldable pub should_delay_recovery_clear_for_resume : String → Sync → Bool
  should_delay_recovery_clear_for_resume run_id s =
      ctx.is_supabase_provisioning
        (split_option none (λ r. r.recovery_payload_json) (get_run s.journal.db.runs run_id))

  abbrev scope_text : RecoveryEventScope → String
  scope_text run_scope = "run"
  scope_text (stage_scope id) = "stage"
  scope_text (story_scope wave id) = "story"

  unfoldable pub persist_run_resumed_event : String → RecoveryEventScope → Handler
  unfolding should_delay_recovery_clear_for_resume
  persist_run_resumed_event run_id scope = do
    change (λ s.
        if should_delay_recovery_clear_for_resume run_id s
        then s
        else set_runs (clear_run_recovery run_id ctx.now s.journal.db.runs) s)
    log run_id none "run_resumed" ("run resumed from " <> scope_text scope <> " scope")

  unfoldable pub persist : WorkflowEvent → Handler
  unfolding persist_run_started_event persist_stage_started_event persist_stage_completed_event
      persist_artifact_written_event persist_run_finished_event persist_item_column_changed_event
      persist_project_created_event persist_run_recovery_event persist_run_resumed_event
  persist (run_started id title) = persist_run_started_event id title
  persist (stage_started id stage_run_id key project) =
      persist_stage_started_event id stage_run_id key project
  persist (stage_completed id stage_run_id key status error) =
      persist_stage_completed_event id stage_run_id key status error
  persist (prompt_answered id answer from_bridge) =
      if eq_text answer ctx.no_answer_sentinel || from_bridge
      then return tt
      else log id none "prompt_answered" answer
  persist (artifact_written id stage_run_id label kind path) =
      persist_artifact_written_event id stage_run_id label kind path
  persist (run_finished id status) = persist_run_finished_event id status
  persist (item_column_changed item column phase) =
      persist_item_column_changed_event item column phase
  persist (project_created id item project fresh code name summary position) =
      persist_project_created_event id item project fresh code name summary position
  persist (run_blocked id scope summary) =
      persist_run_recovery_event id RecoveryStatus.blocked scope summary
  persist (run_failed id scope summary) =
      persist_run_recovery_event id RecoveryStatus.failed scope summary
  persist (run_resumed id scope) = persist_run_resumed_event id scope
  persist (presentation run_id stage_run_id text) =
      split_option (return tt)
        (λ id. if eq_text id "" then return tt else log id stage_run_id "presentation" text) run_id
  persist (log_only id stage_run_id event_type message) = log id stage_run_id event_type message

  -- The subscription: what a handler throws is caught.
  unfoldable pub on_event : WorkflowEvent → Sync → Sync
  unfolding persist
  on_event event s = (persist event s).1

-- `persistWorkflowEvent`, with the context of the event's run: of all events it writes only a resume
-- and the start of a stage, each once. `item_id` of the context is that of the run.
module _ (ctx : SyncContext) where
  abbrev with_empty_maps : Sync → Sync
  with_empty_maps s = record s {
    stage_run_ids = [];
    persisted_stage_ids = [];
    persisted_project_ids = [];
  }

  abbrev was_resumed : String → Sync → Bool
  was_resumed run_id s =
      any (λ (l : StageLogRow). eq_text l.run_id run_id && eq_text l.event_type "run_resumed")
        s.journal.logs

  abbrev has_stage_run_of : String → String → Sync → Bool
  has_stage_run_of run_id id s =
      any (λ (r : StageRunRow). eq_text r.run_id run_id && eq_text r.id id) s.journal.stage_runs

  unfoldable pub persist_workflow_event : WorkflowEvent → Handler
  unfolding should_delay_recovery_clear_for_resume persist_run_resumed_event
      persist_stage_started_event
  persist_workflow_event (run_resumed id scope) s =
      if was_resumed id s
      then (
        ok tt,
        if should_delay_recovery_clear_for_resume ctx id s
            then s
            else set_runs (clear_run_recovery id ctx.now s.journal.db.runs) s,
      )
      else persist_run_resumed_event ctx id scope s
  persist_workflow_event (stage_started id stage_run_id key project) s =
      if has_stage_run_of id stage_run_id s
      then (ok tt, s)
      else persist_stage_started_event ctx id stage_run_id key project (with_empty_maps s)
  persist_workflow_event _ s = (ok tt, s)
