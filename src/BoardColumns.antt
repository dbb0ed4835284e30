-- ===== src/BoardColumns.antt =====
-- The board column of a stage (apps/engine/src/core/boardColumns.ts).
use beerengineer.Base.{String, ◌||◌, Option, none, some}
use beerengineer.Base.Tests.{if◌then◌else◌}
use beerengineer.Base.Texts.{eq_text}
use beerengineer.RunStore.Rows.{
  BoardColumn, idea, brainstorm, frontend, requirements, implementation, merge, done, PhaseStatus,
  draft, running, review_required, completed, failed,
}

pub data StageOutcome : Type 0 where
  is_running is_completed is_failed : StageOutcome

abbrev pub phase_of : StageOutcome → PhaseStatus
phase_of is_running = running
phase_of is_completed = completed
phase_of is_failed = failed

abbrev merge_gate : StageOutcome → BoardColumn × PhaseStatus
merge_gate is_completed = (done, completed)
merge_gate _ = (merge, review_required)

abbrev column_of : String → BoardColumn
column_of stage =
    if eq_text stage "brainstorm"
    then brainstorm
    else if eq_text stage "visual-companion" || eq_text stage "frontend-design"
    then frontend
    else if eq_text stage "requirements"
    then requirements
    else implementation

-- A missing or empty key is on no stage. The keys of the implementation column, and unknown ones,
-- are on `implementation`.
unfoldable pub map_stage_to_column : Option String → StageOutcome → BoardColumn × PhaseStatus
map_stage_to_column none outcome = (idea, draft)
map_stage_to_column (some stage) outcome =
    if eq_text stage ""
    then (idea, draft)
    else if eq_text stage "merge-gate"
    then merge_gate outcome
    else (column_of stage, phase_of outcome)
