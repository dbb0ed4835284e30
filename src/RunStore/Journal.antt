-- ===== src/RunStore/Journal.antt =====
-- The tables that record what happened in a run (`stage_runs`, `stage_logs`, `artifact_files`,
-- `projects`), and the statements of apps/engine/src/db/repositories/repos.ts on them. Foreign keys
-- are on: an insert that violates a key throws and inserts nothing.
use beerengineer.Base.{
  ℕ, String, Bool, true, false, not, ◌&&◌, Option, none, some, List, [], ◌∷◌, ◌++◌, map,
}
use beerengineer.Base.Tests.{if◌then◌else◌, is_some, split_option}
use beerengineer.Base.Lists.{any, find}
use beerengineer.Base.Texts.{eq_text, is_text}
use beerengineer.Base.Effects.{ok, err, Effect}
use beerengineer.RunStore.Rows.{RunRow, Db, RecoveryStatus, RecoveryScope}
use beerengineer.RunStore.Updates.{get_run, get_item, RunPatch, no_patch, update_run}

-- `StageRunRow`, without its session ids and times of creation and start.
pub record StageRunRow : Type 0 where
  pub id : String
  pub run_id : String
  pub project_id : Option String
  pub stage_key : String
  pub status : String
  pub completed_at : Option ℕ
  pub error_message : Option String
  pub updated_at : ℕ

-- `StageLogRow`, without its id and data.
pub record StageLogRow : Type 0 where
  pub run_id : String
  pub stage_run_id : Option String
  pub event_type : String
  pub message : String
  pub created_at : ℕ

pub record ArtifactFileRow : Type 0 where
  pub run_id : Option String
  pub stage_run_id : Option String
  pub label : String
  pub kind : String
  pub path : String

pub record ProjectRow : Type 0 where
  pub id : String
  pub item_id : String
  pub code : String
  pub name : String
  pub summary : String
  pub status : String
  pub position : ℕ

pub record Journal : Type 0 where
  pub db : Db
  pub stage_runs : List StageRunRow
  pub logs : List StageLogRow
  pub artifacts : List ArtifactFileRow
  pub projects : List ProjectRow

pub data DbError : Type 0 where
  constraint_failed : DbError

abbrev pub has_run : Journal → String → Bool
has_run j id = is_some (get_run j.db.runs id)

abbrev pub has_stage_run : Journal → String → Bool
has_stage_run j id = any (λ (s : StageRunRow). eq_text s.id id) j.stage_runs

abbrev pub has_project : Journal → String → Bool
has_project j id = any (λ (p : ProjectRow). eq_text p.id id) j.projects

-- A nullable reference is valid if it is null or found.
abbrev pub is_reference : (String → Bool) → Option String → Bool
is_reference found none = true
is_reference found (some id) = found id

-- An insert that its keys allow.
abbrev pub insert_when : {A : Type 0} → Bool → A → Journal → Effect Journal DbError A
insert_when allowed row inserted j =
    if allowed then (ok row, inserted) else (err constraint_failed, j)

unfoldable pub create_stage_run :
    (id run_id stage_key : String)
    → (project_id : Option String) → (now : ℕ) → Effect Journal DbError StageRunRow
create_stage_run id run_id stage_key project_id now j =
    let row : StageRunRow = record {
      id = id;
      run_id = run_id;
      project_id = project_id;
      stage_key = stage_key;
      status = "running";
      completed_at = none;
      error_message = none;
      updated_at = now;
    } in
    insert_when
      (not (has_stage_run j id) && has_run j run_id && is_reference (has_project j) project_id) row
      (record j { stage_runs = j.stage_runs ++ row ∷ [] }) j

unfoldable pub complete_stage_run :
    (id status : String) → (error_message : Option String) → (now : ℕ) → Journal → Journal
complete_stage_run id status error_message now j = record j {
  stage_runs =
      map
        (λ (s : StageRunRow).
          if eq_text s.id id
          then record s {
            status = status;
            completed_at = some now;
            error_message = error_message;
            updated_at = now;
          }
          else s)
        j.stage_runs;
}

-- `UPDATE runs SET updated_at = ?`, the same for a stage run.
abbrev pub touch : (run_id : String) → (stage_run_id : Option String) → ℕ → Journal → Journal
touch run_id stage_run_id now j = record j {
  db = record j.db { runs = update_run run_id no_patch now j.db.runs };
  stage_runs =
      map
        (λ (s : StageRunRow).
          if is_text stage_run_id s.id then record s { updated_at = now } else s)
        j.stage_runs;
}

-- An empty `stageRunId` violates the key as any unknown one does.
unfoldable pub append_log :
    (run_id : String)
    → (stage_run_id : Option String) → (event_type message : String) → (now : ℕ)
    → Effect Journal DbError (Unit {0})
append_log run_id stage_run_id event_type message now j =
    let row : StageLogRow = record {
      run_id = run_id;
      stage_run_id = stage_run_id;
      event_type = event_type;
      message = message;
      created_at = now;
    } in
    insert_when (has_run j run_id && is_reference (has_stage_run j) stage_run_id) tt
      (touch run_id stage_run_id now (record j { logs = j.logs ++ row ∷ [] })) j

unfoldable pub record_artifact :
    (run_id : String)
    → (stage_run_id : Option String) → (label kind path : String)
    → Effect Journal DbError (Unit {0})
record_artifact run_id stage_run_id label kind path j =
    let row : ArtifactFileRow = record {
      run_id = some run_id;
      stage_run_id = stage_run_id;
      label = label;
      kind = kind;
      path = path;
    } in
    insert_when (has_run j run_id && is_reference (has_stage_run j) stage_run_id) tt
      (record j { artifacts = j.artifacts ++ row ∷ [] }) j

abbrev is_taken_by_other : Option ProjectRow → String → Bool
is_taken_by_other none item_id = false
is_taken_by_other (some p) item_id = not (eq_text p.item_id item_id)

-- `fresh` is the id of `randomUUID`, for an id that another item's project has.
unfoldable pub create_project :
    (fresh id item_id code name summary : String)
    → (position : ℕ) → Effect Journal DbError ProjectRow
create_project fresh id item_id code name summary position j =
    let row : ProjectRow = record {
      id =
          if is_taken_by_other (find (λ (p : ProjectRow). eq_text p.id id) j.projects) item_id
          then fresh
          else id;
      item_id = item_id;
      code = code;
      name = name;
      summary = summary;
      status = "draft";
      position = position;
    } in
    split_option
      (insert_when (not (has_project j row.id) && is_some (get_item j.db.items item_id)) row
        (record j { projects = j.projects ++ row ∷ [] }) j)
      (λ existing. (ok existing, j))
      (find (λ (p : ProjectRow). eq_text p.item_id item_id && eq_text p.code code) j.projects)

-- The columns that `setRunRecovery` writes.
abbrev pub recovery_patch :
    Option RecoveryStatus
    → Option RecoveryScope
    → (scope_ref summary payload : Option String) → RunPatch
recovery_patch status scope scope_ref summary payload = record no_patch {
  recovery_status = some status;
  recovery_scope = some scope;
  recovery_scope_ref = some scope_ref;
  recovery_summary = some summary;
  recovery_payload_json = some payload;
}

unfoldable pub set_run_recovery :
    (id : String)
    → Option RecoveryStatus
    → Option RecoveryScope
    → (scope_ref summary payload : Option String) → (now : ℕ) → List RunRow
    → List RunRow
unfolding update_run
set_run_recovery id status scope scope_ref summary payload now runs =
    update_run id (recovery_patch status scope scope_ref summary payload) now runs

unfoldable pub clear_run_recovery : (id : String) → (now : ℕ) → List RunRow → List RunRow
unfolding set_run_recovery
clear_run_recovery id now runs = set_run_recovery id none none none none none now runs
