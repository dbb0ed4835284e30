-- ===== src/RunStore/Updates.antt =====
-- Statements of apps/engine/src/db/repositories/repos.ts that write the `runs` and `items` tables.
use beerengineer.Base.{ℕ, String, Bool, true, ◌&&◌, ◌||◌, Option, none, some, List, map}
use beerengineer.Base.Tests.{if◌then◌else◌, is_some, get_or}
use beerengineer.Base.Lists.{any, find}
use beerengineer.Base.Texts.{eq_text, is_text}
use beerengineer.RunStore.Rows.{
  RunOwner, cli, api, RecoveryStatus, RecoveryScope, stage, RunRow, ItemRow, BoardColumn,
  PhaseStatus, is_owner, is_status, is_scope, has_status, at_stage,
}

unfoldable pub get_run : List RunRow → String → Option RunRow
get_run runs id = find (λ r. eq_text r.id id) runs

-- `UPDATE runs SET … WHERE id = ? AND test`.
unfoldable pub update_runs :
    String → (RunRow → Bool) → (RunRow → RunRow) → List RunRow → List RunRow
update_runs id test change runs = map (λ r. if eq_text r.id id && test r then change r else r) runs

-- `result.changes > 0`.
unfoldable pub has_changes : String → (RunRow → Bool) → List RunRow → Bool
has_changes id test runs = any (λ r. eq_text r.id id && test r) runs

abbrev pub always : RunRow → Bool
always r = true

-- The columns of a claim, as `claimRunWorkerLease` sets them.
abbrev pub take_lease : String → RunOwner → ℕ → ℕ → RunRow → RunRow
take_lease instance_id kind started heartbeat r = record r {
  owner = kind;
  worker_instance_id = some instance_id;
  worker_owner_kind = some kind;
  worker_started_at = some started;
  worker_heartbeat_at = some heartbeat;
  updated_at = heartbeat;
}

unfoldable pub claim_run_worker_lease :
    String → String → RunOwner → ℕ → Option ℕ → List RunRow → List RunRow × Option RunRow
unfolding get_run update_runs
claim_run_worker_lease id instance_id kind started heartbeat runs =
    let runs' =
      update_runs id always (take_lease instance_id kind started (get_or heartbeat started)) runs in
    (runs', get_run runs' id)

-- The `WHERE` clause that both handoff statements share, but for the worker's kind.
abbrev pub is_blocked_execution : RunOwner → RunRow → Bool
is_blocked_execution kind r =
    has_status r "blocked"
    && (at_stage r "planning" || at_stage r "execution")
    && is_status r.recovery_status RecoveryStatus.blocked
    && is_scope r.recovery_scope stage
    && is_text r.recovery_scope_ref "execution"
    && is_owner r.worker_owner_kind kind
    && is_some r.worker_instance_id
    && is_some r.worker_started_at
    && is_some r.worker_heartbeat_at

unfoldable pub claim_blocked_execution_handoff :
    String → String → ℕ → List RunRow → List RunRow × Option RunRow
unfolding get_run update_runs has_changes
claim_blocked_execution_handoff id instance_id started runs =
    let runs' =
      update_runs id (is_blocked_execution cli) (take_lease instance_id api started started) runs in
    (runs', if has_changes id (is_blocked_execution cli) runs then get_run runs' id else none)

-- The lease columns of a row, as the restore takes them.
pub record LeaseColumns : Type 0 where
  pub owner : RunOwner
  pub instance_id : Option String
  pub owner_kind : Option RunOwner
  pub started_at : Option ℕ
  pub heartbeat_at : Option ℕ

abbrev pub lease_columns : RunRow → LeaseColumns
lease_columns r = record {
  owner = r.owner;
  instance_id = r.worker_instance_id;
  owner_kind = r.worker_owner_kind;
  started_at = r.worker_started_at;
  heartbeat_at = r.worker_heartbeat_at;
}

abbrev pub put_lease : LeaseColumns → ℕ → RunRow → RunRow
put_lease l now r = record r {
  owner = l.owner;
  worker_instance_id = l.instance_id;
  worker_owner_kind = l.owner_kind;
  worker_started_at = l.started_at;
  worker_heartbeat_at = l.heartbeat_at;
  updated_at = now;
}

unfoldable pub restore_blocked_execution_handoff_claim :
    String → LeaseColumns → ℕ → List RunRow → List RunRow
unfolding update_runs
restore_blocked_execution_handoff_claim id lease now runs =
    update_runs id (is_blocked_execution api) (put_lease lease now) runs

pub data Refresh : Type 0 where
  refreshed : RunRow → Refresh
  lost_ownership : RunRow → Refresh
  not_found : Refresh

abbrev pub owns : String → RunOwner → RunRow → Bool
owns instance_id kind r =
    is_text r.worker_instance_id instance_id && is_owner r.worker_owner_kind kind

abbrev pub beat : ℕ → RunRow → RunRow
beat at r = record r { worker_heartbeat_at = some at; updated_at = at }

-- The result of the statement: `ok` with the row when it changed one, else why it did not. With
-- `changes > 0` the row is there, so the last case of the first line does not arise.
abbrev refresh_result : Bool → Option RunRow → Refresh
refresh_result true (some r) = refreshed r
refresh_result _ (some r) = lost_ownership r
refresh_result _ none = not_found

unfoldable pub refresh_run_worker_heartbeat :
    String → String → RunOwner → ℕ → List RunRow → List RunRow × Refresh
unfolding get_run update_runs has_changes
refresh_run_worker_heartbeat id instance_id kind at runs =
    let runs' = update_runs id (owns instance_id kind) (beat at) runs in
    (runs', refresh_result (has_changes id (owns instance_id kind) runs) (get_run runs' id))

unfoldable pub clear_run_worker_lease : String → ℕ → List RunRow → List RunRow
unfolding update_runs
clear_run_worker_lease id now runs =
    update_runs id always
      (λ r. record r {
        worker_instance_id = none;
        worker_owner_kind = none;
        worker_started_at = none;
        worker_heartbeat_at = none;
        updated_at = now;
      })
      runs

-- The patch of `updateRun`: a field that is `none` is absent, and keeps the row's value.
pub record RunPatch : Type 0 where
  pub status : Option String
  pub current_stage : Option (Option String)
  pub recovery_status : Option (Option RecoveryStatus)
  pub recovery_scope : Option (Option RecoveryScope)
  pub recovery_scope_ref : Option (Option String)
  pub recovery_summary : Option (Option String)
  pub recovery_payload_json : Option (Option String)

abbrev pub no_patch : RunPatch
no_patch = record {
  status = none;
  current_stage = none;
  recovery_status = none;
  recovery_scope = none;
  recovery_scope_ref = none;
  recovery_summary = none;
  recovery_payload_json = none;
}

-- `{ ...existing, ...patch, updated_at: now() }`.
abbrev pub patch_row : RunPatch → ℕ → RunRow → RunRow
patch_row p now r = record r {
  status = get_or p.status r.status;
  current_stage = get_or p.current_stage r.current_stage;
  recovery_status = get_or p.recovery_status r.recovery_status;
  recovery_scope = get_or p.recovery_scope r.recovery_scope;
  recovery_scope_ref = get_or p.recovery_scope_ref r.recovery_scope_ref;
  recovery_summary = get_or p.recovery_summary r.recovery_summary;
  recovery_payload_json = get_or p.recovery_payload_json r.recovery_payload_json;
  updated_at = now;
}

-- `updateRun` reads the row, and writes the merged columns by its id.
unfoldable pub update_run : String → RunPatch → ℕ → List RunRow → List RunRow
unfolding update_runs
update_run id patch now runs = update_runs id always (patch_row patch now) runs

unfoldable pub get_item : List ItemRow → String → Option ItemRow
get_item items id = find (λ i. eq_text i.id id) items

unfoldable pub set_item_column :
    String → BoardColumn → PhaseStatus → ℕ → List ItemRow → List ItemRow
set_item_column id column phase now items =
    map
      (λ i.
        if eq_text i.id id
        then record i { current_column = column; phase_status = phase; updated_at = now }
        else i)
      items

unfoldable pub set_item_current_stage : String → Option String → ℕ → List ItemRow → List ItemRow
set_item_current_stage id stage_key now items =
    map
      (λ i. if eq_text i.id id then record i { current_stage = stage_key; updated_at = now } else i)
      items
