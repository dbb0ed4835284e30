-- ===== src/OrphanRecovery.antt =====
-- The recovery of runs whose worker is gone (apps/engine/src/core/orphanRecovery.ts). One reading of
-- the clock, `now`, serves a whole pass.
use beerengineer.Base.{
  ℕ, zero, suc, ◌+◌, ◌-◌, String, Bool, true, false, not, ◌&&◌, ◌||◌, Option, none, some, List, [],
  ◌∷◌, ◌++◌, map,
}
use beerengineer.Base.Tests.{ltb, leb, if◌then◌else◌, is_some, is_none, get_or, split_option}
use beerengineer.Base.Lists.{any, select, length}
use beerengineer.Base.Sorting.{sort}
use beerengineer.Base.Texts.{eq_text, is_text, has}
use beerengineer.RunStore.Rows.{
  RunRow, ItemRow, Db, RunOwner, cli, api, RecoveryStatus, RecoveryScope, run, BoardColumn,
  PhaseStatus, failed, eq_owner, is_owner, is_status, is_scope, has_status,
}
use beerengineer.RunStore.Updates.{
  get_run, RunPatch, no_patch, update_run, get_item, set_item_column, set_item_current_stage,
}
use beerengineer.RunStore.Queries.{
  list_runs, list_running_runs, list_runs_for_item, get_open_prompt, older,
}
use beerengineer.BoardColumns.{map_stage_to_column, is_failed}
use beerengineer.WorkerLease.{stale_worker_heartbeat_ms}
pub mod Marks
pub mod Projection
pub mod Outcomes
pub mod Logs
pub mod Startup
pub mod Threshold
mod Tests

abbrev pub is_live : RunRow → Bool
is_live r = has_status r "running" || has_status r "blocked"

unfoldable pub has_other_live_run_for_item : List RunRow → RunRow → Bool
has_other_live_run_for_item runs r =
    any (λ q. not (eq_text q.id r.id) && is_live q) (list_runs_for_item runs r.item_id)

-- `run.current_stage ? … : …`: an empty stage is none.
unfoldable pub mapped_column : ItemRow → Option String → BoardColumn
mapped_column item none = item.current_column
mapped_column item (some stage) =
    if eq_text stage "" then item.current_column else (map_stage_to_column (some stage) is_failed).0

abbrev pub project_item : ℕ → RunRow → ItemRow → List ItemRow → List ItemRow
project_item now r item items =
    set_item_current_stage item.id none now
      (set_item_column item.id (mapped_column item r.current_stage) failed now items)

unfoldable pub project_recovered_run_to_item : ℕ → RunRow → Db → Db
project_recovered_run_to_item now r db =
    if has_other_live_run_for_item db.runs r
    then db
    else split_option db (λ item. record db { items = project_item now r item db.items })
        (get_item db.items r.item_id)

abbrev pub failed_recoverable : String → RunPatch
failed_recoverable summary = record no_patch {
  status = some "failed";
  recovery_status = some (some RecoveryStatus.failed);
  recovery_scope = some (some run);
  recovery_scope_ref = some none;
  recovery_summary = some (some summary);
}

-- The item is projected by the row as it was read before the update.
unfoldable pub mark_run_failed_recoverable : ℕ → Db → String → String → Db
mark_run_failed_recoverable now db id summary =
    split_option db
      (λ r.
        project_recovered_run_to_item now r
          (record db { runs = update_run r.id (failed_recoverable summary) now db.runs }))
      (get_run db.runs id)

-- The loop of both recoveries: the runs that pass the test are marked, in the order of the list.
unfoldable pub mark_runs :
    ℕ → (RunRow → Bool) → (RunRow → String) → List RunRow → Db → Db × List String
mark_runs now test summary [] db = (db, [])
mark_runs now test summary (r ∷ rs) db =
    let marked =
      mark_runs now test summary rs (mark_run_failed_recoverable now db r.id (summary r)) in
    let skipped = mark_runs now test summary rs db in
    if test r then (marked.0, r.id ∷ marked.1) else skipped

abbrev pub owner_kind : RunRow → RunOwner
owner_kind r = get_or r.worker_owner_kind r.owner

abbrev is_stale : ℕ → Option ℕ → Bool
is_stale now none = true
is_stale now (some at) = ltb stale_worker_heartbeat_ms (now - at)

-- On ℕ the age of a heartbeat later than `now` is 0; in the source it is negative. Neither is stale.
unfoldable pub has_orphaned_worker_lease : String → ℕ → RunRow → Bool
has_orphaned_worker_lease api_worker_instance_id now r =
    if eq_owner (owner_kind r) api
    then not (is_text r.worker_instance_id api_worker_instance_id)
    else is_stale now r.worker_heartbeat_at

unfoldable pub should_recover_lost_worker : String → ℕ → RunRow → Bool
should_recover_lost_worker api_worker_instance_id now r =
    has_status r "running" && has_orphaned_worker_lease api_worker_instance_id now r

abbrev pub api_recovery_summary : String
api_recovery_summary = "API restart lost API worker ownership — no live worker; resume or abandon."

abbrev pub cli_stale_recovery_summary : String
cli_stale_recovery_summary = "CLI worker heartbeat is stale — no live worker; resume or abandon."

abbrev pub shutdown_recovery_summary : String
shutdown_recovery_summary = "Graceful shutdown stopped the API worker — resume or abandon."

abbrev pub worker_ownership_lost_summary : String
worker_ownership_lost_summary =
    "Worker heartbeat detected lost worker ownership — resume or abandon."

abbrev pub stale_worker_recovery_summaries : List String
stale_worker_recovery_summaries =
    api_recovery_summary ∷ cli_stale_recovery_summary ∷ shutdown_recovery_summary
    ∷ worker_ownership_lost_summary ∷ []

abbrev pub recovery_summary : RunRow → String
recovery_summary r =
    if eq_owner (owner_kind r) api then api_recovery_summary else cli_stale_recovery_summary

-- The loop over the running runs, as they were before it.
unfoldable pub mark_lost_worker_runs : String → ℕ → Db → Db × List String
mark_lost_worker_runs instance_id now db =
    mark_runs now (should_recover_lost_worker instance_id now) recovery_summary
      (list_running_runs db.runs) db

abbrev pub is_own_api_run : String → RunRow → Bool
is_own_api_run instance_id r =
    eq_owner r.owner api
    && (is_owner r.worker_owner_kind api && is_text r.worker_instance_id instance_id)

unfoldable pub recover_api_runs_for_shutdown : String → ℕ → Db → Db × List String
recover_api_runs_for_shutdown instance_id now db =
    mark_runs now (is_own_api_run instance_id) (λ r. shutdown_recovery_summary)
      (list_running_runs db.runs) db
