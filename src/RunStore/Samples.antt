-- ===== src/RunStore/Samples.antt =====
-- Rows for the tests.
use beerengineer.Base.{ℕ, String, none, some, List, [], ◌∷◌}
use beerengineer.RunStore.Rows.{RunRow, RunOwner, cli, api, RecoveryStatus, RecoveryScope}

-- A run that nobody has claimed.
abbrev pub fresh_run : String → ℕ → RunRow
fresh_run id created = record {
  id = id;
  item_id = "item";
  status = "running";
  current_stage = some "planning";
  owner = api;
  recovery_status = none;
  recovery_scope = none;
  recovery_scope_ref = none;
  recovery_summary = none;
  recovery_payload_json = none;
  worker_instance_id = none;
  worker_owner_kind = none;
  worker_started_at = none;
  worker_heartbeat_at = none;
  created_at = created;
  updated_at = created;
}

abbrev pub leased_run : String → String → RunOwner → ℕ → RunRow
leased_run id instance_id kind at = record (fresh_run id at) {
  owner = kind;
  worker_instance_id = some instance_id;
  worker_owner_kind = some kind;
  worker_started_at = some at;
  worker_heartbeat_at = some at;
}

-- A run that the CLI left blocked before its execution stage.
abbrev pub handoff_run : String → ℕ → RunRow
handoff_run id at = record (leased_run id "cli-1" cli at) {
  status = "blocked";
  recovery_status = some RecoveryStatus.blocked;
  recovery_scope = some RecoveryScope.stage;
  recovery_scope_ref = some "execution";
}

abbrev pub two_runs : List RunRow
two_runs = leased_run "r1" "api-1" api 5 ∷ handoff_run "r2" 7 ∷ []
