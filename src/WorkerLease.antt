-- ===== src/WorkerLease.antt =====
-- The worker lease of a run (apps/engine/src/core/workerLease.ts). A call of the repository or of the
-- clock is a value of the environment: a tick says whether the database threw.
pub mod Ownership
pub mod Handoff
pub mod Ticks
pub mod Takeover
mod Tests
use beerengineer.Base.{
  ℕ, String, ◌+◌, Bool, true, false, not, ◌&&◌, ◌||◌, Option, none, some, List, [], ◌∷◌, ◌++◌,
}
use beerengineer.Base.Tests.{if◌then◌else◌, leb}
use beerengineer.Base.Texts.{eq_text}
use beerengineer.RunStore.Rows.{
  RunOwner, RunRow, RecoveryStatus, RecoveryScope, eq_owner, has_status,
}
use beerengineer.RunStore.Updates.{
  get_run, claim_run_worker_lease, Refresh, refreshed, lost_ownership, not_found,
  refresh_run_worker_heartbeat, RunPatch, no_patch, update_run,
}

abbrev pub worker_heartbeat_interval_ms : ℕ
worker_heartbeat_interval_ms = 30000

abbrev pub stale_worker_heartbeat_ms : ℕ
stale_worker_heartbeat_ms = 120000

abbrev pub worker_heartbeat_failure_limit : ℕ
worker_heartbeat_failure_limit = 3

pub record WorkerLeaseSnapshot : Type 0 where
  pub run_id : String
  pub worker_instance_id : String
  pub worker_owner_kind : RunOwner
  pub started_at : ℕ
  pub heartbeat_at : ℕ

pub record WorkerLeaseIdentity : Type 0 where
  pub run_id : String
  pub worker_instance_id : String
  pub worker_owner_kind : RunOwner

-- `!x` of a text is true of the empty text, so an empty instance id counts as none.
abbrev snapshot_of :
    String → Option String → Option RunOwner → Option ℕ → Option ℕ → Option WorkerLeaseSnapshot
snapshot_of id (some instance_id) (some kind) (some started) (some heartbeat) =
    if eq_text instance_id ""
    then none
    else some (record {
      run_id = id;
      worker_instance_id = instance_id;
      worker_owner_kind = kind;
      started_at = started;
      heartbeat_at = heartbeat;
    })
snapshot_of _ _ _ _ _ = none

abbrev pub to_snapshot : Option RunRow → Option WorkerLeaseSnapshot
to_snapshot none = none
to_snapshot (some r) =
    snapshot_of r.id r.worker_instance_id r.worker_owner_kind r.worker_started_at
      r.worker_heartbeat_at

unfoldable pub claim_worker_lease :
    WorkerLeaseIdentity → ℕ → List RunRow → List RunRow × Option RunRow
claim_worker_lease w now runs =
    claim_run_worker_lease w.run_id w.worker_instance_id w.worker_owner_kind now (some now) runs

unfoldable pub inspect_worker_lease : List RunRow → String → Option WorkerLeaseSnapshot
inspect_worker_lease runs id = to_snapshot (get_run runs id)

abbrev pub snapshot_is : WorkerLeaseIdentity → Option WorkerLeaseSnapshot → Bool
snapshot_is w none = false
snapshot_is w (some s) =
    eq_text s.worker_instance_id w.worker_instance_id
    && eq_owner s.worker_owner_kind w.worker_owner_kind

unfoldable pub worker_still_owns_lease : List RunRow → WorkerLeaseIdentity → Bool
unfolding inspect_worker_lease
worker_still_owns_lease runs w = snapshot_is w (inspect_worker_lease runs w.run_id)

pub data HeartbeatResult : Type 0 where
  renewed : RunRow → HeartbeatResult
  lost : Option WorkerLeaseSnapshot → HeartbeatResult

abbrev heartbeat_result : Refresh → HeartbeatResult
heartbeat_result (refreshed r) = renewed r
heartbeat_result (lost_ownership r) = lost (to_snapshot (some r))
heartbeat_result not_found = lost none

unfoldable pub refresh_worker_heartbeat :
    WorkerLeaseIdentity → ℕ → List RunRow → List RunRow × HeartbeatResult
refresh_worker_heartbeat w now runs =
    let (runs', result) =
      refresh_run_worker_heartbeat w.run_id w.worker_instance_id w.worker_owner_kind now runs in
    (runs', heartbeat_result result)

abbrev pub failed_at_run_scope : String → RunPatch
failed_at_run_scope summary = record no_patch {
  status = some "failed";
  recovery_status = some (some RecoveryStatus.failed);
  recovery_scope = some (some RecoveryScope.run);
  recovery_scope_ref = some none;
  recovery_summary = some (some summary);
}

abbrev is_running : Option RunRow → Bool
is_running none = false
is_running (some r) = has_status r "running"

unfoldable pub mark_worker_lease_recoverable_failure :
    String → String → ℕ → List RunRow → List RunRow
mark_worker_lease_recoverable_failure id summary now runs =
    if is_running (get_run runs id)
    then update_run id (failed_at_run_scope summary) now runs
    else runs

pub data FatalReason : Type 0 where
  lost_ownership_reason heartbeat_failures : FatalReason

-- The summaries of `failRecoverably`; the second one also carries the limit.
pub record Summaries : Type 0 where
  pub lost_summary : String
  pub failures_summary : String

abbrev summary_of : Summaries → FatalReason → String
summary_of t lost_ownership_reason = t.lost_summary
summary_of t heartbeat_failures = t.failures_summary

-- The variables of `startWorkerLeaseHeartbeat`, the calls of `onFatal` so far, and the table.
-- `stopped` also says that the interval was cleared.
pub record Heartbeat : Type 0 where
  pub consecutive_failures : ℕ
  pub stopped : Bool
  pub fatal : List FatalReason
  pub runs : List RunRow

-- What the environment does in one tick: the clock, and which calls of the repository throw.
pub record Tick : Type 0 where
  pub now : ℕ
  pub refresh_throws : Bool
  pub mark_throws : Bool

abbrev pub start_heartbeat : List RunRow → Heartbeat
start_heartbeat runs = record { consecutive_failures = 0; stopped = false; fatal = []; runs = runs }

unfoldable pub stop : Heartbeat → Heartbeat
stop s = record s { stopped = true }

module _ (texts : Summaries) (limit : ℕ) (w : WorkerLeaseIdentity) where
  -- When the write throws, nothing after it is done: `none`.
  unfoldable pub fail_recoverably : FatalReason → Tick → Heartbeat → Option Heartbeat
  unfolding stop
  fail_recoverably reason t s =
      if t.mark_throws
      then none
      else some (record (stop s) {
        runs =
            mark_worker_lease_recoverable_failure w.run_id (summary_of texts reason) t.now s.runs;
        fatal = s.fatal ++ reason ∷ [];
      })

  abbrev or_thrown : Heartbeat → Option Heartbeat → Heartbeat
  or_thrown s none = s
  or_thrown s (some s') = s'

  -- The `catch` block. An exception that leaves the tick leaves the variables as they are.
  unfoldable pub count_failure : Tick → Heartbeat → Heartbeat
  unfolding fail_recoverably
  count_failure t s =
      let s' = record s { consecutive_failures = s.consecutive_failures + 1 } in
      if leb limit (s.consecutive_failures + 1)
      then or_thrown s' (fail_recoverably heartbeat_failures t s')
      else s'

  abbrev or_caught : Tick → Heartbeat → Option Heartbeat → Heartbeat
  or_caught t s none = count_failure t s
  or_caught t s (some s') = s'

  unfoldable pub after_refresh : Tick → Heartbeat → List RunRow × HeartbeatResult → Heartbeat
  after_refresh t s (runs', renewed r) = record s { consecutive_failures = 0; runs = runs' }
  after_refresh t s (runs', lost _) =
      let s' = record s { runs = runs' } in
      or_caught t s' (fail_recoverably lost_ownership_reason t s')

  unfoldable pub tick : Tick → Heartbeat → Heartbeat
  tick t s =
      if s.stopped
      then s
      else if t.refresh_throws
      then count_failure t s
      else after_refresh t s (refresh_worker_heartbeat w t.now s.runs)

  unfoldable pub ticks : List Tick → Heartbeat → Heartbeat
  ticks [] s = s
  ticks (t ∷ ts) s = ticks ts (tick t s)
