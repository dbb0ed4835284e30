-- ===== src/WorkerLease/Tests.antt =====
-- Runs of the lease operations, and instances of their theorems.
use beerengineer.Base.{
  String, ◌≡◌, refl, ◌≢◌, true, false, ◌&&◌, none, some, List, [], ◌∷◌, ◌++◌, arith, inl,
}
use beerengineer.Base.Tests.{if◌then◌else◌}
use beerengineer.Base.Lists.{find}
use beerengineer.Base.Texts.{eq_text, ne_of_eq_text}
use beerengineer.RunStore.Rows.{cli, api, eq_owner}
use beerengineer.RunStore.Updates.{
  get_run, lease_columns, restore_blocked_execution_handoff_claim, claim_blocked_execution_handoff,
  patch_row, take_lease,
}
use beerengineer.RunStore.Laws.{UniqueIds}
use beerengineer.RunStore.Samples.{leased_run, handoff_run, two_runs}
use beerengineer.WorkerLease.{
  WorkerLeaseIdentity, claim_worker_lease, worker_still_owns_lease, Summaries, Heartbeat, Tick,
  start_heartbeat, ticks, tick, lost_ownership_reason, failed_at_run_scope,
}
use beerengineer.WorkerLease.Ownership.{claim-worker_still_owns_lease, IsWhole}
use beerengineer.WorkerLease.Ticks.{ticks-stopped, HoldsLease, throws_in_a_row}
use beerengineer.WorkerLease.Takeover.{tick-claimed, claimed_row}
use beerengineer.WorkerLease.Handoff.{
  is_execution_ownership_handoff_run, claim-is_execution_ownership_handoff_run, restore-claim,
}

abbrev first_worker : WorkerLeaseIdentity
first_worker = record { run_id = "r1"; worker_instance_id = "api-1"; worker_owner_kind = api }

abbrev second_worker : WorkerLeaseIdentity
second_worker = record { run_id = "r1"; worker_instance_id = "cli-9"; worker_owner_kind = cli }

abbrev texts : Summaries
texts = record { lost_summary = "lost"; failures_summary = "failed" }

lookups : Unit {0}
unfolding get_run find eq_text
lookups = tt

two_runs-UniqueIds : UniqueIds two_runs
unfolding lookups
two_runs-UniqueIds = (refl, (refl, tt))

first_found : get_run two_runs "r1" ≡ some (leased_run "r1" "api-1" api 5)
unfolding lookups
first_found = refl

second_found : get_run two_runs "r2" ≡ some (handoff_run "r2" 7)
unfolding lookups
second_found = refl

first-IsWhole : IsWhole (leased_run "r1" "api-1" api 5)
unfolding eq_text
first-IsWhole = inl (
  record {
    run_id = "r1";
    worker_instance_id = "api-1";
    worker_owner_kind = api;
    started_at = 5;
    heartbeat_at = 5;
  },
  refl,
)

first_holds : HoldsLease first_worker two_runs
unfolding lookups worker_still_owns_lease
first_holds = record {
  row = leased_run "r1" "api-1" api 5;
  unique = two_runs-UniqueIds;
  found = first_found;
  whole = first-IsWhole;
  held = refl;
}

cli_named : ◌≢◌ {A = String} "cli-9" ""
unfolding eq_text
cli_named = ne_of_eq_text "cli-9" "" refl

instances_differ : ◌≢◌ {A = String} "cli-9" "api-1"
unfolding eq_text
instances_differ = ne_of_eq_text "cli-9" "api-1" refl

claim-worker_still_owns_lease_example :
    worker_still_owns_lease (claim_worker_lease second_worker 9 two_runs).0 first_worker ≡ (
      if eq_text "r1" "r1"
      then eq_text "cli-9" "api-1" && eq_owner cli api
      else worker_still_owns_lease two_runs first_worker)
claim-worker_still_owns_lease_example =
    claim-worker_still_owns_lease second_worker first_worker 9 two_runs first_found cli_named

abbrev broken : Tick
broken = record { now = 9; refresh_throws = true; mark_throws = false }

abbrev working : Tick
working = record { now = 9; refresh_throws = false; mark_throws = false }

abbrev schedule : List Tick
schedule = broken ∷ broken ∷ working ∷ broken ∷ broken ∷ broken ∷ working ∷ []

ticks-stopped_example :
    (ticks texts 3 first_worker schedule (start_heartbeat two_runs)).stopped
    ≡ throws_in_a_row 3 schedule
ticks-stopped_example =
    ticks-stopped texts 3 first_worker schedule two_runs (omega arith) first_holds
      (refl, (refl, (refl, (refl, (refl, (refl, (refl, tt)))))))

abbrev taken_over : Heartbeat
taken_over = start_heartbeat (claim_worker_lease second_worker 8 two_runs).0

tick-claimed_example :
    let s' = tick texts 3 first_worker working taken_over in
    (s'.stopped ≡ true)
    × (s'.fatal ≡ [] ++ lost_ownership_reason ∷ [])
    × (get_run s'.runs "r1"
        ≡ some (
            patch_row
              (failed_at_run_scope "lost")
              9
              (claimed_row second_worker 8 (leased_run "r1" "api-1" api 5))))
    × (worker_still_owns_lease s'.runs second_worker ≡ true)
tick-claimed_example =
    tick-claimed second_worker first_worker 8 two_runs two_runs-UniqueIds refl first_found
      instances_differ texts 3 working taken_over refl cli_named refl refl refl refl

claim-is_execution_ownership_handoff_run_example :
    let claim = claim_blocked_execution_handoff "r2" "api-1" 9 two_runs in
    let candidate = is_execution_ownership_handoff_run (some (handoff_run "r2" 7)) in
    let taken = take_lease "api-1" api 9 9 (handoff_run "r2" 7) in
    (claim.1 ≡ (if candidate then some taken else none))
    × (get_run claim.0 "r2" ≡ some (if candidate then taken else handoff_run "r2" 7))
    × (get_run claim.0 "r1" ≡ get_run two_runs "r1")
unfolding eq_text
claim-is_execution_ownership_handoff_run_example =
    claim-is_execution_ownership_handoff_run "r2" "api-1" 9 two_runs two_runs-UniqueIds second_found
      "r1" refl

candidate : is_execution_ownership_handoff_run (some (handoff_run "r2" 7)) ≡ true
unfolding is_execution_ownership_handoff_run eq_text
candidate = refl

restore-claim_example :
    get_run
      (restore_blocked_execution_handoff_claim "r2"
        (lease_columns (handoff_run "r2" 7))
        12
        (claim_blocked_execution_handoff "r2" "api-1" 9 two_runs).0)
      "r2"
    ≡ some (record (handoff_run "r2" 7) { updated_at = 12 })
restore-claim_example =
    restore-claim "r2" "api-1" 9 two_runs two_runs-UniqueIds second_found 12 candidate
