-- ===== src/OrphanRecovery/Tests.antt =====
-- The recovery of two runs, one of them of another API process.
use beerengineer.Base.{◌≤◌, ◌≡◌, refl, ◌⊎◌, true, false, none, some, List, [], ◌∷◌, map}
use beerengineer.Base.Tests.{if◌then◌else◌}
use beerengineer.Base.Lists.{any, find, select, length}
use beerengineer.Base.Sorting.{sort}
use beerengineer.Base.Texts.{eq_text}
use beerengineer.RunStore.Rows.{RunRow, ItemRow, Db, api, merge, review_required, failed}
use beerengineer.RunStore.Updates.{get_run, get_item, update_run, update_runs}
use beerengineer.RunStore.Queries.{list_runs_for_item}
use beerengineer.RunStore.Laws.{UniqueIds}
use beerengineer.RunStore.Items.{moved, at_stage_key}
use beerengineer.RunStore.Samples.{leased_run, two_runs}
use beerengineer.BoardColumns.{map_stage_to_column, is_failed}
use beerengineer.ItemActions.Matrix.{resume_run, reject, lookup_transition}
use beerengineer.OrphanRecovery.{
  recover_api_runs_for_shutdown, shutdown_recovery_summary, has_orphaned_worker_lease,
  should_recover_lost_worker, recovery_summary, mark_lost_worker_runs, mark_run_failed_recoverable,
  has_other_live_run_for_item, failed_recoverable,
}
use beerengineer.OrphanRecovery.Marks.{
  marked, get_run-mark_lost_worker_runs, get_run-recover_api_runs_for_shutdown,
}
use beerengineer.OrphanRecovery.Projection.{
  failed_item, get_item-mark_run_failed_recoverable, mark_run_failed_recoverable-merge_gate,
}
use beerengineer.OrphanRecovery.Startup.{
  StartupRecoveryCandidate, StartupAutoResumeOptions, eligible, resolve_pass, is_eligible,
  normalized_recovery_threshold,
}
use beerengineer.OrphanRecovery.Logs.{OnlyLogs}
use beerengineer.OrphanRecovery.Threshold.{resumed_count, reported, resolve_pass-threshold}
use beerengineer.Base.Effects.{ok, err}
use beerengineer.RunStore.Journal.{Journal, StageLogRow}

abbrev gate_run : RunRow
gate_run = record (leased_run "g" "api-1" api 9) {
  item_id = "gate";
  current_stage = some "merge-gate";
}

abbrev gate_item : ItemRow
gate_item = record {
  id = "gate";
  code = "ITEM-2";
  current_column = merge;
  phase_status = review_required;
  current_stage = some "merge-gate";
  updated_at = 9;
}

abbrev store : Db
store = record { runs = gate_run ∷ two_runs; items = gate_item ∷ []; prompts = [] }

store-UniqueIds : UniqueIds store.runs
unfolding get_run find eq_text
store-UniqueIds = (refl, (refl, (refl, tt)))

get_run-mark_lost_worker_runs_example :
    get_run (mark_lost_worker_runs "api-2" 40 store).0.runs "r1"
    ≡ some (
        marked 40
          (recovery_summary (leased_run "r1" "api-1" api 5))
          (leased_run "r1" "api-1" api 5))
unfolding get_run find should_recover_lost_worker has_orphaned_worker_lease eq_text
get_run-mark_lost_worker_runs_example =
    get_run-mark_lost_worker_runs "api-2" 40 store "r1" (leased_run "r1" "api-1" api 5)
      store-UniqueIds refl

get_item-mark_run_failed_recoverable_example :
    (get_item (mark_run_failed_recoverable 40 store "g" "lost").items "gate"
      ≡ some (
          if has_other_live_run_for_item
            (update_run "g" (failed_recoverable "lost") 40 store.runs)
            gate_run
          then gate_item
          else failed_item 40 gate_run gate_item))
    × (get_item (mark_run_failed_recoverable 40 store "g" "lost").items "x"
        ≡ get_item store.items "x")
unfolding get_run get_item find eq_text
get_item-mark_run_failed_recoverable_example =
    get_item-mark_run_failed_recoverable 40 store gate_run "lost" gate_item "x" refl refl refl refl

mark_run_failed_recoverable-merge_gate_example :
    (get_item (mark_run_failed_recoverable 40 store "g" "lost").items "gate"
      ≡ some (at_stage_key (moved gate_item merge failed 40) none 40))
    × ((lookup_transition resume_run merge failed ≡ reject)
        × ((map_stage_to_column (some "merge-gate") is_failed).1 ≡ review_required))
unfolding get_run get_item find eq_text has_other_live_run_for_item list_runs_for_item update_run
    update_runs any select sort
mark_run_failed_recoverable-merge_gate_example =
    mark_run_failed_recoverable-merge_gate 40 store gate_run "lost" gate_item resume_run refl refl
      refl refl refl

abbrev options : StartupAutoResumeOptions
options = record { enabled = true; recovery_threshold = some 1; resume_run = λ r j. (ok tt, j) }

abbrev candidate : RunRow → StartupRecoveryCandidate
candidate r = record { run_row = r; has_open_prompt = false; eligibility = eligible }

abbrev journal : Journal
journal = record { db = store; stage_runs = []; logs = []; artifacts = []; projects = [] }

abbrev two_candidates : List StartupRecoveryCandidate
two_candidates = candidate gate_run ∷ candidate (leased_run "r1" "api-1" api 5) ∷ []

held_back_message :
    map (λ (l : StageLogRow). l.message) (resolve_pass 50 options two_candidates journal).1.logs
    ≡ "Startup recovery held back 2 stale run(s) because the recovery set exceeded the threshold: g, r1"
      ∷ []
unfolding resolve_pass select get_run find eq_text
held_back_message = refl

resolve_pass-threshold_example :
    (resumed_count (reported (resolve_pass 50 options two_candidates journal).0)
      ≤ normalized_recovery_threshold (some 1))
    × ((length (select is_eligible two_candidates) ≤ normalized_recovery_threshold (some 1))
        ⊎ ((resolve_pass 50
                (record options { resume_run = λ r j. (err "no", j) })
                two_candidates
                journal
              ≡ resolve_pass 50 options two_candidates journal)
            × ((resumed_count (reported (resolve_pass 50 options two_candidates journal).0) ≡ 0)
                × OnlyLogs journal (resolve_pass 50 options two_candidates journal).1)))
resolve_pass-threshold_example =
    resolve_pass-threshold 50 options two_candidates journal (λ r j. (err "no", j))

get_run-recover_api_runs_for_shutdown_example :
    get_run (recover_api_runs_for_shutdown "api-1" 40 store).0.runs "r1"
    ≡ some (marked 40 shutdown_recovery_summary (leased_run "r1" "api-1" api 5))
unfolding get_run find eq_text
get_run-recover_api_runs_for_shutdown_example =
    get_run-recover_api_runs_for_shutdown "api-1" 40 store "r1" (leased_run "r1" "api-1" api 5)
      store-UniqueIds refl
