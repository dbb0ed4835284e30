-- ===== src/OrphanRecovery/Startup.antt =====
-- The pass over the recovered runs at startup, which resumes them or says why not
-- (apps/engine/src/core/orphanRecovery.ts). The wait between two runs is left out.
use beerengineer.Base.{
  ℕ, zero, suc, String, Bool, true, false, not, ◌&&◌, ◌||◌, Option, none, some, List, [], ◌∷◌, map,
}
use beerengineer.Base.Tests.{ltb, if◌then◌else◌, is_some, is_none, get_or}
use beerengineer.Base.Lists.{select, length}
use beerengineer.Base.Sorting.{sort}
use beerengineer.Base.Texts.{has}
use beerengineer.RunStore.Rows.{RunRow, Db, RecoveryStatus, run, is_status, is_scope}
use beerengineer.Base.Effects.{Result, ok, err, Effect, return, ◌>>=◌, ◌>>◌}
use beerengineer.RunStore.Updates.{get_run}
use beerengineer.RunStore.Journal.{Journal}
use beerengineer.RunStore.Queries.{list_runs, get_open_prompt, older}
use beerengineer.OrphanRecovery.{
  has_orphaned_worker_lease, mark_lost_worker_runs, stale_worker_recovery_summaries,
}
use beerengineer.OrphanRecovery.Outcomes.{
  Reason, open_prompt, worker_lease_not_orphaned, auto_resume_disabled, StartupRecoveryOutcome,
  skipped_startup_recovery_outcome, failed_startup_recovery_outcome,
  resumed_startup_recovery_outcome, threshold_held_back_startup_recovery_outcome, Act,
  append_startup_recovery_log,
}

pub data StartupAutoResumeEligibility : Type 0 where
  eligible : StartupAutoResumeEligibility
  not_eligible : Reason → StartupAutoResumeEligibility

pub record StartupRecoveryCandidate : Type 0 where
  pub run_row : RunRow
  pub has_open_prompt : Bool
  pub eligibility : StartupAutoResumeEligibility

-- The options, with `resumeRun`, which changes the store and may throw a message. A threshold that
-- is missing or not finite is none, and one below zero is 0, which counts as 1 like 0 itself.
pub record StartupAutoResumeOptions : Type 0 where
  pub enabled : Bool
  pub recovery_threshold : Option ℕ
  pub resume_run : RunRow → Effect Journal String (Unit {0})

abbrev at_least_one : ℕ → ℕ
at_least_one zero = 1
at_least_one (suc n) = suc n

-- `Number.MAX_SAFE_INTEGER` stands for no threshold.
abbrev pub normalized_recovery_threshold : Option ℕ → ℕ
normalized_recovery_threshold none = 9007199254740991
normalized_recovery_threshold (some n) = at_least_one n

abbrev text_or_empty : Option String → String
text_or_empty o = get_or o ""

-- `is_failure_summary` is the test of a summary against `WORKER_HEARTBEAT_FAILURE_SUMMARY`.
abbrev pub is_stale_worker_recoverable_run : (String → Bool) → RunRow → Bool
is_stale_worker_recoverable_run is_failure_summary r =
    is_status r.recovery_status RecoveryStatus.failed
    && (is_scope r.recovery_scope run
        && (has stale_worker_recovery_summaries (text_or_empty r.recovery_summary)
            || is_failure_summary (text_or_empty r.recovery_summary)))

unfoldable pub list_startup_recovery_candidates : (String → Bool) → List RunRow → List RunRow
list_startup_recovery_candidates is_failure_summary runs =
    sort older (select (is_stale_worker_recoverable_run is_failure_summary) (list_runs runs))

unfoldable pub classify_startup_auto_resume_eligibility :
    (has_orphaned_worker_lease has_open_prompt auto_resume_enabled : Bool)
    → StartupAutoResumeEligibility
classify_startup_auto_resume_eligibility orphaned has_open enabled =
    if orphaned && enabled
    then eligible
    else if orphaned
    then not_eligible auto_resume_disabled
    else not_eligible worker_lease_not_orphaned

abbrev pub is_eligible : StartupRecoveryCandidate → Bool
is_eligible c = elim c.eligibility [ eligible ↦ true | not_eligible _ ↦ false ]

abbrev candidate_for :
    String → ℕ → StartupAutoResumeOptions → Db → RunRow → StartupRecoveryCandidate
candidate_for instance_id now options db r =
    let current = get_or (get_run db.runs r.id) r in
    let has_open = is_some (get_open_prompt db current.id) in
    record {
      run_row = current;
      has_open_prompt = has_open;
      eligibility =
          classify_startup_auto_resume_eligibility
            (has_orphaned_worker_lease instance_id now current) has_open options.enabled;
    }

unfoldable pub build_startup_recovery_candidates :
    (String → Bool) → String → ℕ → StartupAutoResumeOptions → Db → List StartupRecoveryCandidate
build_startup_recovery_candidates is_failure_summary instance_id now options db =
    map (candidate_for instance_id now options db)
      (list_startup_recovery_candidates is_failure_summary db.runs)

-- A candidate with an open prompt is deferred when a threshold applies.
abbrev pub defer_open_prompt : Db → StartupRecoveryCandidate → StartupRecoveryCandidate
defer_open_prompt db c =
    if not (is_eligible c) || is_none (get_open_prompt db c.run_row.id)
    then c
    else record c { eligibility = not_eligible open_prompt }

abbrev pub threshold_candidates :
    Option ℕ → Db → List StartupRecoveryCandidate → List StartupRecoveryCandidate
threshold_candidates none db cs = cs
threshold_candidates (some n) db cs = map (defer_open_prompt db) cs

abbrev caught :
    String → Result String (Unit {0}) × Journal → (StartupRecoveryOutcome × Option String) × Journal
caught id (ok _, j) = ((resumed_startup_recovery_outcome id, none), j)
caught id (err message, j) = ((failed_startup_recovery_outcome id, some message), j)

-- The outcome, and the message of the error where `resumeRun` threw one.
unfoldable pub resolve_startup_recovery_outcome :
    StartupAutoResumeOptions
    → RunRow
    → StartupAutoResumeEligibility
    → Journal
    → (StartupRecoveryOutcome × Option String) × Journal
resolve_startup_recovery_outcome options r (not_eligible why) j =
    ((skipped_startup_recovery_outcome r.id why, none), j)
resolve_startup_recovery_outcome options r eligible j =
    caught r.id (options.resume_run (get_or (get_run j.db.runs r.id) r) j)

-- The loop: each run is read again and resolved in the store that the runs before it left.
unfoldable pub resolve_candidate_outcomes :
    ℕ → StartupAutoResumeOptions → List StartupRecoveryCandidate → Act (List StartupRecoveryOutcome)
unfolding resolve_startup_recovery_outcome append_startup_recovery_log
resolve_candidate_outcomes now options [] = return []
resolve_candidate_outcomes now options (c ∷ cs) = do
  (outcome, error) ← λ j.
      let current = get_or (get_run j.db.runs c.run_row.id) c.run_row in
      let resolved = resolve_startup_recovery_outcome options current c.eligibility j in
      (ok resolved.0, resolved.1)
  append_startup_recovery_log now outcome error
  rest ← resolve_candidate_outcomes now options cs
  return (outcome ∷ rest)

-- The outcomes of the candidates that are not eligible, each appended to the log.
unfoldable pub skip_candidates :
    ℕ → List StartupRecoveryCandidate → Act (List StartupRecoveryOutcome)
unfolding append_startup_recovery_log
skip_candidates now [] = return []
skip_candidates now (c ∷ cs) = elim c.eligibility [
  | eligible ↦ skip_candidates now cs
  | not_eligible why ↦ do
    append_startup_recovery_log now (skipped_startup_recovery_outcome c.run_row.id why) none
    rest ← skip_candidates now cs
    return (skipped_startup_recovery_outcome c.run_row.id why ∷ rest)
]

abbrev pub candidate_id : StartupRecoveryCandidate → String
candidate_id c = c.run_row.id

abbrev pub first_id : List StartupRecoveryCandidate → String
first_id [] = ""
first_id (c ∷ _) = candidate_id c

unfoldable pub hold_back_eligible_candidates :
    ℕ
    → List StartupRecoveryCandidate
    → List StartupRecoveryCandidate
    → Act (List StartupRecoveryOutcome)
unfolding append_startup_recovery_log skip_candidates
hold_back_eligible_candidates now cs eligible_cs =
    let holdback =
      threshold_held_back_startup_recovery_outcome (first_id eligible_cs)
        (map candidate_id eligible_cs) in
    do
      append_startup_recovery_log now holdback none
      rest ← skip_candidates now cs
      return (holdback ∷ rest)

unfoldable pub resolve_pass :
    ℕ → StartupAutoResumeOptions → List StartupRecoveryCandidate → Act (List StartupRecoveryOutcome)
unfolding hold_back_eligible_candidates resolve_candidate_outcomes
resolve_pass now options cs =
    let eligible_cs = select is_eligible cs in
    if ltb (normalized_recovery_threshold options.recovery_threshold) (length eligible_cs)
    then hold_back_eligible_candidates now cs eligible_cs
    else resolve_candidate_outcomes now options cs

unfoldable pub resolve_startup_recovery_pass :
    (String → Bool) → String → ℕ → StartupAutoResumeOptions → Act (List StartupRecoveryOutcome)
unfolding resolve_pass
resolve_startup_recovery_pass is_failure_summary instance_id now options j =
    resolve_pass now options
      (threshold_candidates options.recovery_threshold j.db
        (build_startup_recovery_candidates is_failure_summary instance_id now options j.db))
      j

abbrev pass_when :
    (String → Bool)
    → String
    → ℕ
    → Option StartupAutoResumeOptions
    → Act (List StartupRecoveryOutcome)
pass_when is_failure_summary instance_id now none = return []
pass_when is_failure_summary instance_id now (some options) =
    resolve_startup_recovery_pass is_failure_summary instance_id now options

-- The ids recovered and the outcomes.
unfoldable pub recover_lost_worker_runs :
    (String → Bool)
    → String
    → ℕ
    → Option StartupAutoResumeOptions
    → Act (List String × List StartupRecoveryOutcome)
recover_lost_worker_runs is_failure_summary instance_id now auto_resume = do
  ids ← λ j.
      let marked = mark_lost_worker_runs instance_id now j.db in
      (ok marked.1, record j { db = marked.0 })
  outcomes ← pass_when is_failure_summary instance_id now auto_resume
  return (ids, outcomes)
