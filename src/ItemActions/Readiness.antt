-- ===== src/ItemActions/Readiness.antt =====
-- Whether a run can be resumed (`loadResumeReadiness` in apps/engine/src/core/resume.ts, and
-- `isStructuredMergeConflictRecoveryRun` in apps/engine/src/core/mergeConflictRecovery.ts).
use beerengineer.Base.{
  String, ◌≡◌, refl, Bool, true, false, not, ◌&&◌, Option, none, some, List, arith,
}
use beerengineer.Base.Tests.{if◌then◌else◌, is_none, is_some, get_or}
use beerengineer.Base.Texts.{is_text, has}
use beerengineer.RunStore.Rows.{
  RunRow, PromptRow, Db, RecoveryStatus, RecoveryScope, run, stage, story, is_status, is_scope,
}
use beerengineer.RunStore.Updates.{get_run}
use beerengineer.RunStore.Queries.{get_open_prompt}

-- The scope of a recovery record. A story's is its reference, `wave/story`.
pub data Scope : Type 0 where
  whole_run : Scope
  of_stage of_story : String → Scope

pub record RecoveryRecord : Type 0 where
  pub status : RecoveryStatus
  pub cause : String
  pub scope : Scope
  pub summary : String

pub data NotResumable : Type 0 where
  resume_in_progress open_prompt : NotResumable

-- The readiness of a run in a workspace directory.
pub data Readiness : Type 0 where
  not_found : Readiness
  not_resumable : RunRow → NotResumable → Readiness
  no_recovery : RunRow → Readiness
  ready : RunRow → RecoveryRecord → (workspace_dir : String) → Readiness

-- The files a run leaves behind: the directory found for it and the recovery records in it.
pub record Files : Type 0 where
  pub infer_workspace_dir : RunRow → Option String
  pub read_recovery_record : String → String → Scope → Option RecoveryRecord

-- A `recovery_scope_ref` that is null or empty names nothing.
abbrev scope_of : RecoveryScope → Option String → Option Scope
scope_of run ref = some whole_run
scope_of stage none = none
scope_of stage (some ref) = if is_text (some ref) "" then none else some (of_stage ref)
scope_of story none = none
scope_of story (some ref) = if is_text (some ref) "" then none else some (of_story ref)

abbrev stored_record : Files → String → RunRow → Option RecoveryScope → Option RecoveryRecord
stored_record files dir r none = none
stored_record files dir r (some kind) = elim (scope_of kind r.recovery_scope_ref) [
  | none ↦ none
  | some scope ↦ files.read_recovery_record dir r.id scope
]

-- The record of a blocked run that has none on disk.
abbrev pub legacy_record : RunRow → RecoveryStatus → RecoveryRecord
legacy_record r status = record {
  status = status;
  cause = "system_error";
  scope = whole_run;
  summary = get_or r.recovery_summary "Legacy blocked run — resume may restart from the beginning.";
}

abbrev readiness_in : Files → RunRow → RecoveryStatus → Option String → Readiness
readiness_in files r status none = no_recovery r
readiness_in files r status (some dir) =
    ready r (get_or (stored_record files dir r r.recovery_scope) (legacy_record r status)) dir

abbrev recovery_readiness : Files → RunRow → Option RecoveryStatus → Readiness
recovery_readiness files r none = no_recovery r
recovery_readiness files r (some status) = readiness_in files r status (files.infer_workspace_dir r)

abbrev run_readiness : Files → List String → String → Option PromptRow → RunRow → Readiness
run_readiness files inflight id prompt r =
    if has inflight id
    then not_resumable r resume_in_progress
    else if is_some prompt
    then not_resumable r open_prompt
    else recovery_readiness files r r.recovery_status

unfoldable pub load_resume_readiness : Files → List String → Db → String → Readiness
load_resume_readiness files inflight db id = elim (get_run db.runs id) [
  | none ↦ not_found
  | some r ↦ run_readiness files inflight id (get_open_prompt db id) r
]

-- `names_conflict` is the two searches in the recovery summary, for "merge conflict blocked
-- promotion" in any case and for "confirm_merge_resolved".
abbrev pub is_structured_merge_conflict_recovery_run : (String → Bool) → RunRow → Bool
is_structured_merge_conflict_recovery_run names_conflict r =
    is_status r.recovery_status RecoveryStatus.blocked
    && (is_scope r.recovery_scope stage
        && (is_text r.recovery_scope_ref "merge-gate"
            && elim r.recovery_summary [ none ↦ false | some s ↦ names_conflict s ]))

abbrev pub is_ready : Readiness → Bool
is_ready (ready _ _ _) = true
is_ready _ = false

is_ready-in :
    (files : Files) (r : RunRow) (status : RecoveryStatus) (o : Option String)
    → is_ready (readiness_in files r status o) ≡ is_some o
is_ready-in files r status none = refl
is_ready-in files r status (some dir) = refl

is_ready-recovery :
    (files : Files) (r : RunRow) (o : Option RecoveryStatus)
    → is_ready (recovery_readiness files r o) ≡ (is_some o && is_some (files.infer_workspace_dir r))
is_ready-recovery files r none = refl
is_ready-recovery files r (some status) = is_ready-in files r status (files.infer_workspace_dir r)

abbrev pub is_resumable : Files → List String → String → Option PromptRow → RunRow → Bool
is_resumable files inflight id prompt r =
    not (has inflight id)
    && (is_none prompt && (is_some r.recovery_status && is_some (files.infer_workspace_dir r)))

is_ready-run :
    (files : Files) (inflight : List String) (id : String) (p : Option PromptRow) (r : RunRow)
    → is_ready (run_readiness files inflight id p r) ≡ is_resumable files inflight id p r
is_ready-run files inflight id none r = ground (arith, is_ready-recovery files r r.recovery_status)
is_ready-run files inflight id (some p) r = ground arith

-- A run is ready to be resumed exactly if it exists, no resume of it is under way, it waits for no
-- answer, it has a recovery status and its workspace directory is found.
pub load_resume_readiness-is_resumable :
    (files : Files) (inflight : List String) (db : Db) (id : String)
    → is_ready (load_resume_readiness files inflight db id) ≡ elim (get_run db.runs id) [
      | none ↦ false
      | some r ↦ is_resumable files inflight id (get_open_prompt db id) r
    ]
unfolding load_resume_readiness
load_resume_readiness-is_resumable files inflight db id = go (get_run db.runs id)
  where
    go :
        (o : Option RunRow)
        → is_ready (elim o [
          | none ↦ not_found
          | some r ↦ run_readiness files inflight id (get_open_prompt db id) r
        ])
          ≡ elim o [
            | none ↦ false
            | some r ↦ is_resumable files inflight id (get_open_prompt db id) r
          ]
    go none = refl
    go (some r) = is_ready-run files inflight id (get_open_prompt db id) r
