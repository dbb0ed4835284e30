-- ===== src/ResumeRun.antt =====
-- The resume of a run (`performResume` and what it calls in apps/engine/src/core/resume.ts).
use beerengineer.Base.{
  ℕ, String, Bool, true, false, not, ◌&&◌, ◌||◌, Option, none, some, List, [], ◌∷◌, ◌++◌,
}
use beerengineer.Base.Tests.{if◌then◌else◌, is_some, get_or, split_option}
use beerengineer.Base.Lists.{select}
use beerengineer.Base.Texts.{eq_text, before_slash}
use beerengineer.Base.Maps.{add_to}
use beerengineer.Base.Effects.{Result, ok, err, Effect, return, throw, ◌>>=◌, ◌>>◌}
use beerengineer.RunStore.Rows.{RunRow, RunOwner, Db, RecoveryStatus, is_status}
use beerengineer.RunStore.Updates.{get_run, update_run}
use beerengineer.RunStore.Journal.{clear_run_recovery}
use beerengineer.WorkerLease.{claim_worker_lease}
use beerengineer.ItemActions.Readiness.{
  Scope, whole_run, of_stage, of_story, RecoveryRecord, Readiness, not_found, not_resumable,
  no_recovery, ready, Files, load_resume_readiness,
}
use beerengineer.DbSync.{set_runs, with_status, on_event}
use beerengineer.DbSync.Events.{
  RecoveryEventScope, run_scope, stage_scope, EndStatus, completed, failed, WorkflowEvent,
  run_finished, run_resumed, log_only, Sync, SyncContext,
}
pub mod Cleanup
mod Tests

-- `WorkflowResumeInput`, with the fields that a resume sets.
pub record WorkflowResumeInput : Type 0 where
  pub scope : Scope
  pub current_stage : Option String
  pub skip_design_prep : Bool

-- What the workflow throws: `WorkflowCancelledError` or another error.
pub data WorkflowError : Type 0 where
  workflow_cancelled : WorkflowError
  workflow_error : (message : String) → WorkflowError

pub data ResumeError : Type 0 where
  not_ready : ResumeError
  llm_options_failed : ResumeError
  no_bus : ResumeError
  invalid_checkpoint : ResumeError
  -- The file `pending-remediation.json` could not be written.
  preparation_failed : (message : String) → ResumeError
  threw : WorkflowError → ResumeError

-- The remediation that the operator recorded.
pub record ExternalRemediation : Type 0 where
  pub id : String
  pub summary : String

-- What a resume calls outside the store: `W` is the state of files, git, models and the cancellation.
-- A story is named by its reference `<wave>/<story>`; `story_stage` is its path
-- `execution/waves/<wave>/stories/<story>`.
pub record ResumeEnvironment (W : Type 0) : Type 0 where
  pub files : W → Files
  pub llm_options_fail : W → Bool
  pub trim : String → String
  pub has_persisted_plan : W → Bool
  pub is_prepared_import_run : W → Bool
  -- The status in the story's `implementation.json`, if it can be read.
  pub read_implementation : String → W → Option String
  -- The writes of `prepareStoryScopeForResume`, which may throw a message.
  pub reset_implementation : String → Effect W String (Unit {0})
  pub write_pending_remediation : String → ExternalRemediation → Effect W String (Unit {0})
  pub story_stage : String → String
  pub story_scope_of : String → RecoveryEventScope
  pub is_cancelled : W → Bool
  -- `runWorkflow`: what it does to the files, and through its events to the store.
  pub workflow : WorkflowResumeInput → Effect (W × Sync) WorkflowError (Unit {0})

-- The state of a resume: the outside, the store with its subscriber, the runs that are being resumed,
-- whether this resume's heartbeat and subscriber are on, and the last state written to `run.json`.
pub record Resuming (W : Type 0) : Type 0 where
  pub outside : W
  pub sync : Sync
  pub inflight_resumes : List String
  pub heartbeat_on : Bool
  pub subscribed : Bool
  pub run_state : Option (String × EndStatus)

pub record PerformResumeInput : Type 0 where
  pub remediation : ExternalRemediation
  pub resume : Option WorkflowResumeInput
  pub has_bus : Bool
  pub worker_owner_kind : Option RunOwner
  pub worker_instance_id : Option String
  pub default_instance_id : RunOwner → String

-- `!x` of a text: null and the empty text.
abbrev non_empty : String → Option String
non_empty s = if eq_text s "" then none else some s

-- `inflightResumes.delete(id)`.
abbrev pub without_run : String → List String → List String
without_run id ids = select (λ x. not (eq_text x id)) ids

module _ {W : Type 0} (env : ResumeEnvironment W) where
  -- `run.current_stage?.trim() || null`.
  abbrev trimmed_stage : RunRow → Option String
  trimmed_stage r = split_option none (λ s. non_empty (env.trim s)) r.current_stage

  abbrev is_early : Option String → Bool
  is_early none = true
  is_early (some s) = eq_text (before_slash s) "planning"

  -- `resumeCurrentStage`, by the scope of the record.
  unfoldable pub resume_current_stage : RunRow → Scope → W → Option String
  resume_current_stage r (of_stage id) w = some id
  resume_current_stage r (of_story ref) w = some (env.story_stage ref)
  resume_current_stage r whole_run w =
      if is_early (trimmed_stage r) && env.has_persisted_plan w
      then some "execution"
      else trimmed_stage r

  unfoldable pub build_workflow_resume_input : RunRow → RecoveryRecord → W → WorkflowResumeInput
  unfolding resume_current_stage
  build_workflow_resume_input r found w = record {
    scope = found.scope;
    current_stage = resume_current_stage r found.scope w;
    skip_design_prep = env.is_prepared_import_run w;
  }

  abbrev pub resume_event_scope : Scope → RecoveryEventScope
  resume_event_scope whole_run = run_scope
  resume_event_scope (of_stage id) = stage_scope id
  resume_event_scope (of_story ref) = env.story_scope_of ref

  abbrev pub Act : Type 0 → Type 0
  Act A = Effect (Resuming W) ResumeError A

  abbrev pub change : (Resuming W → Resuming W) → Act (Unit {0})
  change f r = (ok tt, f r)

  -- A write of a file, and what the resume throws where it fails.
  abbrev pub written :
      (String → ResumeError)
      → Resuming W
      → Result String (Unit {0}) × W
      → Result ResumeError (Unit {0}) × Resuming W
  written to_error r (ok _, w) = (ok tt, record r { outside = w })
  written to_error r (err message, w) = (err (to_error message), record r { outside = w })

  abbrev pub write : (String → ResumeError) → Effect W String (Unit {0}) → Act (Unit {0})
  write to_error f r = written to_error r (f r.outside)

  -- The `catch` round the reading and the reset of `implementation.json`.
  abbrev pub invalid_checkpoint_for : String → ResumeError
  invalid_checkpoint_for message = invalid_checkpoint

  -- `prepareStoryScopeForResume`.
  abbrev pub prepare_story_scope_for_resume :
      String → ExternalRemediation → Option String → Act (Unit {0})
  prepare_story_scope_for_resume ref remediation none = throw invalid_checkpoint
  prepare_story_scope_for_resume ref remediation (some status) = do
    if eq_text status "blocked"
        then write invalid_checkpoint_for (env.reset_implementation ref)
        else return tt
    write preparation_failed (env.write_pending_remediation ref remediation)

  unfoldable pub prepare_resume_scope : Scope → ExternalRemediation → Act (Unit {0})
  prepare_resume_scope whole_run remediation = return tt
  prepare_resume_scope (of_stage id) remediation = return tt
  prepare_resume_scope (of_story ref) remediation =
      λ r. prepare_story_scope_for_resume ref remediation (env.read_implementation ref r.outside) r

  -- `bus.emit`: the subscriber of the store writes the event while it is attached.
  abbrev pub emit : SyncContext → WorkflowEvent → Act (Unit {0})
  emit ctx e = change (λ r. if r.subscribed then record r { sync = on_event ctx e r.sync } else r)

  abbrev pub find_run : String → Resuming W → Option RunRow
  find_run id r = get_run r.sync.journal.db.runs id

  abbrev pub recovery_of : Option RunRow → Option RecoveryStatus
  recovery_of o = split_option none (λ (x : RunRow). x.recovery_status) o

  abbrev pub stage_or : Option RunRow → String → String
  stage_or o fallback = split_option fallback (λ (x : RunRow). get_or x.current_stage fallback) o

  -- `persistWorkflowRunState` and the event of the run's end.
  abbrev pub finish_run : SyncContext → String → EndStatus → Act (Unit {0})
  finish_run ctx stage status = do
    change (λ r. record r { run_state = some (stage, status) })
    emit ctx (run_finished ctx.run_id status)

  -- The clearing of a recovery that Supabase provisioning left.
  abbrev clear_provisioning : SyncContext → Act (Unit {0})
  clear_provisioning ctx = change (λ r.
      if is_some (recovery_of (find_run ctx.run_id r))
        && ctx.is_supabase_provisioning
            (split_option none (λ (x : RunRow). x.recovery_payload_json) (find_run ctx.run_id r))
      then record r {
        sync = set_runs (clear_run_recovery ctx.run_id ctx.now r.sync.journal.db.runs) r.sync;
      }
      else r)

  -- The end of the `try` after the workflow has returned.
  unfoldable pub after_workflow : SyncContext → Act (Unit {0})
  unfolding on_event
  after_workflow ctx = do
    clear_provisioning ctx
    λ r.
        if is_some (recovery_of (find_run ctx.run_id r))
        then (ok tt, r)
        else finish_run ctx (stage_or (find_run ctx.run_id r) "handoff") completed r

  abbrev is_cancellation : WorkflowError → Bool
  is_cancellation workflow_cancelled = true
  is_cancellation (workflow_error message) = false

  -- The `catch`. `run` is the row as it was read before the resume.
  unfoldable pub on_workflow_error : SyncContext → RunRow → WorkflowError → Act (Unit {0})
  unfolding on_event
  on_workflow_error ctx run e r =
      if is_some (recovery_of (find_run ctx.run_id r))
      then (if is_status (recovery_of (find_run ctx.run_id r)) RecoveryStatus.blocked
            && not (is_cancellation e)
          then (ok tt, r)
          else (err (threw e), r))
      else (finish_run ctx (stage_or (find_run ctx.run_id r) (get_or run.current_stage "execution"))
              failed
            >> throw (threw e))
          r

  abbrev pub call_workflow :
      WorkflowResumeInput → Resuming W → Result WorkflowError (Unit {0}) × Resuming W
  call_workflow input r = (
    (env.workflow input (r.outside, r.sync)).0,
    record r {
      outside = (env.workflow input (r.outside, r.sync)).1.0;
      sync = (env.workflow input (r.outside, r.sync)).1.1;
    },
  )

  abbrev pub settle :
      SyncContext
      → RunRow
      → Result WorkflowError (Unit {0}) × Resuming W
      → Result ResumeError (Unit {0}) × Resuming W
  settle ctx run (ok _, r) =
      if env.is_cancelled r.outside
      then on_workflow_error ctx run workflow_cancelled r
      else after_workflow ctx r
  settle ctx run (err e, r) = on_workflow_error ctx run e r

  -- The body that runs with the workflow's io, up to the end of its `catch`.
  unfoldable pub run_resumed_workflow : SyncContext → RunRow → WorkflowResumeInput → Act (Unit {0})
  unfolding after_workflow on_workflow_error
  run_resumed_workflow ctx run input r =
      if env.is_cancelled r.outside
      then (err (threw workflow_cancelled), r)
      else let running : Resuming W = record r {
        sync =
            set_runs
              (update_run ctx.run_id (with_status ctx "running") ctx.now r.sync.journal.db.runs)
              r.sync;
      } in
        settle ctx run (call_workflow input running)

  -- `finally`.
  abbrev pub finally : {A : Type 0} → (Resuming W → Resuming W) → Act A → Act A
  finally f m r = ((m r).0, f (m r).1)

  abbrev pub stop_and_detach : Resuming W → Resuming W
  stop_and_detach r = record r { heartbeat_on = false; subscribed = false }

  abbrev pub leave : String → Resuming W → Resuming W
  leave id r = record r { inflight_resumes = without_run id r.inflight_resumes }

  -- The inner `try`: the events, and the workflow.
  abbrev pub resume_inner :
      SyncContext → PerformResumeInput → RunRow → RecoveryRecord → Act (Unit {0})
  resume_inner ctx input run found = do
    emit ctx (log_only ctx.run_id none "external_remediation_recorded" input.remediation.summary)
    emit ctx (run_resumed ctx.run_id (resume_event_scope found.scope))
    λ r.
        run_resumed_workflow ctx run
          (get_or input.resume (build_workflow_resume_input run found r.outside)) r

  abbrev pub claim : SyncContext → PerformResumeInput → RunRow → Act (Unit {0})
  claim ctx input run =
      let kind = get_or input.worker_owner_kind run.owner in
      change (λ r. record r {
        sync =
            set_runs
              (claim_worker_lease
                (record {
                  run_id = run.id;
                  worker_instance_id =
                      get_or input.worker_instance_id (input.default_instance_id kind);
                  worker_owner_kind = kind;
                })
                ctx.now r.sync.journal.db.runs).0
              r.sync;
        heartbeat_on = true;
        subscribed = true;
      })

  -- What runs between `inflightResumes.add` and `inflightResumes.delete`.
  unfoldable pub resume_outer :
      SyncContext → PerformResumeInput → RunRow → RecoveryRecord → Act (Unit {0})
  unfolding run_resumed_workflow build_workflow_resume_input prepare_resume_scope on_event
      claim_worker_lease
  resume_outer ctx input run found =
      if input.has_bus
      then (do
        claim ctx input run
        prepare_resume_scope found.scope input.remediation
        finally stop_and_detach (resume_inner ctx input run found))
      else throw no_bus

  abbrev pub perform_ready : SyncContext → PerformResumeInput → Readiness → Act (Unit {0})
  perform_ready ctx input (ready run found dir) r =
      if env.llm_options_fail r.outside
      then (err llm_options_failed, r)
      else finally (leave ctx.run_id) (resume_outer ctx input run found)
          (record r { inflight_resumes = add_to r.inflight_resumes ctx.run_id })
  perform_ready ctx input _ r = (err not_ready, r)

  -- The context is that of the run: its id and its item.
  unfoldable pub perform_resume : SyncContext → PerformResumeInput → Act (Unit {0})
  unfolding resume_outer
  perform_resume ctx input r =
      perform_ready ctx input
        (load_resume_readiness (env.files r.outside) r.inflight_resumes r.sync.journal.db
          ctx.run_id)
        r
