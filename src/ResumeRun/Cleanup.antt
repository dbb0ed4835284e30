-- ===== src/ResumeRun/Cleanup.antt =====
-- What a resume leaves switched on when it ends.
use beerengineer.Base.{String, ◌≡◌, Bool, true, false, List, arith}
use beerengineer.Base.Effects.{Result, ok, err}
use beerengineer.RunStore.Rows.{RunRow}
use beerengineer.ItemActions.Readiness.{RecoveryRecord, Readiness}
use beerengineer.DbSync.Events.{EndStatus, SyncContext}
use beerengineer.ResumeRun.{
  ResumeEnvironment, Resuming, PerformResumeInput, ResumeError, invalid_checkpoint,
  preparation_failed, resume_inner, finish_run, finally, stop_and_detach,
}

-- The scope of the resume could not be prepared.
abbrev pub is_preparation_failure : Result ResumeError (Unit {0}) → Bool
is_preparation_failure (err invalid_checkpoint) = true
is_preparation_failure (err (preparation_failed message)) = true
is_preparation_failure _ = false

module _ {W : Type 0} (env : ResumeEnvironment W) (ctx : SyncContext) where
  -- A part that does not fail as the preparation does and leaves the runs in flight as they are.
  Calm : List String → Result ResumeError (Unit {0}) × Resuming W → Type 0
  Calm ids x = (is_preparation_failure x.0 ≡ false) × (x.1.inflight_resumes ≡ ids)

  finish_run-inflight :
      (stage : String) (status : EndStatus) (r : Resuming W)
      → (finish_run env ctx stage status r).1.inflight_resumes ≡ r.inflight_resumes
  finish_run-inflight stage status r = ground arith

  -- The heartbeat, the subscriber and the runs in flight are the same.
  abbrev Same : Resuming W → Resuming W → Type 0
  Same s t =
      (t.heartbeat_on ≡ s.heartbeat_on)
      × ((t.subscribed ≡ s.subscribed) × (t.inflight_resumes ≡ s.inflight_resumes))

  -- A part of the preparation, which leaves them, and fails with an error of the preparation only.
  Prepared : Resuming W → Result ResumeError (Unit {0}) × Resuming W → Type 0
  Prepared s (ok u, t) = Same s t
  Prepared s (err e, t) = (is_preparation_failure (err e) ≡ true) × Same s t

  -- After the outer part, the heartbeat and the subscriber are on exactly if the preparation failed.
  record IsSettled (ids : List String) (x : Result ResumeError (Unit {0}) × Resuming W)
      : Type 0 where
    heartbeat : x.1.heartbeat_on ≡ is_preparation_failure x.0
    subscriber : x.1.subscribed ≡ is_preparation_failure x.0
    inflight : x.1.inflight_resumes ≡ ids

  module _ (input : PerformResumeInput) (run : RunRow) (found : RecoveryRecord)
      (ids : List String) where
    abbrev Rest : Resuming W → Result ResumeError (Unit {0}) × Resuming W
    Rest = finally env (stop_and_detach env) (resume_inner env ctx input run found)
