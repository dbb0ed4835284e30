-- ===== src/ResumeRun/Tests.antt =====
-- Resumes of a blocked story whose files are a number of writes.
use beerengineer.Base.{ℕ, suc, ◌≡◌, refl, true, false, none, some, [], ◌∷◌}
use beerengineer.Base.Lists.{find, select}
use beerengineer.Base.Sorting.{sort, insert}
use beerengineer.Base.Texts.{eq_text, has}
use beerengineer.Base.Effects.{ok, err}
use beerengineer.RunStore.Rows.{RunRow, RecoveryStatus, RecoveryScope}
use beerengineer.RunStore.Updates.{get_run}
use beerengineer.RunStore.Queries.{get_open_prompt}
use beerengineer.RunStore.Samples.{fresh_run}
use beerengineer.ItemActions.Readiness.{Files, load_resume_readiness}
use beerengineer.DbSync.Events.{run_scope, SyncContext}
use beerengineer.ResumeRun.{
  ResumeEnvironment, Resuming, PerformResumeInput, invalid_checkpoint, preparation_failed,
  perform_resume,
}

abbrev blocked_story : RunRow
blocked_story = record (fresh_run "r1" 1) {
  status = "blocked";
  recovery_status = some RecoveryStatus.blocked;
  recovery_scope = some RecoveryScope.story;
  recovery_scope_ref = some "2/S1";
}

abbrev found_files : Files
found_files = record {
  infer_workspace_dir = λ r. some "/work";
  read_recovery_record = λ dir id scope. some (record {
    status = RecoveryStatus.blocked;
    cause = "review_limit";
    scope = scope;
    summary = "stuck";
  });
}

-- The checkpoint of the story cannot be read.
abbrev env : ResumeEnvironment ℕ
env = record {
  files = λ w. found_files;
  llm_options_fail = λ w. false;
  trim = λ s. s;
  has_persisted_plan = λ w. true;
  is_prepared_import_run = λ w. false;
  read_implementation = λ ref w. none;
  reset_implementation = λ ref w. (ok tt, suc w);
  write_pending_remediation = λ ref remediation w. (err "ENOSPC", w);
  story_stage = λ ref. ref;
  story_scope_of = λ ref. run_scope;
  is_cancelled = λ w. false;
  workflow = λ input s. (ok tt, s);
}

abbrev input : PerformResumeInput
input = record {
  remediation = record { id = "m1"; summary = "fixed" };
  resume = none;
  has_bus = true;
  worker_owner_kind = none;
  worker_instance_id = some "api-1";
  default_instance_id = λ kind. "worker";
}

abbrev ctx : SyncContext
ctx = record {
  run_id = "r1";
  item_id = "item";
  now = 9;
  story_ref = λ wave story. story;
  is_supabase_provisioning = λ payload. false;
  no_answer_sentinel = "none";
  notifies = false;
}

abbrev start : Resuming ℕ
start = record {
  outside = 0;
  sync = record {
    journal = record {
      db = record { runs = blocked_story ∷ []; items = []; prompts = [] };
      stage_runs = [];
      logs = [];
      artifacts = [];
      projects = [];
    };
    stage_run_ids = [];
    persisted_stage_ids = [];
    persisted_project_ids = [];
    published = [];
  };
  inflight_resumes = [];
  heartbeat_on = false;
  subscribed = false;
  run_state = none;
}

-- The heartbeat goes on after the resume has failed.
unreadable_checkpoint :
    ((perform_resume env ctx input start).0 ≡ err invalid_checkpoint)
    × ((perform_resume env ctx input start).1.heartbeat_on ≡ true)
unfolding perform_resume load_resume_readiness get_open_prompt get_run find select sort insert has
    eq_text
unreadable_checkpoint = (refl, refl)

-- So it does after a write of the remediation that fails.
full_disk :
    ((perform_resume
        (record env { read_implementation = λ ref w. some "blocked" })
        ctx
        input
        start).0
      ≡ err (preparation_failed "ENOSPC"))
    × ((perform_resume
          (record env { read_implementation = λ ref w. some "blocked" })
          ctx
          input
          start).1.heartbeat_on
        ≡ true)
unfolding perform_resume load_resume_readiness get_open_prompt get_run find select sort insert has
    eq_text
full_disk = (refl, refl)
