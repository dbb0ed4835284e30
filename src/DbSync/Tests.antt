-- ===== src/DbSync/Tests.antt =====
-- Events of one run of an item, alone and beside another.
use beerengineer.Base.{◌≡◌, refl, true, false, none, some, List, [], ◌∷◌}
use beerengineer.Base.Tests.{if◌then◌else◌}
use beerengineer.Base.Lists.{any, select, find}
use beerengineer.Base.Sorting.{sort, insert}
use beerengineer.Base.Texts.{eq_text}
use beerengineer.RunStore.Rows.{RunRow, ItemRow, merge, review_required, done, completed}
use beerengineer.RunStore.Updates.{
  get_run, get_item, set_item_column, set_item_current_stage, update_run,
}
use beerengineer.RunStore.Queries.{list_runs_for_item}
use beerengineer.RunStore.Samples.{fresh_run}
use beerengineer.RunStore.Journal.{append_log}
use beerengineer.DbSync.{was_sole_live_run, on_event}
use beerengineer.DbSync.Events.{
  EndStatus, Sync, SyncContext, run_finished, run_blocked, stage_scope,
}
use beerengineer.DbSync.Authority.{on_event-items, get_run-on_event}
use beerengineer.DbSync.Finish.{finished_item, get_item-run_finished}
use beerengineer.BoardColumns.{map_stage_to_column}

abbrev at_merge_gate : ItemRow
at_merge_gate = record {
  id = "item";
  code = "I-1";
  current_column = merge;
  phase_status = review_required;
  current_stage = some "merge-gate";
  updated_at = 3;
}

abbrev sync_of : List RunRow → Sync
sync_of runs = record {
  journal = record {
    db = record { runs = runs; items = at_merge_gate ∷ []; prompts = [] };
    stage_runs = [];
    logs = [];
    artifacts = [];
    projects = [];
  };
  stage_run_ids = [];
  persisted_stage_ids = [];
  persisted_project_ids = [];
  published = [];
}

abbrev ctx : SyncContext
ctx = record {
  run_id = "r1";
  item_id = "item";
  now = 9;
  story_ref = λ wave story. story;
  is_supabase_provisioning = λ payload. false;
  no_answer_sentinel = "none";
  notifies = true;
}

abbrev alone : Sync
alone = sync_of (fresh_run "r1" 1 ∷ [])

abbrev beside : Sync
beside = sync_of (fresh_run "r1" 1 ∷ fresh_run "r2" 2 ∷ [])

not_sole_beside : was_sole_live_run ctx beside ≡ false
unfolding was_sole_live_run list_runs_for_item sort insert select any eq_text
not_sole_beside = refl

abbrev merged_item : ItemRow
merged_item = record at_merge_gate {
  current_column = done;
  phase_status = completed;
  current_stage = none;
  updated_at = 9;
}

-- A run that completes at the merge gate brings its item to `done`.
merge_completes :
    get_item (on_event ctx (run_finished "r1" EndStatus.completed) alone).journal.db.items "item"
    ≡ some merged_item
unfolding on_event get_item find eq_text map_stage_to_column set_item_column set_item_current_stage
    list_runs_for_item sort insert select any append_log get_run update_run
merge_completes = refl

on_event-items_example :
    ((on_event ctx (run_finished "r1" EndStatus.completed) beside).journal.db.items
      ≡ beside.journal.db.items)
    × ((on_event ctx (run_finished "r1" EndStatus.completed) beside).published ≡ [])
on_event-items_example =
    on_event-items ctx (run_finished "r1" EndStatus.completed) beside refl not_sole_beside

get_run-on_event_example :
    get_run
      (on_event ctx (run_blocked "r1" (stage_scope "execution") "stuck") beside).journal.db.runs
      "r2"
    ≡ get_run beside.journal.db.runs "r2"
get_run-on_event_example =
    get_run-on_event ctx (run_blocked "r1" (stage_scope "execution") "stuck") beside "r2" refl other
  where
    other : eq_text "r2" "r1" ≡ false
    other = unfold eq_text in refl

found_item : get_item alone.journal.db.items "item" ≡ some at_merge_gate
unfolding get_item find eq_text
found_item = refl

get_item-run_finished_example :
    get_item (on_event ctx (run_finished "r1" EndStatus.completed) alone).journal.db.items "item"
    ≡ some (
        if was_sole_live_run ctx alone
        then finished_item 9 EndStatus.completed at_merge_gate
        else at_merge_gate)
get_item-run_finished_example =
    get_item-run_finished ctx alone at_merge_gate found_item EndStatus.completed
