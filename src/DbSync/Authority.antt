-- ===== src/DbSync/Authority.antt =====
-- Whose run an item follows, and which runs an event writes (apps/engine/src/core/dbSync.ts).
use beerengineer.Base.{
  String, ◌≡◌, refl, sym, ◌∙◌, ap, Bool, false, not, List, [], ◌∷◌, arith, some, none,
}
use beerengineer.Base.Lists.{any, select}
use beerengineer.Base.Sorting.{any-sort}
use beerengineer.Base.Texts.{eq_text, eq_text_iff, eq_text_self}
use beerengineer.RunStore.Rows.{RunRow, ItemRow}
use beerengineer.RunStore.Updates.{
  get_run, RunPatch, patch_row, update_run, update_runs, always, set_item_column,
}
use beerengineer.RunStore.Queries.{list_runs_for_item, newer}
use beerengineer.RunStore.Laws.{get_run-update_other}
use beerengineer.DbSync.{
  set_runs, was_sole_live_run, live_sibling, on_event, persist, persist_item_column_changed_event,
}
use beerengineer.DbSync.Events.{
  WorkflowEvent, Sync, SyncContext, run_started, stage_started, stage_completed, prompt_answered,
  artifact_written, run_finished, item_column_changed, project_created, run_blocked, run_failed,
  run_resumed, presentation, log_only,
}
use beerengineer.DbSync.Writes.{IsOfRun, Closed, on_event_keeps}

module _ (ctx : SyncContext) where
  abbrev siblings_live : List RunRow → Bool
  siblings_live runs = any (live_sibling ctx) (select (λ r. eq_text r.item_id ctx.item_id) runs)

  -- A write of the run's own row does not change whether another run is live.
  siblings_live-update :
      (patch : RunPatch) (runs : List RunRow)
      → siblings_live (update_run ctx.run_id patch ctx.now runs) ≡ siblings_live runs
  unfolding update_run update_runs any select
  siblings_live-update patch [] = refl
  siblings_live-update patch (r ∷ rs) =
      ground
        (arith, siblings_live-update patch rs, eq_text_iff r.id ctx.run_id, eq_text_self ctx.run_id)

  pub was_sole_live_run-update :
      (s : Sync) (patch : RunPatch)
      → was_sole_live_run ctx (set_runs (update_run ctx.run_id patch ctx.now s.journal.db.runs) s)
        ≡ was_sole_live_run ctx s
  unfolding was_sole_live_run list_runs_for_item
  was_sole_live_run-update s patch = ap not (
      any-sort newer (live_sibling ctx) _
      ∙ siblings_live-update patch s.journal.db.runs
      ∙ sym (any-sort newer (live_sibling ctx) _))

  -- The items and what was published of them are those of `start`, and another run is live.
  record IsQuiet (start s : Sync) : Type 0 where
    same_items : s.journal.db.items ≡ start.journal.db.items
    same_published : s.published ≡ start.published
    not_sole : was_sole_live_run ctx s ≡ false

  Closed-IsQuiet : (start : Sync) → Closed ctx (IsQuiet start)
  unfolding was_sole_live_run
  Closed-IsQuiet start = record {
    records = λ s j h e. record {
      same_items = ap (λ d. d.items) e ∙ h.same_items;
      same_published = h.same_published;
      not_sole =
          ap (λ d. not (any (live_sibling ctx) (list_runs_for_item d.runs ctx.item_id))) e
          ∙ h.not_sole;
    };
    maps = λ s stage_ids persisted projects h. record {
      same_items = h.same_items;
      same_published = h.same_published;
      not_sole = h.not_sole;
    };
    run_row = λ s patch h. record {
      same_items = h.same_items;
      same_published = h.same_published;
      not_sole = was_sole_live_run-update s patch ∙ h.not_sole;
    };
    item_column = λ begin s column phase published h sole k. cc (sym sole ∙ h.not_sole);
    item_stage = λ begin s stage h sole k. cc (sym sole ∙ h.not_sole);
  }

  Closed-same_run :
      (start : Sync) (other : String)
      → eq_text other ctx.run_id ≡ false
      → Closed ctx (λ s. get_run s.journal.db.runs other ≡ get_run start.journal.db.runs other)
  unfolding update_run
  Closed-same_run start other ne = record {
    records = λ s j h e. ap (λ d. get_run d.runs other) e ∙ h;
    maps = λ s stage_ids persisted projects h. h;
    run_row = λ s patch h.
        get_run-update_other ctx.run_id always (patch_row patch ctx.now) (λ r. refl)
          s.journal.db.runs other ne
        ∙ h;
    item_column = λ begin s column phase published h sole k. k;
    item_stage = λ begin s stage h sole k. k;
  }

-- The event is of the subscriber's run, or moves an item as somebody else decided.
abbrev pub IsHandled : SyncContext → WorkflowEvent → Type 0
IsHandled ctx (item_column_changed item column phase) = Unit
IsHandled ctx e = IsOfRun ctx e

-- The items after an event that only does what it tells of an item.
abbrev pub told_items : SyncContext → WorkflowEvent → List ItemRow → List ItemRow
told_items ctx (item_column_changed item column phase) items =
    set_item_column item column phase ctx.now items
told_items ctx _ items = items

-- While another run of the item is running or blocked, no event of a run changes an item, whether or not
-- its handler throws. A change of an item's column that was decided elsewhere is written as the event
-- tells it. None of these events publishes a change of a column.
pub on_event-items :
    (ctx : SyncContext) (e : WorkflowEvent) (s : Sync)
    → IsHandled ctx e
    → was_sole_live_run ctx s ≡ false
    → ((on_event ctx e s).journal.db.items ≡ told_items ctx e s.journal.db.items)
      × ((on_event ctx e s).published ≡ s.published)
on_event-items ctx e s o h = by_event e o
  where
    quiet :
        (e : WorkflowEvent)
        → IsOfRun ctx e
        → ((on_event ctx e s).journal.db.items ≡ s.journal.db.items)
          × ((on_event ctx e s).published ≡ s.published)
    quiet e o =
        let q =
          on_event_keeps ctx (IsQuiet ctx s) (Closed-IsQuiet ctx s) e s o
            (record { same_items = refl; same_published = refl; not_sole = h }) in
        (q.same_items, q.same_published)

    by_event :
        (e : WorkflowEvent)
        → IsHandled ctx e
        → ((on_event ctx e s).journal.db.items ≡ told_items ctx e s.journal.db.items)
          × ((on_event ctx e s).published ≡ s.published)
    by_event (run_started id title) o = quiet (run_started id title) o
    by_event (stage_started id r k p) o = quiet (stage_started id r k p) o
    by_event (stage_completed id r k t m) o = quiet (stage_completed id r k t m) o
    by_event (prompt_answered id a b) o = quiet (prompt_answered id a b) o
    by_event (artifact_written id r l k p) o = quiet (artifact_written id r l k p) o
    by_event (run_finished id t) o = quiet (run_finished id t) o
    by_event (item_column_changed item column phase) o =
        unfold on_event persist persist_item_column_changed_event in (refl, refl)
    by_event (project_created id i p f c n m k) o = quiet (project_created id i p f c n m k) o
    by_event (run_blocked id c m) o = quiet (run_blocked id c m) o
    by_event (run_failed id c m) o = quiet (run_failed id c m) o
    by_event (run_resumed id c) o = quiet (run_resumed id c) o
    by_event (presentation none r t) o = quiet (presentation none r t) o
    by_event (presentation (some id) r t) o = quiet (presentation (some id) r t) o
    by_event (log_only id r t m) o = quiet (log_only id r t m) o

-- No event of a run changes the row of another run.
pub get_run-on_event :
    (ctx : SyncContext) (e : WorkflowEvent) (s : Sync) (other : String)
    → IsOfRun ctx e
    → eq_text other ctx.run_id ≡ false
    → get_run (on_event ctx e s).journal.db.runs other ≡ get_run s.journal.db.runs other
get_run-on_event ctx e s other o ne =
    on_event_keeps ctx (λ t. get_run t.journal.db.runs other ≡ get_run s.journal.db.runs other)
      (Closed-same_run ctx s other ne) e s o refl
