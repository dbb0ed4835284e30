-- ===== src/OrphanRecovery/Projection.antt =====
-- What marking a run does to its item (`projectRecoveredRunToItem` in
-- apps/engine/src/core/orphanRecovery.ts).
use beerengineer.Base.{
  ℕ, String, ◌≡◌, refl, sym, ◌∙◌, ap, Bool, true, false, none, some, List, arith,
}
use beerengineer.Base.Tests.{if◌then◌else◌}
use beerengineer.Base.Texts.{eq_text}
use beerengineer.RunStore.Rows.{RunRow, ItemRow, Db, merge, failed, review_required}
use beerengineer.RunStore.Updates.{get_run, get_item, update_run}
use beerengineer.RunStore.Items.{
  moved, at_stage_key, get_item-set_item_column_self, get_item-set_item_column_other,
  get_item-set_item_current_stage_self, get_item-set_item_current_stage_other,
}
use beerengineer.BoardColumns.{map_stage_to_column, is_failed}
use beerengineer.ItemActions.Matrix.{ItemAction, reject, lookup_transition}
use beerengineer.OrphanRecovery.{
  has_other_live_run_for_item, mapped_column, project_item, project_recovered_run_to_item,
  failed_recoverable, mark_run_failed_recoverable,
}

-- The item of a run that failed.
abbrev pub failed_item : ℕ → RunRow → ItemRow → ItemRow
failed_item now r item =
    at_stage_key (moved item (mapped_column item r.current_stage) failed now) none now

module _ (now : ℕ) (r : RunRow) (item : ItemRow) (items : List ItemRow)
    (found : get_item items item.id ≡ some item) where
  get_item-project_self :
      get_item (project_item now r item items) item.id ≡ some (failed_item now r item)
  get_item-project_self =
      get_item-set_item_current_stage_self item.id none now _
        (moved item (mapped_column item r.current_stage) failed now)
        (get_item-set_item_column_self item.id (mapped_column item r.current_stage) failed now items
          item found)

  get_item-project_other :
      (other : String)
      → eq_text item.id other ≡ false
      → get_item (project_item now r item items) other ≡ get_item items other
  get_item-project_other other d =
      get_item-set_item_current_stage_other item.id none now _ other d
      ∙ get_item-set_item_column_other item.id (mapped_column item r.current_stage) failed now items
          other d

-- The items after a projection.
project-items :
    (now : ℕ) (r : RunRow) (db : Db) (item : ItemRow)
    → get_item db.items r.item_id ≡ some item
    → (project_recovered_run_to_item now r db).items ≡ (
        if has_other_live_run_for_item db.runs r
        then db.items
        else project_item now r item db.items)
unfolding project_recovered_run_to_item
project-items now r db item h = rw h (ground arith)

mark-project :
    (now : ℕ) (db : Db) (r : RunRow) (summary : String)
    → get_run db.runs r.id ≡ some r
    → mark_run_failed_recoverable now db r.id summary
      ≡ project_recovered_run_to_item now r
          (record db { runs = update_run r.id (failed_recoverable summary) now db.runs })
unfolding mark_run_failed_recoverable
mark-project now db r summary h = rw h refl

mark-items :
    (now : ℕ) (db : Db) (r : RunRow) (summary : String) (item : ItemRow)
    → get_run db.runs r.id ≡ some r
    → get_item db.items item.id ≡ some item
    → item.id ≡ r.item_id
    → (mark_run_failed_recoverable now db r.id summary).items ≡ (
        if has_other_live_run_for_item (update_run r.id (failed_recoverable summary) now db.runs) r
        then db.items
        else project_item now r item db.items)
mark-items now db r summary item h k same =
    ap (λ d. d.items) (mark-project now db r summary h)
    ∙ project-items now r
        (record db { runs = update_run r.id (failed_recoverable summary) now db.runs }) item
        (ap (get_item db.items) (sym same) ∙ k)

-- Marking a run as failed leaves its item, if no other run of the item is live, in the column of the
-- run's stage (its own column if the run has none), in phase `failed` and without a stage. If another
-- run of the item is running or blocked, the item stays as it was. Other items stay as they were.
pub get_item-mark_run_failed_recoverable :
    (now : ℕ) (db : Db) (r : RunRow) (summary : String) (item : ItemRow) (other : String)
    → get_run db.runs r.id ≡ some r
    → get_item db.items item.id ≡ some item
    → item.id ≡ r.item_id
    → eq_text item.id other ≡ false
    → (get_item (mark_run_failed_recoverable now db r.id summary).items item.id
        ≡ some (
            if has_other_live_run_for_item
              (update_run r.id (failed_recoverable summary) now db.runs)
              r
            then item
            else failed_item now r item))
      × (get_item (mark_run_failed_recoverable now db r.id summary).items other
          ≡ get_item db.items other)
get_item-mark_run_failed_recoverable now db r summary item other h k same d =
    go (has_other_live_run_for_item (update_run r.id (failed_recoverable summary) now db.runs) r)
      (mark-items now db r summary item h k same)
  where
    go :
        (b : Bool)
        → (mark_run_failed_recoverable now db r.id summary).items
          ≡ (if b then db.items else project_item now r item db.items)
        → (get_item (mark_run_failed_recoverable now db r.id summary).items item.id
            ≡ some (if b then item else failed_item now r item))
          × (get_item (mark_run_failed_recoverable now db r.id summary).items other
              ≡ get_item db.items other)
    go true e = (ap (λ items. get_item items item.id) e ∙ k, ap (λ items. get_item items other) e)
    go false e = (
      ap (λ items. get_item items item.id) e ∙ get_item-project_self now r item db.items k,
      ap (λ items. get_item items other) e ∙ get_item-project_other now r item db.items k other d,
    )

rejects_in_merge_failed : (action : ItemAction) → lookup_transition action merge failed ≡ reject
unfolding lookup_transition
rejects_in_merge_failed ItemAction.start_brainstorm = refl
rejects_in_merge_failed ItemAction.start_visual_companion = refl
rejects_in_merge_failed ItemAction.start_frontend_design = refl
rejects_in_merge_failed ItemAction.promote_to_requirements = refl
rejects_in_merge_failed ItemAction.start_implementation = refl
rejects_in_merge_failed ItemAction.import_prepared = refl
rejects_in_merge_failed ItemAction.rerun_design_prep = refl
rejects_in_merge_failed ItemAction.resume_run = refl
rejects_in_merge_failed ItemAction.promote_to_base = refl
rejects_in_merge_failed ItemAction.confirm_merge_resolved = refl
rejects_in_merge_failed ItemAction.cancel_promotion = refl
rejects_in_merge_failed ItemAction.mark_done = refl

-- If the worker of a run is lost at the merge gate and no other run of its item is live, marking the run
-- leaves the item in the merge column in phase `failed`, where the table of actions rejects every action
-- of the operator on it, although the board column of a failed merge gate has phase `review_required`.
pub mark_run_failed_recoverable-merge_gate :
    (now : ℕ) (db : Db) (r : RunRow) (summary : String) (item : ItemRow) (action : ItemAction)
    → get_run db.runs r.id ≡ some r
    → get_item db.items item.id ≡ some item
    → item.id ≡ r.item_id
    → r.current_stage ≡ some "merge-gate"
    → has_other_live_run_for_item (update_run r.id (failed_recoverable summary) now db.runs) r
      ≡ false
    → (get_item (mark_run_failed_recoverable now db r.id summary).items item.id
        ≡ some (at_stage_key (moved item merge failed now) none now))
      × ((lookup_transition action merge failed ≡ reject)
          × ((map_stage_to_column r.current_stage is_failed).1 ≡ review_required))
unfolding map_stage_to_column eq_text mapped_column
mark_run_failed_recoverable-merge_gate now db r summary item action h k same at_gate alone =
    let items-after =
      mark-items now db r summary item h k same
      ∙ ap (λ b. if b then db.items else project_item now r item db.items) alone in
    (
      ap (λ items. get_item items item.id) items-after
          ∙ get_item-project_self now r item db.items k
          ∙ ap
              (λ stage.
                some (at_stage_key (moved item (mapped_column item stage) failed now) none now))
              at_gate,
      (
        rejects_in_merge_failed action,
        ap (λ stage. (map_stage_to_column stage is_failed).1) at_gate,
      ),
    )
