-- ===== src/DbSync/Finish.antt =====
-- What the end of a run does to its item.
use beerengineer.Base.{
  ℕ, String, ◌≡◌, refl, ◌∙◌, ap, Bool, true, false, Option, none, some, inl, inr, ◌<>◌,
}
use beerengineer.Base.Tests.{if◌then◌else◌, if_ind, Bool-cases, get_or, split_option}
use beerengineer.Base.Effects.{Result}
use beerengineer.RunStore.Rows.{ItemRow, BoardColumn, PhaseStatus}
use beerengineer.RunStore.Updates.{get_item, set_item_column, update_run}
use beerengineer.RunStore.Items.{
  moved, at_stage_key, get_item-set_item_column_self, get_item-set_item_current_stage_self,
}
use beerengineer.RunStore.Journal.{Journal, DbError, append_log}
use beerengineer.BoardColumns.{map_stage_to_column, is_completed}
use beerengineer.DbSync.{
  log, was_sole_live_run, is_authoritative, update_authoritative_item_column, clear_stage_if,
  persist_run_finished_event, on_event, final_stage, set_runs, with_status,
}
use beerengineer.DbSync.Events.{
  EndStatus, completed, failed, run_finished, Sync, SyncContext, outcome_of, status_text,
}
use beerengineer.DbSync.Authority.{on_event-items}

-- The item of a run that has ended as the only live one: a completed run moves it to the column of
-- its stage, of the documentation if it has none; a failed one leaves its column and phase. Either
-- way it is on no stage any more.
abbrev before_clear : ℕ → EndStatus → ItemRow → ItemRow
before_clear now completed item =
    let target =
      map_stage_to_column (some (get_or item.current_stage "documentation")) is_completed in
    moved item target.0 target.1 now
before_clear now failed item = item

abbrev pub finished_item : ℕ → EndStatus → ItemRow → ItemRow
finished_item now status item = at_stage_key (before_clear now status item) none now

module _ (ctx : SyncContext) where
  log-items :
      (id : String) (stage_run_id : Option String) (event_type message : String) (s : Sync)
      → (log ctx id stage_run_id event_type message s).1.journal.db.items ≡ s.journal.db.items
  unfolding append_log
  log-items id stage_run_id event_type message s =
      if_ind (λ (r : Result DbError (Unit {0}) × Journal). r.1.db.items ≡ s.journal.db.items) _
        (λ _. refl) (λ _. refl)

  column_items :
      (target : BoardColumn × PhaseStatus) (can_write : Bool) (s : Sync)
      → (update_authoritative_item_column ctx target can_write s).journal.db.items ≡ (
          if can_write
          then set_item_column ctx.item_id target.0 target.1 ctx.now s.journal.db.items
          else s.journal.db.items)
  unfolding update_authoritative_item_column
  column_items target can_write s = elim (Bool-cases can_write) [
    | inl e ↦ rw e (
        if_ind
          (λ (t : Sync).
            t.journal.db.items
            ≡ set_item_column ctx.item_id target.0 target.1 ctx.now s.journal.db.items)
          ctx.notifies (λ _. refl) (λ _. refl))
    | inr e ↦ rw e refl
  ]

  -- The item after the writes of a run that ends as the only live one.
  module _ (s : Sync) (item : ItemRow)
      (found : get_item s.journal.db.items ctx.item_id ≡ some item) where
    stage_of_item :
        (t : Sync)
        → t.journal.db.items ≡ s.journal.db.items
        → final_stage ctx t ≡ get_or item.current_stage "documentation"
    stage_of_item t same =
        let stage : Option ItemRow → String =
          split_option "documentation" (λ (i : ItemRow). get_or i.current_stage "documentation") in
        ap (λ x. stage (get_item x ctx.item_id)) same ∙ ap stage found

    -- The item before its stage is cleared.
    moved_item :
        (status : EndStatus)
        → was_sole_live_run ctx s ≡ true
        → (t : Sync) → t.journal.db.items ≡ s.journal.db.items
        → get_item
            (update_authoritative_item_column ctx
              (map_stage_to_column (some (final_stage ctx t)) (outcome_of status))
              (is_authoritative ctx (some status) s)
              t).journal.db.items
            ctx.item_id
          ≡ some (before_clear ctx.now status item)
    unfolding is_authoritative
    moved_item completed sole t same =
        let target =
          map_stage_to_column (some (get_or item.current_stage "documentation")) is_completed in
        ap (λ x. get_item x ctx.item_id)
          (column_items (map_stage_to_column (some (final_stage ctx t)) is_completed)
            (was_sole_live_run ctx s) t)
        ∙ rw (sole, stage_of_item t same, same)
            (get_item-set_item_column_self ctx.item_id target.0 target.1 ctx.now s.journal.db.items
              item found)
    moved_item failed sole t same =
        ap (λ x. get_item x ctx.item_id)
          (column_items (map_stage_to_column (some (final_stage ctx t)) (outcome_of failed)) false t
            ∙ same)
        ∙ found

    sole_item :
        (status : EndStatus)
        → was_sole_live_run ctx s ≡ true
        → (t : Sync) → t.journal.db.items ≡ s.journal.db.items
        → get_item
            (clear_stage_if ctx (was_sole_live_run ctx s) (
              update_authoritative_item_column ctx
                (map_stage_to_column (some (final_stage ctx t)) (outcome_of status))
                (is_authoritative ctx (some status) s)
                t)).1.journal.db.items
            ctx.item_id
          ≡ some (finished_item ctx.now status item)
    sole_item status sole t same =
        let u =
          update_authoritative_item_column ctx
            (map_stage_to_column (some (final_stage ctx t)) (outcome_of status))
            (is_authoritative ctx (some status) s) t in
        ap (λ b. get_item (clear_stage_if ctx b u).1.journal.db.items ctx.item_id) sole
        ∙ get_item-set_item_current_stage_self ctx.item_id none ctx.now u.journal.db.items
            (before_clear ctx.now status item) (moved_item status sole t same)

    finished_alone :
        (status : EndStatus)
        → was_sole_live_run ctx s ≡ true
        → get_item (on_event ctx (run_finished ctx.run_id status) s).journal.db.items ctx.item_id
          ≡ some (finished_item ctx.now status item)
    unfolding on_event persist_run_finished_event
    finished_alone status sole =
        let ended : Sync =
          set_runs
            (update_run ctx.run_id (with_status ctx (status_text status)) ctx.now s.journal.db.runs)
            s in
        let written : Sync =
          (clear_stage_if ctx (was_sole_live_run ctx s) (
            update_authoritative_item_column ctx
              (map_stage_to_column (some (final_stage ctx ended)) (outcome_of status))
              (is_authoritative ctx (some status) s) ended)).1 in
        ap (λ x. get_item x ctx.item_id)
          (log-items ctx.run_id none "run_finished" ("run " <> status_text status) written)
        ∙ sole_item status sole ended refl

    -- When a run ends while no other run of its item is running or blocked, the item is on no stage any
    -- more; if the run has completed it is moved, as the board maps the completion of the stage it was
    -- on (the documentation, if none), and if the run has failed its column and phase stay. While another
    -- run is live, the item stays as it was.
    pub get_item-run_finished :
        (status : EndStatus)
        → get_item (on_event ctx (run_finished ctx.run_id status) s).journal.db.items ctx.item_id
          ≡ some (if was_sole_live_run ctx s then finished_item ctx.now status item else item)
    get_item-run_finished status = elim (Bool-cases (was_sole_live_run ctx s)) [
      | inl sole ↦ rw sole (finished_alone status sole)
      | inr other ↦ rw other (
          ap (λ x. get_item x ctx.item_id)
            (on_event-items ctx (run_finished ctx.run_id status) s refl other).0
          ∙ found)
    ]
