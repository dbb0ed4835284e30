-- ===== src/ItemActions/Moves.antt =====
-- What an action that moves its item writes and emits (`applyStateTransition` and
-- `recordStartRunIntent` in apps/engine/src/core/itemActions.ts).
use beerengineer.Base.{String, ◌≡◌, refl, subst, false, Option, none, some, ◌∷◌, arith}
use beerengineer.Base.Texts.{eq_text}
use beerengineer.RunStore.Rows.{ItemRow, BoardColumn, PhaseStatus, running}
use beerengineer.RunStore.Updates.{get_item}
use beerengineer.RunStore.Items.{
  moved, get_item-set_item_column_self, get_item-set_item_column_other,
}
use beerengineer.ItemActions.Matrix.{
  ItemAction, Transition, to_state, start_run, reject, resume, confirm_resolved,
  answer_prompt_or_resume, lookup_transition,
}
use beerengineer.ItemActions.Service.{
  ResumePayload, State, Environment, item_column_changed, ItemActionResult, state, needs_spawn,
  perform, carry_out, move,
}

-- The column and phase that a transition moves its item to.
abbrev pub target : Transition → Option (BoardColumn × PhaseStatus)
target (to_state column phase) = some (column, phase)
target (start_run column) = some (column, running)
target _ = none

-- What an action that moves the item reports: the new state, or that a run is to be spawned.
abbrev pub reported : ItemRow → ItemAction → Transition → Option ItemActionResult
reported item action (to_state column phase) = some (state item.id column phase)
reported item action (start_run column) = some (needs_spawn item.id action column running none none)
reported item action _ = none

-- `out` is the state and the result of moving `item`, and leaves all else alone: the item `other`,
-- the runs, the prompts and the remediations.
abbrev pub IsMove :
    Environment
    → State
    → ItemRow
    → ItemAction
    → BoardColumn
    → PhaseStatus
    → String
    → Transition
    → State × ItemActionResult
    → Type 0
IsMove env s item action column phase other t out =
    (get_item out.0.db.items item.id ≡ some (moved item column phase env.now))
    × ((get_item out.0.db.items other ≡ get_item s.db.items other)
        × (((out.0.db.runs ≡ s.db.runs)
              × (out.0.db.prompts ≡ s.db.prompts)
              × (out.0.remediations ≡ s.remediations))
            × ((out.0.events
                  ≡ item_column_changed item.id item.current_column column phase ∷ s.events)
                × (reported item action t ≡ some out.1))))

module _ (env : Environment) (s : State) (item : ItemRow) (action : ItemAction) where
  move-IsMove :
      (column : BoardColumn) (phase : PhaseStatus) (other : String) (t : Transition)
      (out : ItemActionResult)
      → get_item s.db.items item.id ≡ some item
      → eq_text item.id other ≡ false
      → reported item action t ≡ some out
      → IsMove env s item action column phase other t (move env s item column phase, out)
  move-IsMove column phase other t out h d e = (
    get_item-set_item_column_self item.id column phase env.now s.db.items item h,
    (
      get_item-set_item_column_other item.id column phase env.now s.db.items other d,
      ((refl, refl, refl), (refl, e)),
    ),
  )

  carry_out-IsMove :
      (payload : Option ResumePayload) (t : Transition) (column : BoardColumn) (phase : PhaseStatus)
      (other : String)
      → get_item s.db.items item.id ≡ some item
      → eq_text item.id other ≡ false
      → target t ≡ some (column, phase)
      → IsMove env s item action column phase other t (carry_out env s item action payload t)
  carry_out-IsMove payload (to_state c p) column phase other h d k =
      let e : ◌≡◌ {A = BoardColumn × PhaseStatus} (c, p) (column, phase) = ground arith in
      subst
        (λ q.
          IsMove env s item action (q.0) (q.1) other (to_state c p)
            (carry_out env s item action payload (to_state c p)))
        e (move-IsMove c p other (to_state c p) _ h d refl)
  carry_out-IsMove payload (start_run c) column phase other h d k =
      let e : ◌≡◌ {A = BoardColumn × PhaseStatus} (c, running) (column, phase) = ground arith in
      subst
        (λ q.
          IsMove env s item action (q.0) (q.1) other (start_run c)
            (carry_out env s item action payload (start_run c)))
        e (move-IsMove c running other (start_run c) _ h d refl)
  carry_out-IsMove payload reject column phase other h d k = ground arith
  carry_out-IsMove payload resume column phase other h d k = ground arith
  carry_out-IsMove payload confirm_resolved column phase other h d k = ground arith
  carry_out-IsMove payload (answer_prompt_or_resume _ _) column phase other h d k = ground arith

-- An action whose transition moves the item, by itself or by starting a run, leaves the item with
-- the new column and phase and the time of the write, changes no other item, no run, no prompt and no
-- remediation, emits one event that names the old and the new column, and reports the new column and
-- phase: as the state of the item, or, for a start, as those of a run that is to be spawned.
pub perform-IsMove :
    (env : Environment) (s : State) (item : ItemRow) (action : ItemAction)
    (payload : Option ResumePayload) (column : BoardColumn) (phase : PhaseStatus) (other : String)
    → get_item s.db.items item.id ≡ some item
    → eq_text item.id other ≡ false
    → target (lookup_transition action item.current_column item.phase_status) ≡ some (column, phase)
    → IsMove env s item action column phase other
        (lookup_transition action item.current_column item.phase_status)
        (perform env s item.id action payload)
unfolding perform
perform-IsMove env s item action payload column phase other h d k =
    rw (h, perform) (carry_out-IsMove env s item action payload _ column phase other h d k)
