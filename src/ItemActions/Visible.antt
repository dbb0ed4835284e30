-- ===== src/ItemActions/Visible.antt =====
-- The actions the board shows for an item (`visibleActionsForItem` in
-- apps/engine/src/core/itemActions.ts). A phase is one of the store's; the source takes any text.
use beerengineer.Base.{
  String, ◌≡◌, refl, ◌≢◌, Bool, true, false, not, ◌||◌, Option, List, [], ◌∷◌, ◌++◌, arith,
}
use beerengineer.Base.Tests.{if◌then◌else◌, is_none}
use beerengineer.Base.Lists.{All, All-append}
use beerengineer.Base.Texts.{is_text}
use beerengineer.RunStore.Rows.{
  BoardColumn, idea, brainstorm, frontend, requirements, implementation, merge, done, PhaseStatus,
  draft, running, review_required, completed, failed,
}
use beerengineer.ItemActions.Matrix.{
  ItemAction, import_prepared, start_visual_companion, start_frontend_design,
  promote_to_requirements, cancel_promotion, confirm_merge_resolved, promote_to_base, reject,
  eq_phase, lookup_transition,
}

-- The facts about an item's runs and prompts. `VisibleItemAction` is a subtype of `ItemAction`, and
-- a list of them is a list of actions here.
pub record Facts : Type 0 where
  pub current_stage : Option String
  pub has_open_prompt : Bool
  pub has_review_gate_waiting : Bool
  pub has_blocked_run : Bool
  pub has_merge_conflict_blocked_run : Bool

-- `if (b) actions.push(a)`.
abbrev when : Bool → ItemAction → List ItemAction
when true a = a ∷ []
when false a = []

abbrev is_reviewable : PhaseStatus → Bool
is_reviewable p = eq_phase p completed || eq_phase p review_required

abbrev if_idle : PhaseStatus → List ItemAction
if_idle p = if not (eq_phase p running) then import_prepared ∷ [] else []

abbrev frontend_actions : Option String → List ItemAction
frontend_actions stage =
    if is_text stage "visual-companion"
    then start_frontend_design ∷ []
    else if is_text stage "frontend-design" || is_none stage
    then promote_to_requirements ∷ []
    else []

unfoldable pub merge_actions : Facts → List ItemAction
merge_actions f =
    when f.has_review_gate_waiting cancel_promotion
    ++ (when f.has_merge_conflict_blocked_run confirm_merge_resolved
        ++ when (f.has_review_gate_waiting || (f.has_blocked_run || f.has_open_prompt))
            promote_to_base)

unfoldable pub visible_actions_for_item : BoardColumn → PhaseStatus → Facts → List ItemAction
visible_actions_for_item idea phase f = if_idle phase
visible_actions_for_item requirements phase f = if_idle phase
visible_actions_for_item brainstorm phase f =
    if is_reviewable phase then start_visual_companion ∷ import_prepared ∷ [] else []
visible_actions_for_item frontend phase f =
    if is_reviewable phase then frontend_actions f.current_stage else []
visible_actions_for_item merge phase f = merge_actions f
visible_actions_for_item _ phase f = []

abbrev pub IsAllowed : BoardColumn → PhaseStatus → ItemAction → Type 0
IsAllowed column phase action = lookup_transition action column phase ≢ reject

module _ (column : BoardColumn) (phase : PhaseStatus) where
  All-when :
      (b : Bool) (a : ItemAction)
      → IsAllowed column phase a
      → All (IsAllowed column phase) (when b a)
  All-when true a h = (h, tt)
  All-when false a h = tt

  All-if :
      (b : Bool) (xs ys : List ItemAction)
      → All (IsAllowed column phase) xs
      → All (IsAllowed column phase) ys
      → All (IsAllowed column phase) (if b then xs else ys)
  All-if true xs ys h k = h
  All-if false xs ys h k = k

All-frontend_actions :
    (phase : PhaseStatus) (stage : Option String)
    → is_reviewable phase ≡ true
    → All (IsAllowed frontend phase) (frontend_actions stage)
unfolding lookup_transition
All-frontend_actions completed stage h =
    All-if frontend completed (is_text stage "visual-companion") (start_frontend_design ∷ [])
      (if is_text stage "frontend-design" || is_none stage
        then promote_to_requirements ∷ []
        else [])
      (ground arith, tt)
      (All-if frontend completed (is_text stage "frontend-design" || is_none stage)
        (promote_to_requirements ∷ []) [] (ground arith, tt) tt)
All-frontend_actions review_required stage h =
    All-if frontend review_required (is_text stage "visual-companion") (start_frontend_design ∷ [])
      (if is_text stage "frontend-design" || is_none stage
        then promote_to_requirements ∷ []
        else [])
      (ground arith, tt)
      (All-if frontend review_required (is_text stage "frontend-design" || is_none stage)
        (promote_to_requirements ∷ []) [] (ground arith, tt) tt)
All-frontend_actions draft stage h = ground arith
All-frontend_actions running stage h = ground arith
All-frontend_actions failed stage h = ground arith

All-merge_actions : (f : Facts) → All (IsAllowed merge review_required) (merge_actions f)
unfolding lookup_transition merge_actions
All-merge_actions f =
    All-append (IsAllowed merge review_required) (when f.has_review_gate_waiting cancel_promotion) _
      (All-when merge review_required f.has_review_gate_waiting cancel_promotion (ground arith))
      (All-append (IsAllowed merge review_required)
        (when f.has_merge_conflict_blocked_run confirm_merge_resolved) _
        (All-when merge review_required f.has_merge_conflict_blocked_run confirm_merge_resolved
          (ground arith))
        (All-when merge review_required _ promote_to_base (ground arith)))

-- Every action that the board shows for an item is one that the table of actions does not reject
-- for the item's column and phase, if an item in the merge column is in phase `review_required`.
pub visible_actions_for_item-IsAllowed :
    (column : BoardColumn) (phase : PhaseStatus) (f : Facts)
    → (column ≡ merge → phase ≡ review_required)
    → All (IsAllowed column phase) (visible_actions_for_item column phase f)
unfolding lookup_transition visible_actions_for_item merge_actions
visible_actions_for_item-IsAllowed idea draft f h = (ground arith, tt)
visible_actions_for_item-IsAllowed idea running f h = tt
visible_actions_for_item-IsAllowed idea review_required f h = (ground arith, tt)
visible_actions_for_item-IsAllowed idea completed f h = (ground arith, tt)
visible_actions_for_item-IsAllowed idea failed f h = (ground arith, tt)
visible_actions_for_item-IsAllowed requirements draft f h = (ground arith, tt)
visible_actions_for_item-IsAllowed requirements running f h = tt
visible_actions_for_item-IsAllowed requirements review_required f h = (ground arith, tt)
visible_actions_for_item-IsAllowed requirements completed f h = (ground arith, tt)
visible_actions_for_item-IsAllowed requirements failed f h = (ground arith, tt)
visible_actions_for_item-IsAllowed brainstorm draft f h = tt
visible_actions_for_item-IsAllowed brainstorm running f h = tt
visible_actions_for_item-IsAllowed brainstorm review_required f h =
    (ground arith, (ground arith, tt))
visible_actions_for_item-IsAllowed brainstorm completed f h = (ground arith, (ground arith, tt))
visible_actions_for_item-IsAllowed brainstorm failed f h = tt
visible_actions_for_item-IsAllowed frontend draft f h = tt
visible_actions_for_item-IsAllowed frontend running f h = tt
visible_actions_for_item-IsAllowed frontend review_required f h =
    All-frontend_actions review_required f.current_stage refl
visible_actions_for_item-IsAllowed frontend completed f h =
    All-frontend_actions completed f.current_stage refl
visible_actions_for_item-IsAllowed frontend failed f h = tt
visible_actions_for_item-IsAllowed implementation phase f h = tt
visible_actions_for_item-IsAllowed done phase f h = tt
visible_actions_for_item-IsAllowed merge phase f h = rw (h refl) (All-merge_actions f)
