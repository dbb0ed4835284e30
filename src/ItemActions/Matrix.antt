-- ===== src/ItemActions/Matrix.antt =====
-- The table of actions by column and phase (`ITEM_ACTION_MATRIX` and `lookupTransition` in
-- apps/engine/src/core/itemActions.ts), and what it allows.
use beerengineer.Base.{
  String, ◌≡◌, refl, ◌≢◌, ◌⊎◌, inl, inr, Bool, true, false, ◌&&◌, Option, none, some, List, [], ◌∷◌,
  arith,
}
use beerengineer.Base.Tests.{if◌then◌else◌}
use beerengineer.RunStore.Rows.{
  BoardColumn, idea, brainstorm, frontend, requirements, implementation, merge, done, PhaseStatus,
  draft, running, review_required, completed, failed,
}

pub data ItemAction : Type 0 where
  start_brainstorm start_visual_companion start_frontend_design promote_to_requirements
        start_implementation import_prepared rerun_design_prep resume_run promote_to_base
        confirm_merge_resolved cancel_promotion mark_done :
      ItemAction

pub data Transition : Type 0 where
  reject resume confirm_resolved : Transition
  to_state : BoardColumn → PhaseStatus → Transition
  start_run : BoardColumn → Transition
  answer_prompt_or_resume : (promote_answer : String) (resume_when_no_prompt : Bool) → Transition

abbrev pub eq_column : BoardColumn → BoardColumn → Bool
eq_column idea idea = true
eq_column brainstorm brainstorm = true
eq_column frontend frontend = true
eq_column requirements requirements = true
eq_column implementation implementation = true
eq_column merge merge = true
eq_column done done = true
eq_column _ _ = false

abbrev pub eq_phase : PhaseStatus → PhaseStatus → Bool
eq_phase draft draft = true
eq_phase running running = true
eq_phase review_required review_required = true
eq_phase completed completed = true
eq_phase failed failed = true
eq_phase _ _ = false

-- A key `column/phase`, or `column/*`.
pub data Key : Type 0 where
  at : BoardColumn → PhaseStatus → Key
  any : BoardColumn → Key

unfoldable pub item_action_matrix : ItemAction → List (Key × Transition)
item_action_matrix start_brainstorm = (at idea draft, start_run brainstorm) ∷ []
item_action_matrix start_visual_companion =
    (at brainstorm completed, start_run frontend)
    ∷ (at brainstorm review_required, start_run frontend)
    ∷ (at frontend review_required, start_run frontend)
    ∷ (at frontend completed, start_run frontend)
    ∷ []
item_action_matrix start_frontend_design =
    (at frontend review_required, start_run frontend)
    ∷ (at frontend completed, start_run frontend)
    ∷ []
item_action_matrix promote_to_requirements =
    (any brainstorm, to_state requirements draft) ∷ (any frontend, to_state requirements draft) ∷ []
item_action_matrix start_implementation = (any requirements, start_run implementation) ∷ []
item_action_matrix import_prepared =
    (any idea, start_run implementation)
    ∷ (any brainstorm, start_run implementation)
    ∷ (any frontend, start_run implementation)
    ∷ (any requirements, start_run implementation)
    ∷ []
item_action_matrix rerun_design_prep =
    (any brainstorm, start_run frontend)
    ∷ (any frontend, start_run frontend)
    ∷ (any requirements, start_run frontend)
    ∷ (any implementation, start_run frontend)
    ∷ (any done, start_run frontend)
    ∷ []
item_action_matrix resume_run =
    (any brainstorm, resume)
    ∷ (any frontend, resume)
    ∷ (any requirements, resume)
    ∷ (at implementation completed, resume)
    ∷ (at implementation running, resume)
    ∷ (at implementation failed, resume)
    ∷ (at merge review_required, resume)
    ∷ []
item_action_matrix promote_to_base =
    (at merge review_required, answer_prompt_or_resume "promote" true) ∷ []
item_action_matrix confirm_merge_resolved = (at merge review_required, confirm_resolved) ∷ []
item_action_matrix cancel_promotion =
    (at merge review_required, answer_prompt_or_resume "cancel" false) ∷ []
item_action_matrix mark_done = (at implementation review_required, to_state done completed) ∷ []

-- `table[key]`.
abbrev pub is_at : BoardColumn → PhaseStatus → Key → Bool
is_at c p (at d q) = eq_column c d && eq_phase p q
is_at c p (any d) = false

abbrev pub is_any : BoardColumn → Key → Bool
is_any c (at d q) = false
is_any c (any d) = eq_column c d

unfoldable pub entry : (Key → Bool) → List (Key × Transition) → Option Transition
entry test [] = none
entry test ((k, t) ∷ table) = if test k then some t else entry test table

abbrev or_reject : Option Transition → Transition
or_reject none = reject
or_reject (some t) = t

abbrev or_wildcard : Option Transition → Option Transition → Transition
or_wildcard (some t) o = t
or_wildcard none o = or_reject o

unfoldable pub lookup_transition : ItemAction → BoardColumn → PhaseStatus → Transition
unfolding entry item_action_matrix
lookup_transition action column phase =
    or_wildcard (entry (is_at column phase) (item_action_matrix action))
      (entry (is_any column) (item_action_matrix action))

-- A finished item can only be sent back to design; every other action on it is rejected.
pub lookup_transition-done :
    (action : ItemAction) (phase : PhaseStatus)
    → (lookup_transition action done phase ≡ start_run frontend × (action ≡ rerun_design_prep))
      ⊎ ((lookup_transition action done phase ≡ reject) × (action ≢ rerun_design_prep))
unfolding lookup_transition
lookup_transition-done start_brainstorm phase = inr (refl, ground arith)
lookup_transition-done start_visual_companion phase = inr (refl, ground arith)
lookup_transition-done start_frontend_design phase = inr (refl, ground arith)
lookup_transition-done promote_to_requirements phase = inr (refl, ground arith)
lookup_transition-done start_implementation phase = inr (refl, ground arith)
lookup_transition-done import_prepared phase = inr (refl, ground arith)
lookup_transition-done rerun_design_prep phase = inl (refl, refl)
lookup_transition-done resume_run phase = inr (refl, ground arith)
lookup_transition-done promote_to_base phase = inr (refl, ground arith)
lookup_transition-done confirm_merge_resolved phase = inr (refl, ground arith)
lookup_transition-done cancel_promotion phase = inr (refl, ground arith)
lookup_transition-done mark_done phase = inr (refl, ground arith)
