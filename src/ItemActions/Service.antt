-- ===== src/ItemActions/Service.antt =====
-- The item actions service (`createItemActionsService` in apps/engine/src/core/itemActions.ts). Its
-- state is the store, the remediations recorded and the events emitted, the latest first.
use beerengineer.Base.{String, ◌⊎◌, inl, inr, Bool, false, not, ◌&&◌, Option, none, some, ◌∷◌}
use beerengineer.Base.Tests.{if◌then◌else◌}
use beerengineer.Base.Texts.{eq_text, is_text, has}
use beerengineer.RunStore.Rows.{
  RunRow, ItemRow, PromptRow, Db, RecoveryStatus, BoardColumn, PhaseStatus, running, is_status,
}
use beerengineer.RunStore.Updates.{get_item, set_item_column}
use beerengineer.RunStore.Queries.{
  get_open_prompt, latest_active_run_for_item, latest_recoverable_run_for_item,
}
use beerengineer.ItemActions.Matrix.{
  ItemAction, Transition, reject, resume, confirm_resolved, to_state, start_run,
  answer_prompt_or_resume, lookup_transition,
}
use beerengineer.ItemActions.Readiness.{
  RecoveryRecord, NotResumable, open_prompt, Readiness, not_found, ready, load_resume_readiness,
  is_structured_merge_conflict_recovery_run,
}
pub use beerengineer.ItemActions.Types.{
  ResumePayload, Remediation, ItemActionEvent, item_column_changed, State, Conflict,
  invalid_transition, ItemActionResult, state, needs_spawn, resume_run, item_not_found, conflict,
  remediation_required, Validation, ok, failed, inspection_failed, Environment,
}

module _ (env : Environment) where
  abbrev pub move : State → ItemRow → BoardColumn → PhaseStatus → State
  move s item column phase = record s {
    db = record s.db { items = set_item_column item.id column phase env.now s.db.items };
    events = item_column_changed item.id item.current_column column phase ∷ s.events;
  }

  abbrev pub apply_state_transition :
      State → ItemRow → BoardColumn → PhaseStatus → State × ItemActionResult
  apply_state_transition s item column phase =
      (move s item column phase, state item.id column phase)

  abbrev pub record_start_run_intent :
      State → ItemRow → ItemAction → BoardColumn → State × ItemActionResult
  record_start_run_intent s item action column =
      (move s item column running, needs_spawn item.id action column running none none)

  abbrev pub latest_resumable_run : Db → ItemRow → Option RunRow
  latest_resumable_run db item = elim (latest_active_run_for_item db.runs item.id) [
    | some r ↦ some r
    | none ↦ latest_recoverable_run_for_item db.runs item.id
  ]

  abbrev pub fail :
      State → ItemRow → ItemAction → Conflict → Option String → State × ItemActionResult
  fail s item action c message =
      (s, conflict c message item.current_column item.phase_status action)

  abbrev pub invalid : State → ItemRow → ItemAction → State × ItemActionResult
  invalid s item action = fail s item action invalid_transition none

  abbrev pub not_resumable_error : NotResumable → Conflict
  not_resumable_error NotResumable.resume_in_progress = Conflict.resume_in_progress
  not_resumable_error open_prompt = Conflict.not_resumable

  -- `createExternalRemediation`: one more row, of the run and the scope of its record.
  abbrev pub record_remediation : State → RunRow → RecoveryRecord → ResumePayload → State
  record_remediation s r c payload = record s {
    remediations =
        record {
          id = env.new_id;
          run_id = r.id;
          scope = c.scope;
          payload = payload;
          source = "api";
        }
        ∷ s.remediations;
  }

  abbrev pub spawn :
      State → ItemRow → ItemAction → RunRow → Option String → State × ItemActionResult
  spawn s item action r remediation =
      (s, needs_spawn item.id action item.current_column item.phase_status (some r.id) remediation)

  abbrev pub resume_with :
      State
      → ItemRow
      → ItemAction
      → RunRow
      → RecoveryRecord
      → Option ResumePayload
      → State × ItemActionResult
  resume_with s item action r c none = (s, remediation_required action)
  resume_with s item action r c (some payload) =
      spawn (record_remediation s r c payload) item action r (some env.new_id)

  abbrev pub resume_when :
      State
      → ItemRow
      → ItemAction
      → Option ResumePayload
      → RunRow
      → Readiness
      → State × ItemActionResult
  resume_when s item action payload r (Readiness.not_resumable _ why) =
      fail s item action (not_resumable_error why) none
  resume_when s item action payload r (ready _ c _) = resume_with s item action r c payload
  resume_when s item action payload r _ = spawn s item action r none

  unfoldable pub record_resume_intent :
      State → ItemRow → ItemAction → Option ResumePayload → State × ItemActionResult
  record_resume_intent s item action payload = elim (latest_resumable_run s.db item) [
    | none ↦ invalid s item action
    | some r ↦
        resume_when s item action payload r (load_resume_readiness env.files env.inflight s.db r.id)
  ]

  -- The open prompt of the run, if its actions offer the answer.
  abbrev pub supports : String → PromptRow → Bool
  supports expected p = elim p.actions_json [
    | none ↦ false
    | some text ↦ has (env.action_values text) expected
  ]

  unfoldable pub prompt_supports_answer : Db → String → String → Option PromptRow
  prompt_supports_answer db run_id expected = elim (get_open_prompt db run_id) [
    | none ↦ none
    | some p ↦ if supports expected p then some p else none
  ]

  abbrev pub answer_prompt :
      State → ItemRow → ItemAction → String → String → PromptRow → State × ItemActionResult
  answer_prompt s item action run_id answer p =
      let done = env.answer_run_prompt run_id p.id answer s.db in
      let s' : State = record s { db = done.0 } in
      if done.1
      then (s', state item.id item.current_column item.phase_status)
      else invalid s' item action

  abbrev pub resume_merge :
      State → ItemRow → ItemAction → String → RunRow → Readiness → State × ItemActionResult
  resume_merge s item action answer r (Readiness.not_resumable _ why) =
      fail s item action (not_resumable_error why) none
  resume_merge s item action answer r not_found = fail s item action Conflict.not_resumable none
  resume_merge s item action answer r _ =
      (s, resume_run item.id r.id (some answer) item.current_column item.phase_status)

  unfoldable pub resume_blocked_merge :
      State → ItemRow → ItemAction → String → State × ItemActionResult
  resume_blocked_merge s item action answer =
      elim (latest_recoverable_run_for_item s.db.runs item.id) [
        | none ↦ invalid s item action
        | some r ↦
            if is_status r.recovery_status RecoveryStatus.blocked
              && is_text r.recovery_scope_ref "merge-gate"
            then resume_merge s item action answer r
                (load_resume_readiness env.files env.inflight s.db r.id)
            else invalid s item action
      ]

  abbrev pub supported_prompt : Db → String → Option RunRow → Option PromptRow
  supported_prompt db answer none = none
  supported_prompt db answer (some r) = prompt_supports_answer db r.id answer

  abbrev pub id_of : Option RunRow → String
  id_of none = ""
  id_of (some r) = r.id

  unfoldable pub record_prompt_or_resume_intent :
      State → ItemRow → ItemAction → String → Bool → State × ItemActionResult
  unfolding resume_blocked_merge
  record_prompt_or_resume_intent s item action answer resume_when_no_prompt =
      let live = latest_active_run_for_item s.db.runs item.id in
      elim (supported_prompt s.db answer live) [
        | some p ↦ answer_prompt s item action (id_of live) answer p
        | none ↦
            if not resume_when_no_prompt
            then invalid s item action
            else resume_blocked_merge s item action answer
      ]

  -- The run and the workspace root, or the reason there is none.
  abbrev pub load_confirm_context : State → RunRow → Readiness → (String ⊎ Conflict)
  load_confirm_context s r (Readiness.not_resumable _ why) = inr (not_resumable_error why)
  load_confirm_context s r (ready _ _ _) = elim (env.workspace_root s.db r) [
    | none ↦ inr invalid_transition
    | some root ↦ if eq_text root "" then inr invalid_transition else inl root
  ]
  load_confirm_context s r _ = inr invalid_transition

  abbrev pub confirm_valid :
      State → ItemRow → ItemAction → RunRow → Option Validation → State × ItemActionResult
  confirm_valid s item action r none = invalid s item action
  confirm_valid s item action r (some ok) =
      (s, resume_run item.id r.id none item.current_column item.phase_status)
  confirm_valid s item action r (some (failed e message)) = fail s item action e (some message)
  confirm_valid s item action r (some (inspection_failed message)) =
      fail s item action invalid_transition (some message)

  abbrev pub confirm_with :
      State → ItemRow → ItemAction → RunRow → (String ⊎ Conflict) → State × ItemActionResult
  confirm_with s item action r (inr e) = fail s item action e none
  confirm_with s item action r (inl root) = confirm_valid s item action r (env.validate root)

  unfoldable pub confirm_merge_resolved : State → ItemRow → ItemAction → State × ItemActionResult
  confirm_merge_resolved s item action = elim (latest_recoverable_run_for_item s.db.runs item.id) [
    | none ↦ invalid s item action
    | some r ↦
        if is_structured_merge_conflict_recovery_run env.names_conflict r
        then confirm_with s item action r
            (load_confirm_context s r (load_resume_readiness env.files env.inflight s.db r.id))
        else invalid s item action
  ]

  abbrev pub carry_out :
      State → ItemRow → ItemAction → Option ResumePayload → Transition → State × ItemActionResult
  carry_out s item action payload reject = invalid s item action
  carry_out s item action payload (to_state column phase) =
      apply_state_transition s item column phase
  carry_out s item action payload (start_run column) = record_start_run_intent s item action column
  carry_out s item action payload resume = record_resume_intent s item action payload
  carry_out s item action payload confirm_resolved = confirm_merge_resolved s item action
  carry_out s item action payload (answer_prompt_or_resume answer resume_when_no_prompt) =
      record_prompt_or_resume_intent s item action answer resume_when_no_prompt

  unfoldable pub perform :
      State → String → ItemAction → Option ResumePayload → State × ItemActionResult
  perform s item_id action payload = elim (get_item s.db.items item_id) [
    | none ↦ (s, item_not_found)
    | some item ↦
        carry_out s item action payload
          (lookup_transition action item.current_column item.phase_status)
  ]
