-- ===== src/ItemActions/Effects.antt =====
-- What the item actions service (apps/engine/src/core/itemActions.ts) does to the store.
use beerengineer.Base.{String, ◌≡◌, refl, ap, ◌⊎◌, inl, inr, Bool, true, false, not, Option, arith}
use beerengineer.Base.Tests.{if◌then◌else◌, Bool-cases, if_ind, split_ind}
use beerengineer.RunStore.Rows.{RunRow, ItemRow, PromptRow, Db}
use beerengineer.RunStore.Updates.{get_item}
use beerengineer.ItemActions.Matrix.{
  ItemAction, Transition, reject, resume, confirm_resolved, to_state, start_run,
  answer_prompt_or_resume, lookup_transition,
}
use beerengineer.ItemActions.Readiness.{
  Readiness, load_resume_readiness, is_structured_merge_conflict_recovery_run,
}
use beerengineer.RunStore.Queries.{latest_active_run_for_item, latest_recoverable_run_for_item}
use beerengineer.ItemActions.Service.{
  ResumePayload, State, Environment, ItemActionResult, item_not_found, conflict, Conflict,
  resume_when, confirm_with, answer_prompt, invalid, latest_resumable_run, load_confirm_context,
  id_of, supported_prompt, remediation_required, perform, carry_out, record_resume_intent,
  record_prompt_or_resume_intent, resume_blocked_merge, confirm_merge_resolved,
}

abbrev pub is_failure : ItemActionResult → Bool
is_failure item_not_found = true
is_failure (conflict _ _ _ _ _) = true
is_failure (remediation_required _) = true
is_failure _ = false

module _ (env : Environment) where
  -- An answer that is not recorded changes nothing.
  abbrev pub FailedAnswersChangeNothing : Type 0
  FailedAnswersChangeNothing =
      (run_id prompt_id answer : String) (db : Db)
      → (env.answer_run_prompt run_id prompt_id answer db).1 ≡ false
      → (env.answer_run_prompt run_id prompt_id answer db).0 ≡ db

  abbrev Clean : State → State × ItemActionResult → Type 0
  Clean s out = is_failure out.1 ≡ true → out.0 ≡ s

  resume_when-Clean :
      (s : State) (item : ItemRow) (action : ItemAction) (payload : Option ResumePayload)
      (r : RunRow) (x : Readiness)
      → Clean s (resume_when env s item action payload r x)
  resume_when-Clean s item action payload r x = ground arith

  record_resume_intent-Clean :
      (s : State) (item : ItemRow) (action : ItemAction) (payload : Option ResumePayload)
      → Clean s (record_resume_intent env s item action payload)
  unfolding record_resume_intent
  record_resume_intent-Clean s item action payload =
      split_ind (Clean s) (invalid env s item action)
        (λ r.
          resume_when env s item action payload r
            (load_resume_readiness env.files env.inflight s.db r.id))
        (latest_resumable_run env s.db item) (λ _. refl)
        (λ r. resume_when-Clean s item action payload r _)

  confirm_with-Clean :
      (s : State) (item : ItemRow) (action : ItemAction) (r : RunRow) (x : String ⊎ Conflict)
      → Clean s (confirm_with env s item action r x)
  confirm_with-Clean s item action r x = ground arith

  confirm_merge_resolved-Clean :
      (s : State) (item : ItemRow) (action : ItemAction)
      → Clean s (confirm_merge_resolved env s item action)
  unfolding confirm_merge_resolved
  confirm_merge_resolved-Clean s item action =
      split_ind (Clean s) (invalid env s item action)
        (λ r.
          if is_structured_merge_conflict_recovery_run env.names_conflict r
          then confirm_with env s item action r (
              load_confirm_context env s r (load_resume_readiness env.files env.inflight s.db r.id))
          else invalid env s item action)
        (latest_recoverable_run_for_item s.db.runs item.id) (λ _. refl)
        (λ r.
          if_ind (Clean s) (is_structured_merge_conflict_recovery_run env.names_conflict r)
            (λ _. confirm_with-Clean s item action r _) (λ _ _. refl))

  resume_blocked_merge-Clean :
      (s : State) (item : ItemRow) (action : ItemAction) (answer : String)
      → Clean s (resume_blocked_merge env s item action answer)
  unfolding resume_blocked_merge
  resume_blocked_merge-Clean s item action answer = ground arith

  answer_prompt-Clean :
      FailedAnswersChangeNothing
      → (s : State) (item : ItemRow) (action : ItemAction) (run_id answer : String) (p : PromptRow)
      → Clean s (answer_prompt env s item action run_id answer p)
  answer_prompt-Clean h s item action run_id answer p k =
      elim (Bool-cases (env.answer_run_prompt run_id p.id answer s.db).1) [
        | inl e ↦ ground arith
        | inr e ↦ ap (λ b. b) (ground (arith, h run_id p.id answer s.db))
      ]

  record_prompt_or_resume_intent-Clean :
      FailedAnswersChangeNothing
      → (s : State) (item : ItemRow) (action : ItemAction) (answer : String) (resumes : Bool)
      → Clean s (record_prompt_or_resume_intent env s item action answer resumes)
  unfolding record_prompt_or_resume_intent
  record_prompt_or_resume_intent-Clean h s item action answer resumes =
      let live = latest_active_run_for_item s.db.runs item.id in
      split_ind (Clean s)
        (if not resumes
          then invalid env s item action
          else resume_blocked_merge env s item action answer)
        (answer_prompt env s item action (id_of env live) answer)
        (supported_prompt env s.db answer live)
        (if_ind (Clean s) (not resumes) (λ _ _. refl)
          (λ _. resume_blocked_merge-Clean s item action answer))
        (answer_prompt-Clean h s item action (id_of env live) answer)

  carry_out-Clean :
      FailedAnswersChangeNothing
      → (s : State) (item : ItemRow) (action : ItemAction) (payload : Option ResumePayload)
        (t : Transition)
      → Clean s (carry_out env s item action payload t)
  carry_out-Clean h s item action payload reject k = refl
  carry_out-Clean h s item action payload (to_state _ _) k = ground arith
  carry_out-Clean h s item action payload (start_run _) k = ground arith
  carry_out-Clean h s item action payload resume k =
      record_resume_intent-Clean s item action payload k
  carry_out-Clean h s item action payload confirm_resolved k =
      confirm_merge_resolved-Clean s item action k
  carry_out-Clean h s item action payload (answer_prompt_or_resume answer resumes) k =
      record_prompt_or_resume_intent-Clean h s item action answer resumes k

  -- An action that ends in an error (no such item, a conflict, a missing remediation) changes
  -- neither the store nor the remediations and emits no event, if recording an answer that fails
  -- changes nothing.
  pub perform-failure :
      FailedAnswersChangeNothing
      → (s : State) (item_id : String) (action : ItemAction) (payload : Option ResumePayload)
      → is_failure (perform env s item_id action payload).1 ≡ true
      → (perform env s item_id action payload).0 ≡ s
  unfolding perform
  perform-failure h s item_id action payload =
      split_ind (Clean s) (s, item_not_found)
        (λ item.
          carry_out env s item action payload
            (lookup_transition action item.current_column item.phase_status))
        (get_item s.db.items item_id) (λ _. refl)
        (λ item. carry_out-Clean h s item action payload _)
