-- ===== src/ItemWorkflow/Gate.antt =====
-- When a workflow enters the merge gate (`runWorkflow` of apps/engine/src/workflow.ts).
use beerengineer.Base.{String, ◌≡◌, sym, ◌∙◌, true, false, Option, none, List, [], ◌⊎◌, inl, inr}
use beerengineer.Base.Tests.{if_ind, split_option}
use beerengineer.Base.Effects.{Result, ok, err, Outcome, Outcome-ok, Outcome-then, Outcome-weaken}
use beerengineer.ProjectPipeline.{ProjectResumePlan}
use beerengineer.ResumePlan.{
  WorkflowResumeInput, merge_gate, ItemResumePlan, is_stage, normalize_item_resume,
  normalize_project_resume,
}
use beerengineer.ItemWorkflow.{
  WorkflowFailure, Workflow, Working, fresh_plan, blocks_run, call, assert_not_cancelled,
  resolve_workflow_projects, resolve_design_prep_artifacts, emit_workflow_projects_created,
  run_workflow_projects, projects_unless_merging, merge_unless_skipped, freeze_at_projects, deliver,
  workflow_body, handle_workflow_failure, caught, run_workflow,
}
use beerengineer.ItemWorkflow.Steps.{
  Kept, At, Unentered, NotEntered, Unstarted, Outcome-call, Outcome-assert, Outcome-emit,
  Outcome-projects, Outcome-resolve, Outcome-freeze, Outcome-artifacts,
}

-- The workflow starts at the gate, or the pipelines of all its projects have completed.
abbrev pub Reason : ItemResumePlan → Kept
Reason plan known finished gate = (is_stage plan.start_stage merge_gate ≡ true) ⊎ (finished ≡ known)

-- Where the gate was entered, there is a reason.
abbrev pub Safe : ItemResumePlan → Kept
Safe plan known finished gate = (gate ≡ false) ⊎ Reason plan known finished gate

-- The item's plan of a workflow.
abbrev pub item_plan : Option WorkflowResumeInput → ItemResumePlan
item_plan resume = split_option fresh_plan normalize_item_resume resume

module _ {S A : Type 0} (env : Workflow S A) where
  module _ (plan : ItemResumePlan) where
    Safe-NotEntered : (w : Working S) → At NotEntered w → At (Safe plan) w
    Safe-NotEntered w h = inl h

    Safe-Reason : (w : Working S) → At (Reason plan) w → At (Safe plan) w
    Safe-Reason w h = inr h

    abbrev Ready : Kept
    Ready known finished gate = Reason plan known finished gate × (gate ≡ false)

    Outcome-projects_unless_merging :
        (resume : Option ProjectResumePlan) (artifacts : Option A × Option A) (ids : List String)
        (w : Working S)
        → At (Unentered ids []) w
        → Outcome
            (λ _. At Ready)
            (At NotEntered)
            (projects_unless_merging env plan resume artifacts ids w)
    Outcome-projects_unless_merging resume artifacts ids w h =
        if_ind (Outcome (λ _. At Ready) (At NotEntered)) (is_stage plan.start_stage merge_gate)
          (λ e. Outcome-ok _ _ _ tt w (inl e, h.2))
          (λ _.
            Outcome-weaken _ _ _ _ (run_workflow_projects env resume artifacts ids w)
              (Outcome-projects env resume artifacts ids [] ids w h)
              (λ _ t k. (inr (k.1 ∙ sym k.0), k.2)) (λ _ k. k))

    Outcome-merge_unless_skipped :
        (w : Working S)
        → At Ready w
        → Outcome (λ _. At (Reason plan)) (At (Safe plan)) (merge_unless_skipped env plan w)
    Outcome-merge_unless_skipped w h =
        if_ind (Outcome (λ _. At (Reason plan)) (At (Safe plan))) plan.skip_merge_gate
          (λ _. Outcome-ok _ _ _ tt w h.0)
          (λ _.
            Outcome-weaken _ _ _ _ (call env env.merge_gate_stage entered)
              (Outcome-call env (Reason plan) env.merge_gate_stage entered h.0) (λ _ t k. k)
              Safe-Reason)
      where
        entered : Working S
        entered = record w { gate_entered = true }

    Outcome-deliver :
        (resume : Option ProjectResumePlan) (artifacts : Option A × Option A) (ids : List String)
        (w : Working S)
        → At (Unentered ids []) w
        → Outcome (λ _. At (Reason plan)) (At (Safe plan)) (deliver env plan resume artifacts ids w)
    unfolding deliver
    Outcome-deliver resume artifacts ids w h =
        Outcome-then _ _ _ _ (assert_not_cancelled env w) _
          (Outcome-assert env (Unentered ids []) w h)
          (λ _ t k.
            Outcome-then _ _ _ _ (emit_workflow_projects_created env ids t) _
              (Outcome-emit env (Unentered ids []) ids t k)
              (λ _ t k.
                Outcome-then _ _ _ _ (projects_unless_merging env plan resume artifacts ids t) _
                  (Outcome-projects_unless_merging resume artifacts ids t k)
                  (λ _ t k.
                    Outcome-then _ _ _ _ (merge_unless_skipped env plan t) _
                      (Outcome-merge_unless_skipped t k)
                      (λ _ t k.
                        Outcome-weaken _ _ _ _ (assert_not_cancelled env t)
                          (Outcome-assert env (Reason plan) t k) (λ _ u l. l) Safe-Reason)
                      (λ _ k. k))
                  Safe-NotEntered)
              (λ t k. Safe-NotEntered t k.2))
          (λ t k. Safe-NotEntered t k.2)

    Outcome-workflow_body :
        (resume : Option ProjectResumePlan) (w : Working S)
        → At Unstarted w
        → Outcome (λ _. At (Reason plan)) (At (Safe plan)) (workflow_body env plan resume w)
    unfolding workflow_body
    Outcome-workflow_body resume w h =
        Outcome-then _ _ _ _ (call env env.ensure_item_branch w) _
          (Outcome-call env Unstarted env.ensure_item_branch w h)
          (λ _ t k.
            Outcome-then _ _ _ _ (resolve_workflow_projects env plan t) _
              (Outcome-resolve env plan t k)
              (λ ids t k.
                Outcome-then _ _ _ _ (assert_not_cancelled env t) _
                  (Outcome-assert env (Unentered ids []) t k)
                  (λ _ t k.
                    Outcome-then _ _ _ _ (freeze_at_projects env plan ids t) _
                      (Outcome-freeze env (Unentered ids []) plan ids t k)
                      (λ _ t k.
                        Outcome-then _ _ _ _ (call env env.assign_preview_port t) _
                          (Outcome-call env (Unentered ids []) env.assign_preview_port t k)
                          (λ _ t k.
                            Outcome-then _ _ _ _ (call env env.load_concept_has_ui t) _
                              (Outcome-call env (Unentered ids []) env.load_concept_has_ui t k)
                              (λ has_ui t k.
                                Outcome-then _ _ _ _ (assert_not_cancelled env t) _
                                  (Outcome-assert env (Unentered ids []) t k)
                                  (λ _ t k.
                                    Outcome-then _ _ _ _
                                      (resolve_design_prep_artifacts env plan has_ui ids t) _
                                      (Outcome-artifacts env (Unentered ids []) plan has_ui ids t k)
                                      (λ artifacts t k. Outcome-deliver resume artifacts ids t k)
                                      low)
                                  low)
                              low)
                          low)
                      low)
                  low)
              Safe-NotEntered)
          (λ t k. Safe-NotEntered t k.1)
      where
        low : {ids : List String} → (t : Working S) → At (Unentered ids []) t → At (Safe plan) t
        low t k = Safe-NotEntered t k.2

  Outcome-caught :
      (plan : ItemResumePlan) (r : Result WorkflowFailure (Unit {0}) × Working S)
      → Outcome (λ _. At (Reason plan)) (At (Safe plan)) r
      → Outcome (λ _. At (Reason plan)) (At (Safe plan)) (caught env r)
  unfolding Outcome handle_workflow_failure
  Outcome-caught plan (ok u, w) h = h
  Outcome-caught plan (err e, w) h =
      exited (handle_workflow_failure env e w) (env.exit_run true)
        (if_ind (Outcome (λ _. At (Reason plan)) (At (Safe plan))) (blocks_run e) (λ _. h) (λ _. h))
    where
      exited :
          (r : Result WorkflowFailure (Unit {0}) × Working S) (f : S → S)
          → Outcome (λ _. At (Reason plan)) (At (Safe plan)) r
          → Outcome
              (λ _. At (Reason plan))
              (At (Safe plan))
              (r.0, record r.1 { outside = f r.1.outside })
      exited (ok u, w) f h = h
      exited (err e, w) f h = h

-- A workflow enters the merge gate only when it starts there or after the pipelines of all projects
-- of its item have completed, and a workflow that succeeds has completed them or starts at the gate.
pub run_workflow-gate :
    {S A : Type 0} (env : Workflow S A) (resume : Option WorkflowResumeInput) (w : Working S)
    → w.finished ≡ []
    → w.gate_entered ≡ false
    → Outcome
        (λ _. At (Reason (item_plan resume)))
        (At (Safe (item_plan resume)))
        (run_workflow env resume w)
unfolding run_workflow
run_workflow-gate env resume w f g =
    Outcome-then _ _ _ _ (assert_not_cancelled env w) _ (Outcome-assert env Unstarted w (f, g))
      (λ _ t k.
        Outcome-then _ _ _ _ (call env env.ensure_git_adapter t) _
          (Outcome-call env Unstarted env.ensure_git_adapter t k)
          (λ _ t k. Outcome-caught env (item_plan resume) _ (
            Outcome-workflow_body env (item_plan resume)
              (split_option none normalize_project_resume resume) t k))
          (λ t k. inl k.1))
      (λ t k. inl k.1)
