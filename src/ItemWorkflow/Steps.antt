-- ===== src/ItemWorkflow/Steps.antt =====
-- What the steps of a workflow keep (`runWorkflow` of apps/engine/src/workflow.ts).
use beerengineer.Base.{
  String, subst, ◌≡◌, refl, sym, ◌∙◌, ap, Bool, true, false, not, ◌||◌, Option, some, List, [], ◌∷◌,
  ◌++◌, append-nil, append_assoc,
}
use beerengineer.Base.Tests.{if_ind}
use beerengineer.Base.Effects.{Result, ok, err, Effect, Outcome, Outcome-ok, Outcome-then}
use beerengineer.ProjectPipeline.{ProjectResumePlan}
use beerengineer.ResumePlan.{brainstorm, projects, ItemResumePlan, is_stage}
use beerengineer.ItemWorkflow.{
  WorkflowFailure, Workflow, Working, call, assert_not_cancelled, load, visual, frontend,
  know_projects, resolve_workflow_projects, freeze_fails, assert_design_prep_project_freeze,
  resolve_design_prep_artifacts, emit_workflow_projects_created, run_project, run_workflow_projects,
  freeze_at_projects,
}

-- A property of what the workflow keeps beside the outside.
abbrev pub Kept : Type 1
Kept = (known finished : List String) → (gate_entered : Bool) → Type 0

abbrev pub At : {S : Type 0} → Kept → Working S → Type 0
At K w = K w.known_projects w.finished w.gate_entered

abbrev pub Unentered : (ids done : List String) → Kept
Unentered ids done known finished gate = (known ≡ ids) × (finished ≡ done) × (gate ≡ false)

abbrev pub NotEntered : Kept
NotEntered known finished gate = gate ≡ false

abbrev pub Unstarted : Kept
Unstarted known finished gate = (finished ≡ []) × (gate ≡ false)

module _ {S A : Type 0} (env : Workflow S A) where
  -- A call changes only the outside.
  pub Outcome-call :
      {B : Type 0} (K : Kept) (f : Effect S WorkflowFailure B) (w : Working S)
      → At K w
      → Outcome (λ (_ : B). At K) (At K) (call env f w)
  unfolding Outcome
  Outcome-call {B} K f w h = of_call (f w.outside)
    where
      of_call :
          (r : Result WorkflowFailure B × S)
          → Outcome (λ (_ : B). At K) (At K) (r.0, record w { outside = r.1 })
      of_call (ok b, s) = h
      of_call (err e, s) = h

  Outcome-same :
      {B : Type 0} (K : Kept) (r : Result WorkflowFailure B) (w : Working S)
      → At K w
      → Outcome (λ (_ : B). At K) (At K) (r, w)
  unfolding Outcome
  Outcome-same K (ok b) w h = h
  Outcome-same K (err e) w h = h

  pub Outcome-assert :
      (K : Kept) (w : Working S) → At K w → Outcome (λ _. At K) (At K) (assert_not_cancelled env w)
  Outcome-assert K w h =
      if_ind (Outcome (λ _. At K) (At K)) (env.is_cancelled w.outside)
        (λ _. Outcome-same K (err _) w h) (λ _. Outcome-same K (ok tt) w h)

  pub Outcome-emit :
      (K : Kept) (ids : List String) (w : Working S)
      → At K w
      → Outcome (λ _. At K) (At K) (emit_workflow_projects_created env ids w)
  unfolding emit_workflow_projects_created
  Outcome-emit K [] w h = Outcome-same K (ok tt) w h
  Outcome-emit K (id ∷ ids) w h =
      Outcome-then _ _ _ _ (call env (env.emit_project_created id) w) _
        (Outcome-call K (env.emit_project_created id) w h) (λ _ t k. Outcome-emit K ids t k)
        (λ _ k. k)

  Outcome-run_project :
      (K : Kept) (resume : Option ProjectResumePlan) (artifacts : Option A × Option A) (id : String)
      (w : Working S)
      → At K w
      → Outcome (λ _. At K) (At K) (run_project env resume artifacts id w)
  unfolding run_project
  Outcome-run_project K resume artifacts id w h =
      Outcome-then _ _ _ _ (call env (env.ensure_project_branch id) w) _
        (Outcome-call K (env.ensure_project_branch id) w h) (λ _ t k. Outcome-same K _ _ k)
        (λ _ k. k)

  pub Outcome-projects :
      (resume : Option ProjectResumePlan) (artifacts : Option A × Option A)
      (all done ids : List String) (w : Working S)
      → At (Unentered all done) w
      → Outcome
          (λ _. At (Unentered all (done ++ ids)))
          (At NotEntered)
          (run_workflow_projects env resume artifacts ids w)
  unfolding run_workflow_projects
  Outcome-projects resume artifacts all done [] w h =
      Outcome-ok _ _ _ tt w (h.0, h.1 ∙ sym (append-nil done), h.2)
  Outcome-projects resume artifacts all done (id ∷ ids) w h =
      Outcome-then _ _ _ _ (run_project env resume artifacts id w) _
        (Outcome-run_project (Unentered all done) resume artifacts id w h)
        (λ _ t k.
          subst
            (λ d.
              Outcome (λ _. At (Unentered all d)) (At NotEntered)
                (run_workflow_projects env resume artifacts ids
                  (record t { finished = t.finished ++ id ∷ [] })))
            (append_assoc done (id ∷ []) ids)
            (Outcome-projects resume artifacts all (done ++ id ∷ []) ids _
              (k.0, ap (λ xs. xs ++ id ∷ []) k.1, k.2)))
        (λ _ k. k.2)

  pub Outcome-resolve :
      (plan : ItemResumePlan) (w : Working S)
      → At Unstarted w
      → Outcome
          (λ ids. At (Unentered ids []))
          (At NotEntered)
          (resolve_workflow_projects env plan w)
  unfolding resolve_workflow_projects
  Outcome-resolve plan w h =
      if_ind (Outcome (λ ids. At (Unentered ids [])) (At NotEntered))
        (is_stage plan.start_stage brainstorm)
        (λ _.
          Outcome-then _ _ _ _ (call env env.brainstorm_stage w) _
            (Outcome-call Unstarted env.brainstorm_stage w h) (λ ids t k. known ids t k)
            (λ _ k. k.1))
        (λ _.
          Outcome-then _ _ _ _ (call env env.ensure_item_branch w) _
            (Outcome-call Unstarted env.ensure_item_branch w h)
            (λ _ t k.
              Outcome-then _ _ _ _ (load env env.load_projects t) _
                (Outcome-same Unstarted (env.load_projects t.outside) t k)
                (λ ids t k. known ids t k) (λ _ k. k.1))
            (λ _ k. k.1))
    where
      known :
          (ids : List String) (t : Working S)
          → At Unstarted t
          → Outcome (λ ids. At (Unentered ids [])) (At NotEntered) (know_projects env ids t)
      known ids t k =
          Outcome-ok _ (λ ids. At (Unentered ids [])) (At NotEntered) ids
            (record t { known_projects = ids }) (refl, k.0, k.1)

  pub Outcome-freeze :
      (K : Kept) (plan : ItemResumePlan) (ids : List String) (w : Working S)
      → At K w
      → Outcome (λ _. At K) (At K) (freeze_at_projects env plan ids w)
  unfolding assert_design_prep_project_freeze
  Outcome-freeze K plan ids w h =
      if_ind (Outcome (λ _. At K) (At K)) (is_stage plan.start_stage projects)
        (λ _.
          if_ind (Outcome (λ _. At K) (At K))
            (freeze_fails env ids (env.design_prep_freeze w.outside))
            (λ _. Outcome-same K (err _) _ h) (λ _. Outcome-same K (ok tt) w h))
        (λ _. Outcome-same K (ok tt) w h)

  Outcome-visual :
      (K : Kept) (run : Bool) (ids : List String) (w : Working S)
      → At K w
      → Outcome (λ _. At K) (At K) (visual env run ids w)
  Outcome-visual K true ids w h = Outcome-call K (env.visual_companion_stage ids) w h
  Outcome-visual K false ids w h = Outcome-same K _ w h

  Outcome-frontend :
      (K : Kept) (run : Bool) (ids : List String) (wireframes : A) (w : Working S)
      → At K w
      → Outcome (λ _. At K) (At K) (frontend env run ids wireframes w)
  Outcome-frontend K true ids a w h = Outcome-call K (env.frontend_design_stage ids a) w h
  Outcome-frontend K false ids a w h = Outcome-same K _ w h

  pub Outcome-artifacts :
      (K : Kept) (plan : ItemResumePlan) (has_ui : Bool) (ids : List String) (w : Working S)
      → At K w
      → Outcome (λ _. At K) (At K) (resolve_design_prep_artifacts env plan has_ui ids w)
  unfolding resolve_design_prep_artifacts
  Outcome-artifacts K plan has_ui ids w h =
      if_ind (Outcome (λ _. At K) (At K)) (not has_ui || plan.skip_design_prep)
        (λ _. Outcome-same K (ok _) w h)
        (λ _.
          Outcome-then _ _ _ _ (visual env _ ids w) _ (Outcome-visual K _ ids w h)
            (λ a t k.
              Outcome-then _ _ _ _ (frontend env _ ids a t) _ (Outcome-frontend K _ ids a t k)
                (λ b t k. Outcome-ok _ _ _ (some a, some b) t k) (λ _ k. k))
            (λ _ k. k))
