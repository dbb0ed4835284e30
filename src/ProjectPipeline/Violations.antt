-- ===== src/ProjectPipeline/Violations.antt =====
-- The artifacts that a stage of the pipeline asserts (`runProjectStages` of workflow.ts).
use beerengineer.Base.{◌≡◌, refl, true, Option, none, some, List, [], ◌∷◌, arith, ◌≢◌}
use beerengineer.Base.Tests.{if_ind, split_option_ind}
use beerengineer.Base.Effects.{Result, ok, err, Effect, then_at, return}
use beerengineer.ProjectPipeline.{
  ProjectStageId, requirements, architecture, planning, execution, project_review, qa,
  documentation, handoff, project_stage_order, ProjectResumePlan, ProjectContext, Missing, Failure,
  cancelled, invariant_violated, stage_failed, Stages, Pipeline, assert_with_prd,
  assert_with_architecture, assert_with_plan, assert_with_execution, assert_with_project_review,
  assert_with_documentation, run_node, resume_from_disk, should_run_project_stage, advance,
  run_nodes, run_project_stages, StageError, load_from, lift_result, nodes_until, eq_stage,
}
use beerengineer.ProjectPipeline.Soundness.{
  Sound, Sound-return, Sound-then, Any, is_ready, after_is_ready, Sound-lift, Sound-assert,
  Sound-require, Sound-stage, Sound-ready, Sound-with_stage_lifecycle,
}

module _ {S A : Type 0} (stages : Stages S A) where
  abbrev Follows : ProjectStageId → ProjectContext A → Type 0
  Follows id c = after_is_ready id c ≡ true

  Sound-run_node :
      (resume : Option ProjectResumePlan) (id : ProjectStageId) (c : ProjectContext A)
      (p : Pipeline S)
      → is_ready id c ≡ true
      → Sound (Follows id) (run_node stages resume id c p)
  unfolding run_node
  Sound-run_node resume requirements c p h =
      Sound-then Any (Follows requirements) _ _ (Sound-lift stages _ _)
        (λ a q' _. Sound-return (Follows requirements) (record c { prd = some a }) q' refl)
  Sound-run_node resume architecture c p h =
      Sound-stage stages (Follows architecture) (assert_with_prd c) _
        (λ a. record c { architecture = some a }) p (ground arith) (λ _. ground arith)
  Sound-run_node resume planning c p h =
      Sound-stage stages (Follows planning) (assert_with_architecture c) _
        (λ a. record c { plan = some a }) p (ground arith) (λ _. ground arith)
  Sound-run_node resume execution c p h =
      Sound-then Any (Follows execution) _ _
        (Sound-require stages (assert_with_plan c) p (ground arith))
        (λ _ q _. Sound-then Any (Follows execution) _ _ (Sound-ready stages c.plan q) (λ _ _ _.
          Sound-then Any (Follows execution) _ _ (Sound-lift stages _ _) (λ a q' _.
            Sound-return (Follows execution) (record c { execution_summaries = some a }) q'
              (ground arith))))
  Sound-run_node resume project_review c p h =
      Sound-stage stages (Follows project_review) (assert_with_execution c) _
        (λ a. record c { project_review = some a }) p (ground arith) (λ _. ground arith)
  Sound-run_node resume qa c p h =
      Sound-then Any (Follows qa) _ _ (Sound-lift stages _ _)
        (λ a q' _. Sound-return (Follows qa) c q' h)
  Sound-run_node resume documentation c p h =
      Sound-stage stages (Follows documentation) (assert_with_project_review c) _
        (λ a. record c { documentation = some a }) p (ground arith) (λ _. ground arith)
  Sound-run_node resume handoff c p h =
      Sound-stage stages (Follows handoff) (assert_with_documentation c) _ (λ a. c) p (ground arith)
        (λ _. refl)

  -- Every artifact that the loaders give is there.
  abbrev Complete : Type 0
  Complete = (id : ProjectStageId) (c : ProjectContext A) (s : S) → stages.load id c s ≢ ok none

  Sound-given :
      (id : ProjectStageId) (put : Option A → ProjectContext A) (r : Result StageError (Option A))
      (p : Pipeline S)
      → r ≢ ok none
      → ((a : A) → Follows id (put (some a)))
      → Sound (Follows id) (then_at (lift_result stages r, p) (λ o. return (put o)))
  unfolding Sound
  Sound-given id put (ok none) p n k = absurd (n refl)
  Sound-given id put (ok (some a)) p n k = k a
  Sound-given id put (err e) p n k = tt

  -- A loader that gives an artifact, put into the context.
  Sound-load :
      (id : ProjectStageId) (c : ProjectContext A) (put : Option A → ProjectContext A)
      (p : Pipeline S)
      → stages.load id c p.outside ≢ ok none
      → ((a : A) → Follows id (put (some a)))
      → Sound (Follows id) (then_at (load_from stages (stages.load id c) p) (λ o. return (put o)))
  Sound-load id c put p h k = Sound-given id put (stages.load id c p.outside) p h k

  Sound-resume_from_disk :
      (id : ProjectStageId) (c : ProjectContext A) (p : Pipeline S)
      → Complete
      → is_ready id c ≡ true
      → Sound (Follows id) (resume_from_disk stages id c p)
  unfolding resume_from_disk
  Sound-resume_from_disk requirements c p l h =
      Sound-load requirements c (λ o. record c { prd = o }) p (l _ _ _) (λ a. refl)
  Sound-resume_from_disk architecture c p l h =
      Sound-load architecture c (λ o. record c { architecture = o }) p (l _ _ _) (λ a. ground arith)
  Sound-resume_from_disk planning c p l h =
      Sound-load planning c (λ o. record c { plan = o }) p (l _ _ _) (λ a. ground arith)
  Sound-resume_from_disk execution c p l h =
      Sound-then Any (Follows execution) _ _
        (Sound-require stages (assert_with_plan c) p (ground arith))
        (λ _ q _.
          Sound-load execution c (λ o. record c { execution_summaries = o }) q (l _ _ _)
            (λ a. ground arith))
  Sound-resume_from_disk project_review c p l h =
      Sound-load project_review c (λ o. record c { project_review = o }) p (l _ _ _)
        (λ a. ground arith)
  Sound-resume_from_disk qa c p l h = Sound-return (Follows qa) c p h
  Sound-resume_from_disk documentation c p l h =
      Sound-load documentation c (λ o. record c { documentation = o }) p (l _ _ _)
        (λ a. ground arith)
  Sound-resume_from_disk handoff c p l h = Sound-return (Follows handoff) c p refl

  Sound-advance :
      (resume : Option ProjectResumePlan) (id : ProjectStageId) (c : ProjectContext A)
      (p : Pipeline S)
      → Complete
      → is_ready id c ≡ true
      → Sound (Follows id) (advance stages resume id c p)
  unfolding advance
  Sound-advance resume id c p l h =
      Sound-then Any (Follows id) _ _ (Sound-assert stages p) (λ _ q _.
        Sound-then (Follows id) (Follows id) _ _
          (if_ind (λ (m : Effect (Pipeline S) Failure (ProjectContext A)). Sound (Follows id) (m q))
            (should_run_project_stage resume id)
            (λ _.
              Sound-with_stage_lifecycle stages (Follows id) id _ q
                (λ q'. Sound-run_node resume id c q' h))
            (λ _. Sound-resume_from_disk id c q l h))
          (λ c' q' k.
            Sound-then Any (Follows id) _ _ (Sound-assert stages q')
              (λ _ q3 _. Sound-return (Follows id) c' q3 k)))

  -- Each node of the list makes the context ready for the next.
  abbrev Chained : List ProjectStageId → Type 0
  Chained [] = Unit
  Chained (x ∷ []) = Unit
  Chained (x ∷ y ∷ xs) =
      ((c : ProjectContext A) → after_is_ready x c ≡ true → is_ready y c ≡ true) × Chained (y ∷ xs)

  abbrev Starts : List ProjectStageId → ProjectContext A → Type 0
  Starts [] c = Unit
  Starts (x ∷ xs) c = is_ready x c ≡ true

  Starts-next :
      (x : ProjectStageId) (xs : List ProjectStageId) (c : ProjectContext A)
      → Chained (x ∷ xs)
      → Follows x c
      → Starts xs c
  Starts-next x [] c h k = tt
  Starts-next x (y ∷ xs) c h k = h.0 c k

  Chained-next : (x : ProjectStageId) (xs : List ProjectStageId) → Chained (x ∷ xs) → Chained xs
  Chained-next x [] h = tt
  Chained-next x (y ∷ xs) h = h.1

  Sound-run_nodes :
      (resume : Option ProjectResumePlan) (ids : List ProjectStageId) (c : ProjectContext A)
      (p : Pipeline S)
      → Complete
      → Chained ids
      → Starts ids c
      → Sound Any (run_nodes stages resume ids c p)
  unfolding run_nodes
  Sound-run_nodes resume [] c p l h k = Sound-return Any c p tt
  Sound-run_nodes resume (x ∷ xs) c p l h k =
      Sound-then (Follows x) Any _ _ (Sound-advance resume x c p l k)
        (λ c' q f. Sound-run_nodes resume xs c' q l (Chained-next x xs h) (Starts-next x xs c' h f))

  Chained-nodes_until :
      (x : ProjectStageId) (xs : List ProjectStageId) (stop : ProjectStageId)
      → Chained (x ∷ xs)
      → Chained (nodes_until (x ∷ xs) stop)
  unfolding nodes_until
  Chained-nodes_until x [] stop h =
      if_ind (λ ys. Chained (x ∷ ys)) (eq_stage x stop) (λ _. tt) (λ _. tt)
  Chained-nodes_until x (y ∷ ys) stop h =
      if_ind (λ zs. Chained (x ∷ zs)) (eq_stage x stop) (λ _. tt)
        (λ _. (h.0, Chained-nodes_until y ys stop h.1))

  Chained-order : Chained project_stage_order
  Chained-order =
      (λ c k. k, (λ c k. k, (λ c k. k, (λ c k. k, (λ c k. k, (λ c k. k, (λ c k. k, tt)))))))

-- A pipeline never ends because an artifact is missing in its context, wherever it resumes and wherever
-- it stops, whatever its stages give or throw, if no loader that succeeds gives an undefined or null
-- artifact.
pub run_project_stages-ne-violated :
    {S A : Type 0} (stages : Stages S A) (resume : Option ProjectResumePlan)
    (stop_after : Option ProjectStageId) (c : ProjectContext A) (p : Pipeline S) (m : Missing)
    → ((id : ProjectStageId) (d : ProjectContext A) (s : S) → stages.load id d s ≢ ok none)
    → (run_project_stages stages resume stop_after c p).0 ≢ err (invariant_violated m)
unfolding run_project_stages Sound nodes_until
run_project_stages-ne-violated {S} {A} stages resume stop_after c p m l h = refute _ h (
    split_option_ind (λ ids. Sound Any (run_nodes stages resume ids c p)) stop_after
      (λ _. Sound-run_nodes stages resume project_stage_order c p l (Chained-order stages) refl)
      (λ stop _.
        Sound-run_nodes stages resume (nodes_until project_stage_order stop) c p l
          (Chained-nodes_until stages requirements
            (architecture ∷ planning ∷ execution ∷ project_review ∷ qa ∷ documentation ∷ handoff
              ∷ [])
            stop (Chained-order stages))
          refl))
  where
    refute :
        (r : Result Failure (ProjectContext A) × Pipeline S)
        → r.0 ≡ err (invariant_violated m)
        → Sound Any r
        → ⊥
    refute (ok b, p) h k = cc
    refute (err (invariant_violated n), p) h k = k
    refute (err cancelled, p) h k = cc
    refute (err (stage_failed e), p) h k = cc
