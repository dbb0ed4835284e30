-- ===== src/WaveExecution/Waves.antt =====
-- The loop over the waves (`execution` of waveExecution.ts): which of them reach the project's branch,
-- and in which order.
use beerengineer.Base.{
  ℕ, String, ◌≡◌, refl, sym, ◌∙◌, ap, append-nil, append_assoc, map, zero, suc, Bool, true, false,
  not, ◌&&◌, Option, none, some, List, [], ◌∷◌, ◌++◌, arith,
}
use beerengineer.Base.Tests.{split_option_ind, if◌then◌else◌, if_ind, ◌==◌, ltb}
use beerengineer.Base.Lists.{length}
use beerengineer.Base.Maps.{add_to}
use beerengineer.Base.Sorting.{sort}
use beerengineer.Base.Effects.{Result, Effect, Outcome, Outcome-ok, Outcome-then}
use beerengineer.Plan.{WaveDefinition}
use beerengineer.ProjectPipeline.{ExecutionResumeOptions}
use beerengineer.WaveExecution.{
  guard_wave, check, checkpoint, execute_wave, run_waves, execution, uses_branch,
}
use beerengineer.WaveExecution.Types.{
  WaveSummary, ExecutionError, Execution, Executing, wave_le, is_skipped, next_resume,
  missing_dependencies, can_start_db_relevant_wave, db_wave_active, dependencies_missing,
}
use beerengineer.WaveExecution.Merges.{execute_wave-merges}

-- The ids of the waves that are not skipped.
unfoldable pub executed : Option ExecutionResumeOptions → List WaveDefinition → List String
executed resume [] = []
executed resume (w ∷ ws) =
    if is_skipped resume w then executed resume ws else w.id ∷ executed (next_resume resume w) ws

-- Every wave that is not skipped depends only on waves before it.
unfoldable pub dependencies_met :
    Option ExecutionResumeOptions → List WaveDefinition → (completed : List String) → Bool
dependencies_met resume [] completed = true
dependencies_met resume (w ∷ ws) completed =
    if is_skipped resume w
    then dependencies_met resume ws (add_to completed w.id)
    else length (missing_dependencies w completed) == 0
      && dependencies_met (next_resume resume w) ws (add_to completed w.id)

-- What holds of both branches of three conditionals under one test.
if3_ind :
    {A B C : Type 0} (P : A → B → C → Type 0) (b : Bool) {x y : A} {p q : B} {m n : C}
    → (b ≡ true → P x p m)
    → (b ≡ false → P y q n)
    → P (if b then x else y) (if b then p else q) (if b then m else n)
if3_ind P true h k = h refl
if3_ind P false h k = k refl

-- `ids` begin with those that were added to `before`.
abbrev pub Partly : {S : Type 0} → (before ids : List String) → Executing S → Type 0
Partly before ids s =
    (done : List String) × (rest : List String) × (ids ≡ done ++ rest)
    × (s.merged_waves ≡ before ++ done)

module _ {S : Type 0} (env : Execution S) where
  abbrev pub Ends :
      Option ExecutionResumeOptions
      → List WaveDefinition
      → (completed before : List String) → Result ExecutionError (List WaveSummary) × Executing S
      → Type 0
  Ends resume ws completed before =
      Outcome
        (λ _ t.
          (t.merged_waves ≡ before ++ executed resume ws)
          × (dependencies_met resume ws completed ≡ true))
        (Partly before (executed resume ws))

  abbrev Kept : List String → Executing S → Type 0
  Kept before t = t.merged_waves ≡ before

  Kept-checkpoint :
      (w : WaveDefinition) (before : List String) (s : Executing S)
      → Kept before s
      → Outcome (λ (_ : WaveSummary). Kept before) (Kept before) (checkpoint env w s)
  unfolding Outcome
  Kept-checkpoint w before s h =
      split_option_ind
        (λ (r : Result ExecutionError WaveSummary).
          Outcome (λ (_ : WaveSummary). Kept before) (Kept before) (r, s))
        (env.read_wave_summary w.number s.outside) (λ _. h) (λ _ _. h)

  -- A wave that passes the guards has its dependencies completed.
  Outcome-check :
      (w : WaveDefinition) (completed active : List String) (s : Executing S)
      → Outcome
          (λ (_ : Unit {0}) t. (t ≡ s) × ((length (missing_dependencies w completed) == 0) ≡ true))
          (λ t. t ≡ s)
          (check env (guard_wave env w completed active) s)
  unfolding Outcome
  Outcome-check w completed active s =
      if_ind Checked (uses_branch env w && not (can_start_db_relevant_wave true active))
        {x = some (db_wave_active w.id)}
        {y = if ltb 0 (length (missing_dependencies w completed))
          then some (dependencies_missing w.id (missing_dependencies w completed))
          else none}
        (λ _. refl)
        (λ _.
          if_ind Checked (ltb 0 (length (missing_dependencies w completed)))
            {x = some (dependencies_missing w.id (missing_dependencies w completed))} {y = none}
            (λ _. refl) (λ h. (refl, none_missing (length (missing_dependencies w completed)) h)))
    where
      Checked : Option ExecutionError → Type 0
      Checked o =
          Outcome
            (λ (_ : Unit {0}) t.
              (t ≡ s) × ((length (missing_dependencies w completed) == 0) ≡ true))
            (λ t. t ≡ s) (check env o s)

      none_missing : (n : ℕ) → ltb 0 n ≡ false → (n == 0) ≡ true
      none_missing zero h = refl
      none_missing (suc n) h = ground arith

  both_true : {a b : Bool} → a ≡ true → b ≡ true → a && b ≡ true
  both_true {a} {b} h k = ground arith

  Ends-run_waves :
      (ws : List WaveDefinition) (resume : Option ExecutionResumeOptions)
      (completed active before : List String) (s : Executing S)
      → Kept before s
      → Ends resume ws completed before (run_waves env ws resume completed active s)
  unfolding run_waves executed dependencies_met
  Ends-run_waves [] resume completed active before s h =
      Outcome-ok _ _ _ [] s (h ∙ sym (append-nil before), refl)
  Ends-run_waves (w ∷ ws) resume completed active before s h =
      if3_ind
        (λ (m : Effect (Executing S) ExecutionError (List WaveSummary)) ids met.
          Outcome (λ _ t. (t.merged_waves ≡ before ++ ids) × (met ≡ true)) (Partly before ids)
            (m s))
        (is_skipped resume w)
        (λ _.
          Outcome-then (λ (_ : WaveSummary). Kept before) _ (Kept before) _ (checkpoint env w s) _
            (Kept-checkpoint w before s h)
            (λ summary t k.
              Outcome-then _ _ _ _ (run_waves env ws resume (add_to completed w.id) active t) _
                (Ends-run_waves ws resume (add_to completed w.id) active before t k)
                (λ rest u l. Outcome-ok _ _ _ (summary ∷ rest) u l) (λ u l. l))
            (λ t k. ([], executed resume ws, refl, k ∙ sym (append-nil before))))
        (λ _.
          Outcome-then _ _ _ _ (check env (guard_wave env w completed active) s) _
            (Outcome-check w completed active s)
            (λ _ t k.
              Outcome-then _ _ _ _ (execute_wave env w resume t) _
                (execute_wave-merges env w resume t)
                (λ summary u l.
                  Outcome-then _ _ _ _
                    (run_waves env ws (next_resume resume w) (add_to completed w.id) _ u) _
                    (Ends-run_waves ws (next_resume resume w) (add_to completed w.id) _
                      (before ++ w.id ∷ []) u
                      (l.1
                        ∙ ap (λ x. x.merged_waves ++ w.id ∷ []) k.0
                        ∙ ap (λ ids. ids ++ w.id ∷ []) h))
                    (λ rest v m.
                      Outcome-ok _ _ _ (summary ∷ rest) v
                        (m.0 ∙ append_assoc before (w.id ∷ []) _, both_true k.1 m.1))
                    (λ v m.
                      let (done, rest, e, j) = m in
                      (
                        w.id ∷ done,
                        rest,
                        ap (λ ids. w.id ∷ ids) e,
                        j ∙ append_assoc before (w.id ∷ []) done,
                      )))
                (λ u l. (
                  [],
                  w.id ∷ executed (next_resume resume w) ws,
                  refl,
                  l ∙ ap (λ x. x.merged_waves) k.0 ∙ h ∙ sym (append-nil before),
                )))
            (λ t k. (
              [],
              w.id ∷ executed (next_resume resume w) ws,
              refl,
              ap (λ x. x.merged_waves) k ∙ h ∙ sym (append-nil before),
            )))

-- The execution of a plan adds the waves that it does not skip to the project's branch, in the order
-- of the sorted plan, and each of them has the waves that it depends on before it. An execution that
-- fails, wherever it does, has added the first of these waves and no other.
pub execution-merged_waves :
    {S : Type 0} (env : Execution S) (waves : List WaveDefinition)
    (resume : Option ExecutionResumeOptions) (s : Executing S)
    → Ends env resume (sort wave_le waves) [] s.merged_waves (execution env waves resume s)
unfolding execution
execution-merged_waves env waves resume s =
    Ends-run_waves env (sort wave_le waves) resume [] [] s.merged_waves s refl

-- Without a resume no wave is skipped.
pub executed_all :
    (ws : List WaveDefinition) → executed none ws ≡ map (λ (w : WaveDefinition). w.id) ws
unfolding executed
executed_all [] = refl
executed_all (w ∷ ws) = ap (λ ids. w.id ∷ ids) (executed_all ws)
