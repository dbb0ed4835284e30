-- ===== src/WaveExecution/Merges.antt =====
-- Which waves reach the project's branch (`executeWave` of waveExecution.ts).
use beerengineer.Base.{String, ◌≡◌, refl, ap, true, Option, List, [], ◌∷◌, ◌++◌, arith}
use beerengineer.Base.Tests.{if_ind, ◌==◌}
use beerengineer.Base.Lists.{length}
use beerengineer.Base.Effects.{Result, ok, err, Effect, then_at, Outcome, Outcome-ok, Outcome-then}
use beerengineer.Plan.{WaveDefinition}
use beerengineer.ProjectPipeline.{ExecutionResumeOptions}
use beerengineer.WaveExecution.{
  call, run_stories, assert_wave_succeeded, provision, record_if_blocked, merge_wave, clean_up,
  run_wave, execute_wave, lift_result,
}
use beerengineer.WaveExecution.Types.{
  WaveSummary, StoryResult, ExecutionError, Execution, Executing, summary_of,
}
use beerengineer.WaveExecution.Unmerged.{Has, Has-run_wave}

-- A summary that a wave gives has no blocked story, and is the summary of that wave.
module _ {S : Type 0} where
  Clean : String → Result ExecutionError WaveSummary × Executing S → Type 0
  Clean id (ok summary, s) = (summary.stories_blocked ≡ []) × (summary.wave_id ≡ id)
  Clean id (err e, s) = Unit

  Clean-then :
      {A : Type 0} (id : String) (r : Result ExecutionError A × Executing S)
      (f : A → Effect (Executing S) ExecutionError WaveSummary)
      → ((a : A) (s : Executing S) → Clean id (f a s))
      → Clean id (then_at r f)
  unfolding Clean
  Clean-then id (ok a, s) f h = h a s
  Clean-then id (err e, s) f h = tt

module _ {S : Type 0} (env : Execution S) where
  -- The waves in the project's branch are `merged`.
  abbrev pub Merged : List String → Executing S → Type 0
  Merged merged s = s.merged_waves ≡ merged

  abbrev pub Unblocked : WaveDefinition → WaveSummary → Type 0
  Unblocked w summary = (summary.stories_blocked ≡ []) × (summary.wave_id ≡ w.id)

  none_left : (ids : List String) → (length ids == 0) ≡ true → ids ≡ []
  none_left [] h = refl
  none_left (id ∷ ids) h = ground arith

  Clean-asserted :
      (w : WaveDefinition) (results : List StoryResult) (s : Executing S)
      → Clean w.id (
          then_at
            (assert_wave_succeeded env w (summary_of w results) s)
            (λ _ v. (ok (summary_of w results), v)))
  unfolding Clean assert_wave_succeeded summary_of
  Clean-asserted w results s =
      if_ind
        (λ (m : Effect (Executing S) ExecutionError (Unit {0})).
          Clean w.id (then_at (m s) (λ _ v. (ok (summary_of w results), v))))
        (length (summary_of w results).stories_blocked == 0)
        (λ h. (none_left (summary_of w results).stories_blocked h, refl)) (λ _. tt)

  Clean-run_wave :
      (w : WaveDefinition) (resume : Option ExecutionResumeOptions) (s : Executing S)
      → Clean w.id (run_wave env w resume s)
  unfolding run_wave
  Clean-run_wave w resume s = Clean-then w.id (call env (env.ensure_wave_branch w) s) _ (λ _ t.
      Clean-then w.id (provision env w t) _ (λ _ u.
        Clean-then w.id (run_stories env w resume u) _ (λ results v.
          Clean-then w.id (call env (env.write_wave_summary w (summary_of w results)) v) _ (λ _ x.
            Clean-then w.id (record_if_blocked env w (summary_of w results) x) _
              (λ _ y. Clean-asserted w results y)))))

  both :
      (w : WaveDefinition) (merged : List String)
      (r : Result ExecutionError WaveSummary × Executing S)
      → Has env merged r
      → Clean w.id r
      → Outcome (λ summary s. Unblocked w summary × Merged merged s) (Merged merged) r
  unfolding Has Clean Outcome
  both w merged (ok summary, s) h k = (k, h)
  both w merged (err e, s) h k = h

  Outcome-run_wave :
      (w : WaveDefinition) (resume : Option ExecutionResumeOptions) (s : Executing S)
      → Outcome
          (λ summary t. Unblocked w summary × Merged s.merged_waves t)
          (Merged s.merged_waves)
          (run_wave env w resume s)
  Outcome-run_wave w resume s =
      both w s.merged_waves _ (Has-run_wave env s.merged_waves w resume s refl)
        (Clean-run_wave w resume s)

  Outcome-merge_wave :
      (w : WaveDefinition) (merged : List String) (s : Executing S)
      → Merged merged s
      → Outcome {E = ExecutionError} {A = Unit {0}}
          (λ _. Merged (merged ++ w.id ∷ []))
          (Merged merged)
          (merge_wave env w s)
  unfolding merge_wave Outcome
  Outcome-merge_wave w merged s h = of_call (env.merge_wave_into_project w s.outside)
    where
      of_call :
          (r : Result String (Unit {0}) × S)
          → Outcome {E = ExecutionError} {A = Unit {0}}
              (λ _. Merged (merged ++ w.id ∷ []))
              (Merged merged)
              (then_at
                (lift_result env r.0, record s { outside = r.1 })
                (λ _ t. (ok tt, record t { merged_waves = t.merged_waves ++ w.id ∷ [] })))
      of_call (ok a, t) = ap (λ ids. ids ++ w.id ∷ []) h
      of_call (err e, t) = h

  -- A wave is merged into the project's branch exactly when it ends with a summary, which then has no
  -- blocked story; what fails or blocks before leaves the project's branch as it was.
  pub execute_wave-merges :
      (w : WaveDefinition) (resume : Option ExecutionResumeOptions) (s : Executing S)
      → Outcome
          (λ summary t. Unblocked w summary × Merged (s.merged_waves ++ w.id ∷ []) t)
          (Merged s.merged_waves)
          (execute_wave env w resume s)
  unfolding execute_wave
  execute_wave-merges w resume s =
      Outcome-then _ _ _ _ (run_wave env w resume s) _ (Outcome-run_wave w resume s)
        (λ summary t h.
          Outcome-then _ _ _ _ (merge_wave env w t) _ (Outcome-merge_wave w s.merged_waves t h.1)
            (λ _ u k. Outcome-ok _ _ _ summary (clean_up env w u).1 (h.0, k)) (λ u k. k))
        (λ t h. h)
