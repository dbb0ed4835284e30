-- ===== src/WaveExecution/Unmerged.antt =====
-- The part of a wave before its merge (`executeWave` of waveExecution.ts), and the waves in the
-- project's branch.
use beerengineer.Base.{String, ◌≡◌, Bool, true, false, Option, List, [], ◌∷◌, inl, inr}
use beerengineer.Base.Tests.{if_ind, Bool-cases, ◌==◌, ltb}
use beerengineer.Base.Lists.{length}
use beerengineer.Base.Effects.{Result, ok, err, Effect, then_at}
use beerengineer.Plan.{WaveDefinition}
use beerengineer.RalphStoryLoop.{StoryStatus, passed, blocked, in_progress, ready_for_review}
use beerengineer.ProjectPipeline.{ExecutionResumeOptions}
use beerengineer.WaveExecution.{
  call, rerun_of, after_story, run_story, sequentially, settled, run_stories_in_parallel,
  is_parallel, run_stories, assert_wave_succeeded, uses_branch, after_provision, provision,
  record_if_blocked, run_wave,
}
use beerengineer.WaveExecution.Types.{
  WaveSummary, StoryResult, ExecutionError, Execution, Executing, wave_entries, summary_of,
}

module _ {S : Type 0} (env : Execution S) (merged : List String) where
  -- The waves in the project's branch are `merged`.
  unfoldable pub Has : {A : Type 0} → Result ExecutionError A × Executing S → Type 0
  Has r = r.1.merged_waves ≡ merged

  Has-then :
      {A B : Type 0} (r : Result ExecutionError A × Executing S)
      (f : A → Effect (Executing S) ExecutionError B)
      → Has r
      → ((a : A) (s : Executing S) → s.merged_waves ≡ merged → Has (f a s))
      → Has (then_at r f)
  unfolding Has
  Has-then (ok a, s) f h k = k a s h
  Has-then (err e, s) f h k = h

  Has-call :
      {A : Type 0} (f : Effect S String A) (s : Executing S)
      → s.merged_waves ≡ merged
      → Has (call env f s)
  unfolding Has
  Has-call f s h = h

  Has-ok : {A : Type 0} (a : A) (s : Executing S) → s.merged_waves ≡ merged → Has (ok a, s)
  unfolding Has
  Has-ok a s h = h

  Has-after_story :
      (w : WaveDefinition) (id : String) (status : StoryStatus) (s : Executing S)
      → s.merged_waves ≡ merged
      → Has (after_story env w id status s)
  Has-after_story w id passed s h = Has-call (env.merge_story_into_wave w id) s h
  Has-after_story w id blocked s h = Has-call (env.abandon_story_branch w id) s h
  Has-after_story w id in_progress s h = Has-ok tt s h
  Has-after_story w id ready_for_review s h = Has-ok tt s h

  Has-run_story :
      (w : WaveDefinition) (resume : Option ExecutionResumeOptions) (id : String) (s : Executing S)
      → s.merged_waves ≡ merged
      → (run_story env w resume id s).1.merged_waves ≡ merged
  unfolding run_story Has
  Has-run_story w resume id s h =
      Has-then (call env (env.prepare_story w id) s)
        (λ _ t.
          then_at (call env (env.implement_story w id (rerun_of env resume id)) t) (λ status u.
            then_at (after_story env w id status u)
              (λ _ v. (ok (record { story_id = id; status = status }), v))))
        h
        (λ _ t k.
          Has-then (call env (env.implement_story w id (rerun_of env resume id)) t)
            (λ status u.
              then_at (after_story env w id status u)
                (λ _ v. (ok (record { story_id = id; status = status }), v)))
            k
            (λ status u l.
              Has-then (after_story env w id status u)
                (λ _ v. (ok (record { story_id = id; status = status }), v))
                (Has-after_story w id status u l) (λ _ v m. m)))

  Has-sequentially :
      (w : WaveDefinition) (resume : Option ExecutionResumeOptions) (ids : List String)
      (s : Executing S)
      → s.merged_waves ≡ merged
      → Has (sequentially env w resume ids s)
  unfolding sequentially
  Has-sequentially w resume [] s h = Has-ok [] s h
  Has-sequentially w resume (id ∷ ids) s h =
      Has-then (run_story env w resume id s) _ (unfold Has in Has-run_story w resume id s h)
        (λ r t k.
          Has-then (sequentially env w resume ids t) _ (Has-sequentially w resume ids t k)
            (λ rs u l. Has-ok (r ∷ rs) u l))

  Has-settled :
      (id : String) (r : Result ExecutionError StoryResult × Executing S)
      → r.1.merged_waves ≡ merged
      → (settled env id r).1.merged_waves ≡ merged
  Has-settled id (ok r, s) h = h
  Has-settled id (err e, s) h = h

  Has-parallel :
      (w : WaveDefinition) (resume : Option ExecutionResumeOptions) (ids : List String)
      (s : Executing S)
      → s.merged_waves ≡ merged
      → (run_stories_in_parallel env w resume ids s).1.merged_waves ≡ merged
  unfolding run_stories_in_parallel
  Has-parallel w resume [] s h = h
  Has-parallel w resume (id ∷ ids) s h =
      Has-parallel w resume ids (settled env id (run_story env w resume id s)).1
        (Has-settled id (run_story env w resume id s) (Has-run_story w resume id s h))

  Has-run_stories :
      (w : WaveDefinition) (resume : Option ExecutionResumeOptions) (s : Executing S)
      → s.merged_waves ≡ merged
      → Has (run_stories env w resume s)
  Has-run_stories w resume s h =
      if_ind Has (is_parallel env w) (λ _. unfold Has in Has-parallel w resume (wave_entries w) s h)
        (λ _. Has-sequentially w resume (wave_entries w) s h)

  Has-assert :
      (w : WaveDefinition) (summary : WaveSummary) (s : Executing S)
      → s.merged_waves ≡ merged
      → Has (assert_wave_succeeded env w summary s)
  unfolding assert_wave_succeeded Has
  Has-assert w summary s h = elim (Bool-cases (length summary.stories_blocked == 0)) [
    | inl e ↦ rw e h
    | inr e ↦ rw e h
  ]

  Has-after_provision :
      (w : WaveDefinition) (done : Bool) (s : Executing S)
      → s.merged_waves ≡ merged
      → Has (after_provision env w done s)
  Has-after_provision w true s h = Has-ok tt s h
  Has-after_provision w false s h =
      Has-then (call env (env.record_provisioning_blocked w) s) _
        (Has-call (env.record_provisioning_blocked w) s h) (λ _ t k. Has-assert w _ t k)

  Has-provision :
      (w : WaveDefinition) (s : Executing S) → s.merged_waves ≡ merged → Has (provision env w s)
  Has-provision w s h =
      if_ind Has (uses_branch env w)
        (λ _.
          Has-then (call env (env.provision_wave w) s) (after_provision env w)
            (Has-call (env.provision_wave w) s h) (λ done t k. Has-after_provision w done t k))
        (λ _. Has-ok tt s h)

  Has-record_if_blocked :
      (w : WaveDefinition) (summary : WaveSummary) (s : Executing S)
      → s.merged_waves ≡ merged
      → Has (record_if_blocked env w summary s)
  Has-record_if_blocked w summary s h =
      if_ind Has (ltb 0 (length summary.stories_blocked))
        (λ _. Has-call (env.record_blocked_wave w summary) s h) (λ _. Has-ok tt s h)

  -- The end of the part before the merge.
  abbrev finish :
      WaveDefinition → List StoryResult → Effect (Executing S) ExecutionError WaveSummary
  finish w results s =
      then_at (call env (env.write_wave_summary w (summary_of w results)) s) (λ _ t.
        then_at (record_if_blocked env w (summary_of w results) t) (λ _ u.
          then_at (assert_wave_succeeded env w (summary_of w results) u)
            (λ _ v. (ok (summary_of w results), v))))

  Has-finish :
      (w : WaveDefinition) (results : List StoryResult) (s : Executing S)
      → s.merged_waves ≡ merged
      → Has (finish w results s)
  Has-finish w results s h =
      Has-then (call env (env.write_wave_summary w (summary_of w results)) s) _
        (Has-call (env.write_wave_summary w (summary_of w results)) s h)
        (λ _ t k.
          Has-then (record_if_blocked env w (summary_of w results) t) _
            (Has-record_if_blocked w (summary_of w results) t k)
            (λ _ u l.
              Has-then (assert_wave_succeeded env w (summary_of w results) u) _
                (Has-assert w (summary_of w results) u l)
                (λ _ v m. Has-ok (summary_of w results) v m)))

  pub Has-run_wave :
      (w : WaveDefinition) (resume : Option ExecutionResumeOptions) (s : Executing S)
      → s.merged_waves ≡ merged
      → Has (run_wave env w resume s)
  unfolding run_wave
  Has-run_wave w resume s h =
      Has-then (call env (env.ensure_wave_branch w) s) _ (Has-call (env.ensure_wave_branch w) s h)
        (λ _ t k. Has-then (provision env w t) _ (Has-provision w t k) (λ _ u l.
          Has-then (run_stories env w resume u) (finish w) (Has-run_stories w resume u l)
            (λ results v m. Has-finish w results v m)))
