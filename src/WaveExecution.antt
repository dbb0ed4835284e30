-- ===== src/WaveExecution.antt =====
-- The execution of a plan (apps/engine/src/stages/execution/waveExecution.ts and dbWaveScheduler.ts,
-- and `writeWaveSummary` of ralphRuntime.ts): its waves one after the other, each with its stories.
use beerengineer.Base.{
  ℕ, zero, suc, String, Bool, true, false, not, ◌&&◌, ◌||◌, Option, none, some, List, [], ◌∷◌, ◌++◌,
  map,
}
use beerengineer.Base.Tests.{ltb, leb, ◌==◌, if◌then◌else◌, is_some, get_or, split_option}
use beerengineer.Base.Lists.{any, select, length}
use beerengineer.Base.Sorting.{sort}
use beerengineer.Base.Texts.{eq_text, is_text, has}
use beerengineer.Base.Maps.{add_to}
use beerengineer.Base.Effects.{Result, ok, err, Effect, return, throw, then_at, ◌>>=◌, ◌>>◌}
use beerengineer.Plan.{Story, WaveTask, WaveDefinition, WaveKind, is_setup}
use beerengineer.RalphStoryLoop.{StoryStatus, passed, blocked, in_progress, ready_for_review}
use beerengineer.ProjectPipeline.{ExecutionResumeOptions}
use beerengineer.WaveExecution.Types.{
  Executing, Execution, ExecutionError, StoryResult, WaveSummary, can_start_db_relevant_wave,
  db_wave_active, dependencies_missing, ids_with, is_blocked, is_db_relevant_wave, is_passed,
  is_skipped, missing_checkpoint, missing_dependencies, next_resume, rank, remove_first,
  stories_blocked, summary_of, threw, wave_entries, wave_le,
}
pub mod Types
pub mod Unmerged
pub mod Merges
pub mod Waves
mod Tests

module _ {S : Type 0} (env : Execution S) where
  abbrev pub Act : Type 0 → Type 0
  Act A = Effect (Executing S) ExecutionError A

  abbrev pub lift_result : {A : Type 0} → Result String A → Result ExecutionError A
  lift_result (ok a) = ok a
  lift_result (err message) = err (threw message)

  abbrev pub call : {A : Type 0} → Effect S String A → Act A
  call f s = (lift_result (f s.outside).0, record s { outside = (f s.outside).1 })

  abbrev rerun_of : Option ExecutionResumeOptions → String → Bool
  rerun_of none id = false
  rerun_of (some r) id = if is_text r.story_id id then r.rerun_test_writer else false

  -- What follows the implementation of a story: its merge, or the end of its branch.
  abbrev after_story : WaveDefinition → String → StoryStatus → Act (Unit {0})
  after_story w id passed = call (env.merge_story_into_wave w id)
  after_story w id blocked = call (env.abandon_story_branch w id)
  after_story w id _ = return tt

  unfoldable pub run_story :
      WaveDefinition → Option ExecutionResumeOptions → String → Act StoryResult
  run_story w resume id s =
      let ran =
        (do
          call (env.prepare_story w id)
          status ← call (env.implement_story w id (rerun_of resume id))
          after_story w id status
          return (record { story_id = id; status = status }))
          s in
      (ran.0, record ran.1 { outside = env.clean_up_story w id ran.1.outside })

  unfoldable pub sequentially :
      WaveDefinition → Option ExecutionResumeOptions → List String → Act (List StoryResult)
  sequentially w resume [] = return []
  sequentially w resume (id ∷ ids) = do
    r ← run_story w resume id
    rs ← sequentially w resume ids
    return (r ∷ rs)

  -- A story that throws is blocked, and the others go on. The steps of the stories are not
  -- interleaved.
  abbrev pub settled :
      String → Result ExecutionError StoryResult × Executing S → StoryResult × Executing S
  settled id (ok r, s) = (r, s)
  settled id (err e, s) = (record { story_id = id; status = blocked }, s)

  unfoldable pub run_stories_in_parallel :
      WaveDefinition
      → Option ExecutionResumeOptions
      → List String
      → Executing S
      → List StoryResult × Executing S
  run_stories_in_parallel w resume [] s = ([], s)
  run_stories_in_parallel w resume (id ∷ ids) s =
      let first = settled id (run_story w resume id s) in
      let rest = run_stories_in_parallel w resume ids first.1 in (first.0 ∷ rest.0, rest.1)

  abbrev pub is_parallel : WaveDefinition → Bool
  is_parallel w = not (is_setup w.kind) && w.internally_parallelizable && env.parallel_stories_flag

  abbrev pub run_stories : WaveDefinition → Option ExecutionResumeOptions → Act (List StoryResult)
  run_stories w resume s =
      if is_parallel w
      then (
        ok (run_stories_in_parallel w resume (wave_entries w) s).0,
        (run_stories_in_parallel w resume (wave_entries w) s).1,
      )
      else sequentially w resume (wave_entries w) s

  unfoldable pub assert_wave_succeeded : WaveDefinition → WaveSummary → Act (Unit {0})
  assert_wave_succeeded w summary =
      if length summary.stories_blocked == 0
      then return tt
      else throw (stories_blocked w.id summary.stories_blocked)

  abbrev pub uses_branch : WaveDefinition → Bool
  uses_branch w = env.supabase_hook && is_db_relevant_wave w

  -- A wave that is not provisioned blocks all of its stories. With no stories it goes on.
  abbrev after_provision : WaveDefinition → Bool → Act (Unit {0})
  after_provision w true = return tt
  after_provision w false = do
    call (env.record_provisioning_blocked w)
    assert_wave_succeeded w
        (record { wave_id = w.id; stories_merged = []; stories_blocked = wave_entries w })

  abbrev pub provision : WaveDefinition → Act (Unit {0})
  provision w s =
      if uses_branch w then (call (env.provision_wave w) >>= after_provision w) s else (ok tt, s)

  abbrev pub record_if_blocked : WaveDefinition → WaveSummary → Act (Unit {0})
  record_if_blocked w summary s =
      if ltb 0 (length summary.stories_blocked)
      then call (env.record_blocked_wave w summary) s
      else (ok tt, s)

  -- `mergeWaveIntoProject`.
  unfoldable pub merge_wave : WaveDefinition → Act (Unit {0})
  merge_wave w = do
    call (env.merge_wave_into_project w)
    λ s. (ok tt, record s { merged_waves = s.merged_waves ++ w.id ∷ [] })

  abbrev pub clean_up : WaveDefinition → Act (Unit {0})
  clean_up w s = (
    ok tt,
    record s { outside = if uses_branch w then env.clean_up_branch w s.outside else s.outside },
  )

  -- The part before the merge into the project.
  unfoldable pub run_wave : WaveDefinition → Option ExecutionResumeOptions → Act WaveSummary
  unfolding sequentially run_stories_in_parallel run_story assert_wave_succeeded summary_of
  run_wave w resume = do
    call (env.ensure_wave_branch w)
    provision w
    results ← run_stories w resume
    call (env.write_wave_summary w (summary_of w results))
    record_if_blocked w (summary_of w results)
    assert_wave_succeeded w (summary_of w results)
    return (summary_of w results)

  unfoldable pub execute_wave : WaveDefinition → Option ExecutionResumeOptions → Act WaveSummary
  unfolding run_wave merge_wave
  execute_wave w resume = do summary ← run_wave w resume; merge_wave w; clean_up w; return summary

  -- The guards before a wave is executed: the scheduling of a wave that uses the database, and the
  -- waves that it depends on.
  abbrev pub guard_wave : WaveDefinition → (completed active : List String) → Option ExecutionError
  guard_wave w completed active =
      if uses_branch w && not (can_start_db_relevant_wave true active)
      then some (db_wave_active w.id)
      else if ltb 0 (length (missing_dependencies w completed))
      then some (dependencies_missing w.id (missing_dependencies w completed))
      else none

  abbrev pub check : Option ExecutionError → Act (Unit {0})
  check none s = (ok tt, s)
  check (some e) s = (err e, s)

  abbrev checkpoint : WaveDefinition → Act WaveSummary
  checkpoint w s = (
    split_option (err (missing_checkpoint w.number)) ok (env.read_wave_summary w.number s.outside),
    s,
  )

  -- The loop over the waves, with the ids of the completed ones and of those that use the database
  -- now.
  unfoldable pub run_waves :
      List WaveDefinition
      → Option ExecutionResumeOptions
      → (completed active : List String) → Act (List WaveSummary)
  unfolding execute_wave
  run_waves [] resume completed active = return []
  run_waves (w ∷ ws) resume completed active =
      if is_skipped resume w
      then (do
        summary ← checkpoint w
        rest ← run_waves ws resume (add_to completed w.id) active
        return (summary ∷ rest))
      else (do
        check (guard_wave w completed active)
        summary ← execute_wave w resume
        rest ←
            run_waves ws (next_resume resume w) (add_to completed w.id)
              (if uses_branch w then remove_first w.id (active ++ w.id ∷ []) else active)
        return (summary ∷ rest))

  unfoldable pub execution :
      List WaveDefinition → Option ExecutionResumeOptions → Act (List WaveSummary)
  unfolding run_waves
  execution waves resume = run_waves (sort wave_le waves) resume [] []
