-- ===== src/WaveExecution/Types.antt =====
-- What the execution of a plan calls and keeps, and its pure tests
-- (apps/engine/src/stages/execution/waveExecution.ts).
use beerengineer.Base.{
  ℕ, String, Bool, true, false, not, ◌&&◌, ◌||◌, Option, none, some, List, [], ◌∷◌, map,
}
use beerengineer.Base.Tests.{ltb, leb, ◌==◌, if◌then◌else◌, get_or, split_option}
use beerengineer.Base.Lists.{any, select, length}
use beerengineer.Base.Texts.{eq_text, has}
use beerengineer.Base.Effects.{Effect}
use beerengineer.Plan.{Story, WaveTask, WaveDefinition, is_setup}
use beerengineer.RalphStoryLoop.{StoryStatus, passed, blocked}
use beerengineer.ProjectPipeline.{ExecutionResumeOptions}

-- `WaveSummary`, without its branches and counts.
pub record WaveSummary : Type 0 where
  pub wave_id : String
  pub stories_merged : List String
  pub stories_blocked : List String

pub record StoryResult : Type 0 where
  pub story_id : String
  pub status : StoryStatus

pub data ExecutionError : Type 0 where
  missing_checkpoint : (wave_number : ℕ) → ExecutionError
  db_wave_active : (wave_id : String) → ExecutionError
  dependencies_missing : (wave_id : String) → (missing : List String) → ExecutionError
  stories_blocked : (wave_id : String) → (ids : List String) → ExecutionError
  threw : (message : String) → ExecutionError

-- What the execution calls: `S` is the state of git, files, ports and models. Each call that returns
-- an effect may throw, with its message.
pub record Execution (S : Type 0) : Type 0 where
  pub ensure_wave_branch : WaveDefinition → Effect S String (Unit {0})
  -- The worktree, port and branch of a story.
  pub prepare_story : WaveDefinition → String → Effect S String (Unit {0})
  -- `implementStory`.
  pub implement_story :
      WaveDefinition → String → (rerun_test_writer : Bool) → Effect S String StoryStatus
  pub merge_story_into_wave : WaveDefinition → String → Effect S String (Unit {0})
  pub abandon_story_branch : WaveDefinition → String → Effect S String (Unit {0})
  pub clean_up_story : WaveDefinition → String → S → S
  pub merge_wave_into_project : WaveDefinition → Effect S String (Unit {0})
  pub write_wave_summary : WaveDefinition → WaveSummary → Effect S String (Unit {0})
  pub read_wave_summary : ℕ → S → Option WaveSummary
  -- `writeRecoveryRecord` and the event of a blocked wave.
  pub record_blocked_wave : WaveDefinition → WaveSummary → Effect S String (Unit {0})
  -- `provisionWaveIfDbRelevant`: whether it was provisioned.
  pub provision_wave : WaveDefinition → Effect S String Bool
  -- The records of a wave that was not provisioned.
  pub record_provisioning_blocked : WaveDefinition → Effect S String (Unit {0})
  -- `cleanupSuccessfulBranch`, which does nothing without a branch; what it throws is caught.
  pub clean_up_branch : WaveDefinition → S → S
  pub supabase_hook : Bool
  pub parallel_stories_flag : Bool

-- The outside, and the waves that were merged into the project, the latest last.
pub record Executing (S : Type 0) : Type 0 where
  pub outside : S
  pub merged_waves : List String

abbrev pub rank : WaveDefinition → ℕ
rank w = if is_setup w.kind then 0 else 1

-- Setup waves first, and within a kind by number.
abbrev pub wave_le : WaveDefinition → WaveDefinition → Bool
wave_le a b = ltb (rank a) (rank b) || (rank a == rank b && leb a.number b.number)

abbrev stories_of : WaveDefinition → List Story
stories_of w = get_or w.stories []

abbrev tasks_of : WaveDefinition → List WaveTask
tasks_of w = get_or w.tasks []

abbrev pub wave_entries : WaveDefinition → List String
wave_entries w =
    if is_setup w.kind
    then map (λ (t : WaveTask). t.id) (tasks_of w)
    else map (λ (s : Story). s.id) (stories_of w)

abbrev pub is_db_relevant_wave : WaveDefinition → Bool
is_db_relevant_wave w =
    split_option (any (λ (s : Story). get_or s.db_relevant false) (stories_of w)) (λ b. b)
      w.db_relevant_wave

-- `canStartDbRelevantWave(…).ok`.
abbrev pub can_start_db_relevant_wave : Bool → List String → Bool
can_start_db_relevant_wave db_relevant active =
    if db_relevant then not (ltb 0 (length active)) else true

abbrev pub is_passed : StoryStatus → Bool
is_passed passed = true
is_passed _ = false

abbrev pub is_blocked : StoryStatus → Bool
is_blocked blocked = true
is_blocked _ = false

abbrev pub ids_with : (StoryStatus → Bool) → List StoryResult → List String
ids_with test results = map (λ (r : StoryResult). r.story_id) (select (λ r. test r.status) results)

unfoldable pub summary_of : WaveDefinition → List StoryResult → WaveSummary
summary_of w results = record {
  wave_id = w.id;
  stories_merged = ids_with is_passed results;
  stories_blocked = ids_with is_blocked results;
}

abbrev pub missing_dependencies : WaveDefinition → List String → List String
missing_dependencies w completed =
    select (λ dep. not (has completed dep)) (get_or w.dependencies [])

-- `resume?.waveNumber && wave.number < resume.waveNumber`.
abbrev pub is_skipped : Option ExecutionResumeOptions → WaveDefinition → Bool
is_skipped resume w =
    split_option false
      (λ (r : ExecutionResumeOptions).
        split_option false (λ n. ltb 0 n && ltb w.number n) r.wave_number)
      resume

-- `if (resume?.waveNumber === wave.number) resume = undefined`.
abbrev pub next_resume :
    Option ExecutionResumeOptions → WaveDefinition → Option ExecutionResumeOptions
next_resume resume w =
    split_option none
      (λ (r : ExecutionResumeOptions).
        if split_option false (λ n. n == w.number) r.wave_number then none else some r)
      resume

abbrev pub remove_first : String → List String → List String
remove_first id [] = []
remove_first id (x ∷ xs) = if eq_text x id then xs else x ∷ remove_first id xs
