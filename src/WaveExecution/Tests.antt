-- ===== src/WaveExecution/Tests.antt =====
-- A plan with a setup wave and two feature waves, whose outside is the log of its merges.
use beerengineer.Base.{ℕ, String, ◌≡◌, refl, true, false, none, some, List, [], ◌∷◌, ◌++◌}
use beerengineer.Base.Tests.{if◌then◌else◌}
use beerengineer.Base.Sorting.{sort}
use beerengineer.Base.Texts.{eq_text, has}
use beerengineer.Base.Lists.{any, select}
use beerengineer.Base.Maps.{add_to}
use beerengineer.Base.Effects.{ok, err, Outcome}
use beerengineer.Plan.{Story, WaveDefinition, WaveKind, setup, feature}
use beerengineer.RalphStoryLoop.{passed, blocked}
use beerengineer.WaveExecution.{execute_wave, execution}
use beerengineer.WaveExecution.Types.{
  stories_blocked, missing_checkpoint, Execution, Executing, wave_le,
}
use beerengineer.WaveExecution.Merges.{Merged, Unblocked, execute_wave-merges}
use beerengineer.WaveExecution.Waves.{Ends, execution-merged_waves}

abbrev env : (bad_story : String) → Execution (List String)
env bad_story = record {
  ensure_wave_branch = λ w log. (ok tt, log);
  prepare_story = λ w id log. (ok tt, log);
  implement_story = λ w id rerun log. (ok (if eq_text id bad_story then blocked else passed), log);
  merge_story_into_wave = λ w id log. (ok tt, log ++ id ∷ []);
  abandon_story_branch = λ w id log. (ok tt, log);
  clean_up_story = λ w id log. log;
  merge_wave_into_project = λ w log. (ok tt, log ++ w.id ∷ []);
  write_wave_summary = λ w summary log. (ok tt, log);
  read_wave_summary = λ n log. none;
  record_blocked_wave = λ w summary log. (ok tt, log ++ "blocked" ∷ []);
  provision_wave = λ w log. (ok true, log);
  record_provisioning_blocked = λ w log. (ok tt, log);
  clean_up_branch = λ w log. log;
  supabase_hook = true;
  parallel_stories_flag = true;
}

abbrev a_story : String → Story
a_story id = record {
  id = id;
  title = id;
  db_relevant = none;
  screen_ids = none;
  shared_files = none;
}

abbrev a_wave : String → ℕ → WaveKind → List String → List Story → WaveDefinition
a_wave id n kind dependencies stories = record {
  id = id;
  number = n;
  goal = "";
  kind = some kind;
  stories = some stories;
  db_relevant_story_count = none;
  db_relevant_wave = none;
  tasks = some (record { id = "T1"; title = "T1" } ∷ []);
  internally_parallelizable = true;
  dependencies = some dependencies;
  exit_criteria = none;
}

abbrev first : WaveDefinition
first = a_wave "W1" 1 feature ("W0" ∷ []) (a_story "S1" ∷ a_story "S2" ∷ [])

abbrev plan : List WaveDefinition
plan =
    a_wave "W2" 2 feature ("W1" ∷ []) (a_story "S3" ∷ []) ∷ first ∷ a_wave "W0" 3 setup [] [] ∷ []

abbrev fresh : Executing (List String)
fresh = record { outside = []; merged_waves = [] }

all_merged : (execution (env "") plan none fresh).1 ≡ record {
  outside = "T1" ∷ "W0" ∷ "S1" ∷ "S2" ∷ "W1" ∷ "S3" ∷ "W2" ∷ [];
  merged_waves = "W0" ∷ "W1" ∷ "W2" ∷ [];
}
unfolding execution sort any select eq_text has add_to
all_merged = refl

-- The stories that passed are in the branch of their wave, which is not merged.
one_blocked : execution (env "S1") plan none fresh ≡ (
  err (stories_blocked "W1" ("S1" ∷ [])),
  record { outside = "T1" ∷ "W0" ∷ "S2" ∷ "blocked" ∷ []; merged_waves = "W0" ∷ [] },
)
unfolding execution sort any select eq_text has add_to
one_blocked = refl

no_checkpoint :
    (execution
      (env "")
      plan
      (some (record { wave_number = some 2; story_id = none; rerun_test_writer = false }))
      fresh).0
    ≡ err (missing_checkpoint 1)
unfolding execution sort any select eq_text has add_to
no_checkpoint = refl

execute_wave-merges_example :
    Outcome
      (λ summary t. Unblocked (env "") first summary × Merged (env "") ("W1" ∷ []) t)
      (Merged (env "") [])
      (execute_wave (env "") first none fresh)
execute_wave-merges_example = execute_wave-merges (env "") first none fresh

execution-merged_waves_example :
    Ends (env "S3") none (sort wave_le plan) [] [] (execution (env "S3") plan none fresh)
execution-merged_waves_example = execution-merged_waves (env "S3") plan none fresh
