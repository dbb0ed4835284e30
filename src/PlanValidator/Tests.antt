-- ===== src/PlanValidator/Tests.antt =====
-- Runs of the validator, and instances of its theorems.
use mathlib.Core.Option
use Prim.Native.String.{compare}
use text.Mathlib.Text.{is_le}
use beerengineer.Base.{String, ◌≡◌, refl, Bool, true, false, Option, none, some, List, [], ◌∷◌, map}
use beerengineer.Base.Lists.{select, all, any}
use beerengineer.Base.Sorting.{sort}
use beerengineer.Base.Texts.{eq_text, has}
use beerengineer.Base.Maps.{lookup, map_set, add_to}
use beerengineer.Plan.{Story, WaveDefinition, setup, feature}
use beerengineer.PlanValidator.{
  shared_file_overlap, missing_shared_files, enforce_wave_parallelism, enforce_wave,
  find_overlapping_files, WaveSerializationDecision, Cause,
}
use beerengineer.PlanValidator.Separate.{pairwise_separate}
use beerengineer.PlanValidator.Enforce.{
  checked, expected, reported, is_downgraded, enforce_wave_parallelism-checked,
  enforce_wave_parallelism-reported, enforce_wave_parallelism_idempotent,
}

abbrev text_le : String → String → Bool
text_le s t = is_le (compare s t)

abbrev a_story : String → Option (List String) → Story
a_story id files = record {
  id = id;
  title = id;
  db_relevant = none;
  screen_ids = none;
  shared_files = files;
}

abbrev a_wave : String → List Story → WaveDefinition
a_wave id stories = record {
  id = id;
  number = 1;
  goal = "";
  kind = some feature;
  stories = some stories;
  db_relevant_story_count = none;
  db_relevant_wave = none;
  tasks = none;
  internally_parallelizable = true;
  dependencies = none;
  exit_criteria = none;
}

abbrev plan : List WaveDefinition
plan =
    a_wave "W1" (a_story "S1" (some ("b" ∷ "a" ∷ [])) ∷ a_story "S2" (some ("a" ∷ "b" ∷ [])) ∷ [])
    ∷ a_wave "W2" (a_story "S3" (some ("a" ∷ [])) ∷ a_story "S4" (some ("b" ∷ [])) ∷ [])
    ∷ a_wave "W3" (a_story "S5" none ∷ a_story "S6" (some ("b" ∷ [])) ∷ [])
    ∷ record (a_wave "W4" []) { kind = some setup }
    ∷ []

validator : Unit {0}
unfolding enforce_wave_parallelism enforce_wave find_overlapping_files lookup map_set add_to has
    eq_text sort select all any pairwise_separate
validator = tt

flags :
    Option.map
      (map (λ w. w.internally_parallelizable))
      (enforce_wave_parallelism text_le (some plan)).0
    ≡ some (false ∷ true ∷ false ∷ false ∷ [])
unfolding validator
flags = refl

abbrev summary : WaveSerializationDecision → String × List String × Cause
summary d = (d.wave_id, d.overlapping_files, d.cause)

decisions :
    map summary (enforce_wave_parallelism text_le (some plan)).1
    ≡ ("W1", "a" ∷ "b" ∷ [], shared_file_overlap) ∷ ("W3", [], missing_shared_files) ∷ []
unfolding validator
decisions = refl

enforce_wave_parallelism-checked_example :
    (enforce_wave_parallelism text_le (some plan)).0 ≡ Option.map (map checked) (some plan)
enforce_wave_parallelism-checked_example = enforce_wave_parallelism-checked text_le (some plan)

enforce_wave_parallelism-reported_example :
    map reported (enforce_wave_parallelism text_le (some plan)).1
    ≡ map expected (select is_downgraded plan)
enforce_wave_parallelism-reported_example = enforce_wave_parallelism-reported text_le plan

enforce_wave_parallelism_idempotent_example :
    enforce_wave_parallelism text_le (enforce_wave_parallelism text_le (some plan)).0
    ≡ ((enforce_wave_parallelism text_le (some plan)).0, [])
enforce_wave_parallelism_idempotent_example =
    enforce_wave_parallelism_idempotent text_le (some plan)
