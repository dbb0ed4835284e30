-- ===== src/PlanValidator.antt =====
-- The planner's post-validator (apps/engine/src/core/planValidator.ts): a wave that is marked
-- parallel is downgraded unless its stories declare disjoint sets of shared files.
pub mod Overlap
pub mod Separate
pub mod Enforce
mod Tests
use beerengineer.Base.{
  ℕ, zero, suc, ◌+◌, String, Bool, true, false, not, ◌&&◌, ◌||◌, Option, none, some, List, [], ◌∷◌,
  ◌++◌, map,
}
use beerengineer.Base.Tests.{if◌then◌else◌, ltb, get_or}
use beerengineer.Base.Lists.{length}
use beerengineer.Base.Sorting.{sort}
use beerengineer.Base.Texts.{has}
use beerengineer.Base.Maps.{lookup, map_set, add_to}
use beerengineer.Plan.{Story, WaveDefinition, is_setup}

pub data Cause : Type 0 where
  shared_file_overlap missing_shared_files : Cause

pub record WaveSerializationDecision : Type 0 where
  pub wave_number : ℕ
  pub wave_id : String
  pub stories : List String
  pub overlapping_files : List String
  pub cause : Cause

-- `declared.length === 0` or no array at all.
abbrev pub declares : Option (List String) → Bool
declares none = false
declares (some []) = false
declares (some (_ ∷ _)) = true

abbrev pub files_of : Story → List String
files_of s = get_or s.shared_files []

-- The loop of `collectStoryFiles`. A `Set` of texts is the list of its texts, here with repeats.
unfoldable pub collect_from :
    List (String × List String) → Bool → List Story → List (String × List String) × Bool
collect_from files missing [] = (files, missing)
collect_from files missing (s ∷ ss) =
    collect_from (map_set s.id (files_of s) files) (missing || not (declares s.shared_files)) ss

unfoldable pub collect_story_files : List Story → List (String × List String) × Bool
unfolding collect_from
collect_story_files stories = collect_from [] false stories

-- `for (const file of left) if (right.has(file)) overlap.add(file)`.
unfoldable pub add_shared : List String → List String → List String → List String
add_shared [] right overlap = overlap
add_shared (f ∷ left) right overlap =
    add_shared left right (if has right f then add_to overlap f else overlap)

abbrev add_shared_of : Option (List String) → Option (List String) → List String → List String
add_shared_of (some left) (some right) overlap = add_shared left right overlap
add_shared_of _ _ overlap = overlap

unfoldable pub add_story_pair_overlap :
    List (String × List String) → String → String → List String → List String
unfolding add_shared
add_story_pair_overlap files left right overlap =
    add_shared_of (lookup left files) (lookup right files) overlap

-- The inner loop over `j`, and the outer one over `i`.
unfoldable pub overlaps_with :
    List (String × List String) → String → List String → List String → List String
unfolding add_story_pair_overlap
overlaps_with files i [] overlap = overlap
overlaps_with files i (j ∷ js) overlap =
    overlaps_with files i js (add_story_pair_overlap files i j overlap)

unfoldable pub all_overlaps : List (String × List String) → List String → List String → List String
unfolding overlaps_with
all_overlaps files [] overlap = overlap
all_overlaps files (i ∷ is) overlap = all_overlaps files is (overlaps_with files i is overlap)

abbrev story_ids : List Story → List String
story_ids = map (λ s. s.id)

abbrev pub is_empty {ℓ} : {A : Type ℓ} → List A → Bool
is_empty [] = true
is_empty (_ ∷ _) = false

-- `localeCompare` is the order `le` of texts.
module _ (le : String → String → Bool) where
  unfoldable pub overlap_result : List String → List String → Option (List String × List String)
  overlap_result ids overlap = if is_empty overlap then none else some (ids, sort le overlap)

  unfoldable pub find_overlapping_files : WaveDefinition → Option (List String × List String)
  unfolding collect_story_files all_overlaps overlap_result
  find_overlapping_files wave =
      let stories = get_or wave.stories [] in
      let ids = story_ids stories in
      let (files, missing) = collect_story_files stories in
      if is_setup wave.kind || ltb (length stories) 2
      then none
      else if missing
      then some (ids, [])
      else overlap_result ids (all_overlaps files ids [])

  abbrev pub serialize : WaveDefinition → WaveDefinition
  serialize wave = record wave { internally_parallelizable = false }

  abbrev pub decision : WaveDefinition → List String × List String → WaveSerializationDecision
  decision wave (ids, overlap) = record {
    wave_number = wave.number;
    wave_id = wave.id;
    stories = ids;
    overlapping_files = overlap;
    cause = if is_empty overlap then missing_shared_files else shared_file_overlap;
  }

  abbrev pub downgrade :
      WaveDefinition
      → Option (List String × List String)
      → WaveDefinition × List WaveSerializationDecision
  downgrade wave none = (wave, [])
  downgrade wave (some found) = (serialize wave, decision wave found ∷ [])

  -- One round of the loop: the wave as it is left, and the decision that is pushed and emitted.
  unfoldable pub enforce_wave : WaveDefinition → WaveDefinition × List WaveSerializationDecision
  enforce_wave wave =
      if wave.internally_parallelizable
      then if is_setup wave.kind
        then (serialize wave, [])
        else downgrade wave (find_overlapping_files wave)
      else (wave, [])

  unfoldable pub enforce_waves :
      List WaveDefinition → List WaveDefinition × List WaveSerializationDecision
  enforce_waves [] = ([], [])
  enforce_waves (wave ∷ waves) =
      let (wave', decided) = enforce_wave wave in
      let (waves', decisions) = enforce_waves waves in (wave' ∷ waves', decided ++ decisions)

  -- A plan with no array of waves is left alone.
  unfoldable pub enforce_wave_parallelism :
      Option (List WaveDefinition) → Option (List WaveDefinition) × List WaveSerializationDecision
  unfolding enforce_waves
  enforce_wave_parallelism none = (none, [])
  enforce_wave_parallelism (some waves) =
      let (waves', decisions) = enforce_waves waves in (some waves', decisions)
