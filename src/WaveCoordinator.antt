-- ===== src/WaveCoordinator.antt =====
-- The generations of a wave whose stories run in parallel
-- (apps/engine/src/stages/execution/waveCoordinator.ts).
use beerengineer.Base.{
  ℕ, zero, suc, String, Bool, true, false, not, ◌&&◌, Option, none, some, List, [], ◌∷◌, ◌++◌,
}
use beerengineer.Base.Tests.{ltb, if◌then◌else◌, is_some, split_option}
use beerengineer.Base.Texts.{eq_text, has}
use beerengineer.Base.Maps.{lookup, map_set, map_delete}
pub mod History
mod Tests

pub record WaveCoordinatorAbandonment : Type 0 where
  pub story_id : String
  pub reason : String

-- The coordinator's variables; `abandoned` is the map's keys in `abandon_order`.
pub record WaveCoordinator : Type 0 where
  pub generation : ℕ
  pub last_seen : List (String × ℕ)
  pub abandoned : List (String × String)
  pub abandon_order : List WaveCoordinatorAbandonment

abbrev pub joined : List String → List (String × ℕ)
joined [] = []
joined (id ∷ ids) = map_set id 0 (joined ids)

unfoldable pub create_wave_coordinator : List String → WaveCoordinator
create_wave_coordinator ids = record {
  generation = 0;
  last_seen = joined ids;
  abandoned = [];
  abandon_order = [];
}

unfoldable pub notify_merged_story : String → WaveCoordinator → WaveCoordinator
notify_merged_story id c = record c {
  generation = suc c.generation;
  last_seen = map_delete id c.last_seen;
}

abbrev pub is_abandoned : WaveCoordinator → String → Bool
is_abandoned c id = is_some (lookup id c.abandoned)

unfoldable pub should_rebase : WaveCoordinator → String → Bool
should_rebase c id =
    if is_abandoned c id
    then false
    else split_option false (λ seen. ltb seen c.generation) (lookup id c.last_seen)

unfoldable pub mark_rebased : String → WaveCoordinator → WaveCoordinator
mark_rebased id c =
    if is_abandoned c id then c else record c { last_seen = map_set id c.generation c.last_seen }

unfoldable pub abandon_story : String → String → WaveCoordinator → WaveCoordinator
abandon_story id why c = if is_abandoned c id then c else record c {
  abandoned = map_set id why c.abandoned;
  abandon_order = c.abandon_order ++ record { story_id = id; reason = why } ∷ [];
  last_seen = map_delete id c.last_seen;
}
