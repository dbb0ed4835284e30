-- ===== src/WaveCoordinator/Tests.antt =====
-- Two stories, one of which is merged.
use beerengineer.Base.{◌≡◌, List, [], ◌∷◌}
use beerengineer.WaveCoordinator.{should_rebase}
use beerengineer.WaveCoordinator.History.{
  WaveEvent, merged, rebased, after_calls, must_rebase, should_rebase-must_rebase,
}

abbrev history : List WaveEvent
history = merged "a" ∷ rebased "b" ∷ merged "c" ∷ []

should_rebase-must_rebase_example :
    should_rebase (after_calls ("a" ∷ "b" ∷ "c" ∷ []) history) "b"
    ≡ must_rebase ("a" ∷ "b" ∷ "c" ∷ []) history "b"
should_rebase-must_rebase_example = should_rebase-must_rebase ("a" ∷ "b" ∷ "c" ∷ []) history "b"
