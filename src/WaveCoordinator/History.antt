-- ===== src/WaveCoordinator/History.antt =====
-- Which stories must rebase, said by the history of the wave alone
-- (apps/engine/src/stages/execution/waveCoordinator.ts).
use beerengineer.Base.{
  ℕ, String, ◌≡◌, refl, Bool, true, false, not, Option, none, some, List, [], ◌∷◌, arith,
}
use beerengineer.Base.Tests.{ltb, leb, if◌then◌else◌, is_some}
use beerengineer.Base.Texts.{eq_text, eq_text_iff, has}
use beerengineer.Base.Maps.{lookup, lookup-map_set, lookup-map_delete}
use beerengineer.WaveCoordinator.{
  WaveCoordinator, joined, create_wave_coordinator, notify_merged_story, is_abandoned,
  should_rebase, mark_rebased, abandon_story,
}

-- A call that changes the coordinator.
pub data WaveEvent : Type 0 where
  merged rebased : String → WaveEvent
  gave_up : String → (why : String) → WaveEvent

abbrev apply : WaveEvent → WaveCoordinator → WaveCoordinator
apply (merged id) c = notify_merged_story id c
apply (rebased id) c = mark_rebased id c
apply (gave_up id why) c = abandon_story id why c

module _ (initial : List String) where
  -- The coordinator after a history, the latest call first.
  unfoldable pub after_calls : List WaveEvent → WaveCoordinator
  unfolding create_wave_coordinator
  after_calls [] = create_wave_coordinator initial
  after_calls (e ∷ history) = apply e (after_calls history)

  abbrev pub was_abandoned : List WaveEvent → String → Bool
  was_abandoned [] id = false
  was_abandoned (merged k ∷ history) id = was_abandoned history id
  was_abandoned (rebased k ∷ history) id = was_abandoned history id
  was_abandoned (gave_up k why ∷ history) id =
      let earlier = was_abandoned history id in if eq_text k id then true else earlier

  -- A story is in flight from the start or from its last rebase, until it is merged or abandoned.
  abbrev pub in_flight : List WaveEvent → String → Bool
  in_flight [] id = has initial id
  in_flight (merged k ∷ history) id =
      let earlier = in_flight history id in if eq_text k id then false else earlier
  in_flight (rebased k ∷ history) id =
      let earlier = in_flight history id in
      if eq_text k id then not (was_abandoned history id) else earlier
  in_flight (gave_up k why ∷ history) id =
      let earlier = in_flight history id in if eq_text k id then false else earlier

  -- A story in flight must rebase once another has been merged after its last rebase.
  abbrev pub must_rebase : List WaveEvent → String → Bool
  must_rebase [] id = false
  must_rebase (merged k ∷ history) id = in_flight (merged k ∷ history) id
  must_rebase (rebased k ∷ history) id =
      let earlier = must_rebase history id in if eq_text k id then false else earlier
  must_rebase (gave_up k why ∷ history) id =
      let earlier = must_rebase history id in if eq_text k id then false else earlier

  is_abandoned-after :
      (history : List WaveEvent) (id : String)
      → is_abandoned (after_calls history) id ≡ was_abandoned history id
  unfolding after_calls notify_merged_story mark_rebased abandon_story lookup
  is_abandoned-after [] id = refl
  is_abandoned-after (merged k ∷ history) id = is_abandoned-after history id
  is_abandoned-after (rebased k ∷ history) id = ground (arith, is_abandoned-after history id)
  is_abandoned-after (gave_up k why ∷ history) id = ground (
    arith,
    is_abandoned-after history id,
    is_abandoned-after history k,
    eq_text_iff k id,
    lookup-map_set k id why (after_calls history).abandoned,
  )

  lookup-joined :
      (ids : List String) (id : String)
      → lookup id (joined ids) ≡ (if has ids id then some 0 else none)
  unfolding lookup has
  lookup-joined [] id = refl
  lookup-joined (k ∷ ids) id =
      ground (arith, lookup-joined ids id, lookup-map_set k id 0 (joined ids))

  -- No story has seen a generation that is still to come.
  abbrev is_bounded : ℕ → Option ℕ → Bool
  is_bounded g none = true
  is_bounded g (some seen) = leb seen g

  seen_bound :
      (history : List WaveEvent) (id : String)
      → is_bounded (after_calls history).generation (lookup id (after_calls history).last_seen)
        ≡ true
  unfolding after_calls notify_merged_story mark_rebased abandon_story
  seen_bound [] id = ground (arith, lookup-joined initial id)
  seen_bound (merged k ∷ history) id =
      ground (arith, seen_bound history id, lookup-map_delete k id (after_calls history).last_seen)
  seen_bound (rebased k ∷ history) id = ground (
    arith,
    seen_bound history id,
    lookup-map_set k id (after_calls history).generation (after_calls history).last_seen,
  )
  seen_bound (gave_up k why ∷ history) id =
      ground (arith, seen_bound history id, lookup-map_delete k id (after_calls history).last_seen)

  not_in_flight :
      (history : List WaveEvent) (id : String)
      → was_abandoned history id ≡ true
      → in_flight history id ≡ false
  not_in_flight [] id h = ground arith
  not_in_flight (merged k ∷ history) id h = ground (arith, not_in_flight history id)
  not_in_flight (rebased k ∷ history) id h = ground (arith, not_in_flight history id)
  not_in_flight (gave_up k why ∷ history) id h = ground (arith, not_in_flight history id)

  in_flight-last_seen :
      (history : List WaveEvent) (id : String)
      → is_some (lookup id (after_calls history).last_seen) ≡ in_flight history id
  unfolding after_calls notify_merged_story mark_rebased abandon_story
  in_flight-last_seen [] id = ground (arith, lookup-joined initial id)
  in_flight-last_seen (merged k ∷ history) id = ground (
    arith,
    in_flight-last_seen history id,
    lookup-map_delete k id (after_calls history).last_seen,
  )
  in_flight-last_seen (rebased k ∷ history) id = ground (
    arith,
    in_flight-last_seen history id,
    is_abandoned-after history k,
    eq_text_iff k id,
    not_in_flight history id,
    lookup-map_set k id (after_calls history).generation (after_calls history).last_seen,
  )
  in_flight-last_seen (gave_up k why ∷ history) id = ground (
    arith,
    in_flight-last_seen history id,
    is_abandoned-after history k,
    eq_text_iff k id,
    not_in_flight history id,
    lookup-map_delete k id (after_calls history).last_seen,
  )

  -- `should_rebase` without its test for abandoned stories, which are in no map.
  abbrev is_behind : ℕ → Option ℕ → Bool
  is_behind g none = false
  is_behind g (some seen) = ltb seen g

  behind-must_rebase :
      (history : List WaveEvent) (id : String)
      → is_behind (after_calls history).generation (lookup id (after_calls history).last_seen)
        ≡ must_rebase history id
  unfolding after_calls notify_merged_story mark_rebased abandon_story
  behind-must_rebase [] id = ground (arith, lookup-joined initial id)
  behind-must_rebase (merged k ∷ history) id = ground (
    arith,
    in_flight-last_seen history id,
    seen_bound history id,
    lookup-map_delete k id (after_calls history).last_seen,
  )
  behind-must_rebase (rebased k ∷ history) id = ground (
    arith,
    behind-must_rebase history id,
    is_abandoned-after history k,
    eq_text_iff k id,
    in_flight-last_seen history id,
    not_in_flight history id,
    lookup-map_set k id (after_calls history).generation (after_calls history).last_seen,
  )
  behind-must_rebase (gave_up k why ∷ history) id = ground (
    arith,
    behind-must_rebase history id,
    is_abandoned-after history k,
    eq_text_iff k id,
    in_flight-last_seen history id,
    not_in_flight history id,
    lookup-map_delete k id (after_calls history).last_seen,
  )

  -- After any history of calls a story is told to rebase exactly if it is in flight (there from the
  -- start or rebased while not abandoned, and since then neither merged nor abandoned) and another
  -- story has been merged after its last rebase, or after the start if it has never rebased.
  pub should_rebase-must_rebase :
      (history : List WaveEvent) (id : String)
      → should_rebase (after_calls history) id ≡ must_rebase history id
  unfolding should_rebase
  should_rebase-must_rebase history id = ground (
    arith,
    behind-must_rebase history id,
    in_flight-last_seen history id,
    is_abandoned-after history id,
    not_in_flight history id,
  )
