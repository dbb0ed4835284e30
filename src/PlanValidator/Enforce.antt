-- ===== src/PlanValidator/Enforce.antt =====
-- What the validator does to a plan, against the description of `can_run_parallel`.
use mathlib.Core.List.{map-append}
use mathlib.Core.Option
use beerengineer.Base.{
  String, ◌≡◌, refl, ◌∙◌, ap, Bool, true, false, not, ◌&&◌, Option, none, some, List, [], ◌∷◌, map,
  arith, inl, inr,
}
use beerengineer.Base.Tests.{if◌then◌else◌, get_or, is_none, Bool-cases, Option-cases}
use beerengineer.Base.Lists.{select}
use beerengineer.Base.Sorting.{sort, insert}
use beerengineer.Plan.{WaveDefinition, is_setup}
use beerengineer.PlanValidator.{
  Cause, shared_file_overlap, missing_shared_files, WaveSerializationDecision, story_ids, is_empty,
  collect_story_files, find_overlapping_files, enforce_wave, enforce_waves,
  enforce_wave_parallelism, all_overlaps,
}
use beerengineer.PlanValidator.Overlap.{all_declare, collect_from-missing}
use beerengineer.PlanValidator.Separate.{can_run_parallel, find_overlapping_files-can_run_parallel}

-- The flag that a wave should have.
abbrev pub may_fan_out : WaveDefinition → Bool
may_fan_out w =
    w.internally_parallelizable && not (is_setup w.kind) && can_run_parallel (get_or w.stories [])

abbrev pub checked : WaveDefinition → WaveDefinition
checked w = record w { internally_parallelizable = may_fan_out w }

-- A feature wave that was marked parallel and may not be.
abbrev pub is_downgraded : WaveDefinition → Bool
is_downgraded w =
    w.internally_parallelizable
    && not (is_setup w.kind)
    && not (can_run_parallel (get_or w.stories []))

abbrev pub cause_of : WaveDefinition → Cause
cause_of w = if all_declare (get_or w.stories []) then shared_file_overlap else missing_shared_files

abbrev pub expected : WaveDefinition → String × List String × Cause
expected w = (w.id, story_ids (get_or w.stories []), cause_of w)

abbrev pub reported : WaveSerializationDecision → String × List String × Cause
reported d = (d.wave_id, d.stories, d.cause)

eq_none {ℓ} : {A : Type ℓ} (o : Option A) → is_none o ≡ true → o ≡ none
eq_none none h = refl
eq_none (some a) h = cc

module _ (le : String → String → Bool) where
  is_empty-insert : (x : String) (xs : List String) → is_empty (insert le x xs) ≡ false
  unfolding insert
  is_empty-insert x [] = refl
  is_empty-insert x (y ∷ ys) = ground arith

  is_empty-sort : (xs : List String) → is_empty (sort le xs) ≡ is_empty xs
  unfolding sort
  is_empty-sort [] = refl
  is_empty-sort (x ∷ xs) = is_empty-insert x (sort le xs)

  pub enforce_wave-checked : (w : WaveDefinition) → (enforce_wave le w).0 ≡ checked w
  unfolding enforce_wave
  enforce_wave-checked w = elim (Bool-cases (is_setup w.kind)) [
    | inl s ↦ ground (arith, s)
    | inr f ↦ ground (arith, f, find_overlapping_files-can_run_parallel le w f)
  ]

  -- What is found names the stories, and its list of files is empty when some story declares none.
  found_shape :
      (w : WaveDefinition) (ids overlap : List String)
      → find_overlapping_files le w ≡ some (ids, overlap)
      → (ids ≡ story_ids (get_or w.stories []))
        × (is_empty overlap ≡ not (all_declare (get_or w.stories [])))
  unfolding find_overlapping_files collect_story_files
  found_shape w ids overlap h = ground (
    arith,
    collect_from-missing [] false (get_or w.stories []),
    is_empty-sort (
        all_overlaps (collect_story_files (get_or w.stories [])).0 (story_ids (get_or w.stories []))
          []),
  )

  enforce_wave-reported :
      (w : WaveDefinition)
      → map reported (enforce_wave le w).1 ≡ (if is_downgraded w then expected w ∷ [] else [])
  unfolding enforce_wave
  enforce_wave-reported w = elim (Bool-cases (is_setup w.kind)) [
    | inl s ↦ ground (arith, s)
    | inr f ↦ elim (Option-cases (find_overlapping_files le w)) [
      | inl e ↦ ground (arith, f, e, find_overlapping_files-can_run_parallel le w f)
      | inr (p, e) ↦
          ground
            (arith, f, e, found_shape w p.0 p.1 e, find_overlapping_files-can_run_parallel le w f)
    ]
  ]

  enforce_waves-checked : (ws : List WaveDefinition) → (enforce_waves le ws).0 ≡ map checked ws
  unfolding enforce_waves
  enforce_waves-checked [] = refl
  enforce_waves-checked (w ∷ ws) = cc (enforce_wave-checked w, enforce_waves-checked ws)

  enforce_waves-reported :
      (ws : List WaveDefinition)
      → map reported (enforce_waves le ws).1 ≡ map expected (select is_downgraded ws)
  unfolding enforce_waves select
  enforce_waves-reported [] = refl
  enforce_waves-reported (w ∷ ws) =
      map-append reported (enforce_wave le w).1 (enforce_waves le ws).1
      ∙ ground (arith, enforce_wave-reported w, enforce_waves-reported ws)

  -- The validator leaves a wave marked parallel exactly when it was marked so, is no setup wave, and
  -- its stories can run in parallel; every other field of every wave stays as it was.
  pub enforce_wave_parallelism-checked :
      (waves : Option (List WaveDefinition))
      → (enforce_wave_parallelism le waves).0 ≡ Option.map (map checked) waves
  unfolding enforce_wave_parallelism
  enforce_wave_parallelism-checked none = refl
  enforce_wave_parallelism-checked (some ws) = ap some (enforce_waves-checked ws)

  -- There is one decision for each feature wave that is downgraded, in plan order. It names the wave
  -- and all of its stories, and its cause is an overlap exactly when every story declares files.
  pub enforce_wave_parallelism-reported :
      (ws : List WaveDefinition)
      → map reported (enforce_wave_parallelism le (some ws)).1
        ≡ map expected (select is_downgraded ws)
  unfolding enforce_wave_parallelism
  enforce_wave_parallelism-reported ws = enforce_waves-reported ws

  again : (w : WaveDefinition) → enforce_wave le (checked w) ≡ (checked w, [])
  unfolding enforce_wave
  again w = elim (Bool-cases (is_setup w.kind)) [
    | inl s ↦ ground (arith, s)
    | inr f ↦ ground (
      arith,
      f,
      find_overlapping_files-can_run_parallel le (checked w) f,
      eq_none (find_overlapping_files le (checked w)),
    )
  ]

  waves_again :
      (ws : List WaveDefinition) → enforce_waves le (map checked ws) ≡ (map checked ws, [])
  unfolding enforce_waves
  waves_again [] = refl
  waves_again (w ∷ ws) = cc (again w, waves_again ws)

  plan_again :
      (waves : Option (List WaveDefinition))
      → enforce_wave_parallelism le (Option.map (map checked) waves)
        ≡ (Option.map (map checked) waves, [])
  unfolding enforce_wave_parallelism
  plan_again none = refl
  plan_again (some ws) = cc (waves_again ws)

  -- A second pass over its own result decides nothing and changes nothing.
  pub enforce_wave_parallelism_idempotent :
      (waves : Option (List WaveDefinition))
      → let once = (enforce_wave_parallelism le waves).0 in
        enforce_wave_parallelism le once ≡ (once, [])
  enforce_wave_parallelism_idempotent waves =
      rw (enforce_wave_parallelism-checked waves) (plan_again waves)
