-- ===== src/ScreenOwners/Tests.antt =====
-- Two waves whose stories share a screen.
use beerengineer.Base.{String, ◌≡◌, refl, true, none, some, List, [], ◌∷◌}
use beerengineer.Base.Tests.{if◌then◌else◌}
use beerengineer.Base.Texts.{eq_text, has}
use beerengineer.Base.Maps.{lookup, map_set}
use beerengineer.Plan.{Story, WaveDefinition, WaveKind, setup, feature}
use beerengineer.ScreenOwners.{owner_of, may_own, compute_screen_owners}
use beerengineer.ScreenOwners.First.{claims_of, first_claim, compute_screen_owners-first_claim}

abbrev a_story : String → List String → Story
a_story id screens = record {
  id = id;
  title = id;
  db_relevant = none;
  screen_ids = some screens;
  shared_files = none;
}

abbrev a_wave : WaveKind → List Story → WaveDefinition
a_wave kind stories = record {
  id = "W";
  number = 1;
  goal = "";
  kind = some kind;
  stories = some stories;
  db_relevant_story_count = none;
  db_relevant_wave = none;
  tasks = none;
  internally_parallelizable = true;
  dependencies = none;
  exit_criteria = none;
}

abbrev waves : List WaveDefinition
waves =
    a_wave setup (a_story "S0" ("home" ∷ []) ∷ [])
    ∷ a_wave feature (a_story "S1" ("home" ∷ "draft" ∷ []) ∷ [])
    ∷ a_wave feature (a_story "S2" ("home" ∷ "help" ∷ []) ∷ [])
    ∷ []

-- The setup wave owns no screen, and a screen without a wireframe has no owner.
owners :
    compute_screen_owners waves (some ("home" ∷ "help" ∷ [])) ≡ ("home", "S1") ∷ ("help", "S2") ∷ []
unfolding compute_screen_owners lookup map_set eq_text has
owners = refl

-- A screen with the name of a property that every object inherits gets no owner.
no_owner_of_constructor :
    compute_screen_owners
      (a_wave feature (a_story "S1" ("constructor" ∷ []) ∷ []) ∷ [])
      (some ("constructor" ∷ []))
    ≡ []
unfolding compute_screen_owners lookup map_set eq_text has
no_owner_of_constructor = refl

compute_screen_owners-first_claim_example :
    owner_of "home" (compute_screen_owners waves (some ("home" ∷ "help" ∷ [])))
    ≡ (if may_own ("home" ∷ "help" ∷ []) "home" then first_claim "home" (claims_of waves) else "")
compute_screen_owners-first_claim_example =
    compute_screen_owners-first_claim waves ("home" ∷ "help" ∷ []) "home"
