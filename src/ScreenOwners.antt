-- ===== src/ScreenOwners.antt =====
-- Which story owns a screen (apps/engine/src/core/screenOwners.ts). The owners are an object, which
-- inherits the properties of `Object.prototype`: these stand for no story, but are not empty either.
use beerengineer.Base.{
  String, Bool, true, false, not, ◌&&◌, ◌||◌, Option, none, some, List, [], ◌∷◌, ◌++◌, map,
}
use beerengineer.Base.Tests.{if◌then◌else◌, get_or}
use beerengineer.Base.Texts.{eq_text, has}
use beerengineer.Base.Maps.{lookup, map_set}
use beerengineer.Plan.{Story, WaveDefinition, is_setup}
pub mod First
mod Tests

abbrev pub ScreenOwnerMap : Type 0
ScreenOwnerMap = List (String × String)

-- The properties of `Object.prototype`, which every object inherits.
abbrev pub inherited_properties : List String
inherited_properties =
    "constructor" ∷ "__defineGetter__" ∷ "__defineSetter__" ∷ "hasOwnProperty" ∷ "__lookupGetter__"
    ∷ "__lookupSetter__" ∷ "isPrototypeOf" ∷ "propertyIsEnumerable" ∷ "toString" ∷ "valueOf"
    ∷ "__proto__" ∷ "toLocaleString" ∷ []

-- The screen may enter the owners: it is one of the wireframes, and no inherited property hides it.
abbrev pub may_own : (valid : List String) → String → Bool
may_own valid screen = has valid screen && not (has inherited_properties screen)

-- The story that `owners` itself has for the screen, where "" stands for none.
abbrev pub owner_of : String → ScreenOwnerMap → String
owner_of screen owners = get_or (lookup screen owners) ""

-- The body of the innermost loop.
unfoldable pub claim_screen :
    (valid : List String) → String × String → ScreenOwnerMap → ScreenOwnerMap
claim_screen valid (screen, story) owners =
    if not (may_own valid screen) || not (eq_text (owner_of screen owners) "")
    then owners
    else map_set screen story owners

unfoldable pub claim_screens :
    (valid : List String) → (story : String) → List String → ScreenOwnerMap → ScreenOwnerMap
unfolding claim_screen
claim_screens valid story [] owners = owners
claim_screens valid story (screen ∷ screens) owners =
    claim_screens valid story screens (claim_screen valid (screen, story) owners)

unfoldable pub claim_stories : (valid : List String) → List Story → ScreenOwnerMap → ScreenOwnerMap
unfolding claim_screens
claim_stories valid [] owners = owners
claim_stories valid (story ∷ stories) owners =
    claim_stories valid stories (claim_screens valid story.id (get_or story.screen_ids []) owners)

unfoldable pub claim_waves :
    (valid : List String) → List WaveDefinition → ScreenOwnerMap → ScreenOwnerMap
unfolding claim_stories
claim_waves valid [] owners = owners
claim_waves valid (w ∷ ws) owners =
    claim_waves valid ws
      (if is_setup w.kind then owners else claim_stories valid (get_or w.stories []) owners)

-- With the ids of the screens of the wireframes.
unfoldable pub compute_screen_owners :
    List WaveDefinition → (wireframes : Option (List String)) → ScreenOwnerMap
unfolding claim_waves
compute_screen_owners waves none = []
compute_screen_owners waves (some []) = []
compute_screen_owners waves (some (s ∷ ss)) = claim_waves (s ∷ ss) waves []
