-- ===== src/ScreenOwners/First.antt =====
-- The claims of screens in the order of the plan, and the owners (`computeScreenOwners`).
use beerengineer.Base.{
  subst, inl, inr, String, ◌≡◌, refl, sym, ◌∙◌, ap, Bool, true, false, not, ◌&&◌, ◌||◌, some, List,
  [], ◌∷◌, ◌++◌, map, arith,
}
use beerengineer.Base.Tests.{if◌then◌else◌, if_ind, get_or}
use beerengineer.Base.Texts.{eq_text, eq_text_iff, eq_text_self, text_cases, has}
use beerengineer.Base.Maps.{lookup, map_set, lookup-map_set}
use beerengineer.Plan.{Story, WaveDefinition, is_setup}
use beerengineer.ScreenOwners.{
  ScreenOwnerMap, owner_of, may_own, claim_screen, claim_screens, claim_stories, claim_waves,
  compute_screen_owners,
}

-- Which screens the stories of the feature waves name, in the order of the plan.
abbrev pub claims_of_story : Story → List (String × String)
claims_of_story story = map (λ screen. (screen, story.id)) (get_or story.screen_ids [])

unfoldable pub claims_of_stories : List Story → List (String × String)
claims_of_stories [] = []
claims_of_stories (s ∷ ss) = claims_of_story s ++ claims_of_stories ss

unfoldable pub claims_of : List WaveDefinition → List (String × String)
claims_of [] = []
claims_of (w ∷ ws) =
    (if is_setup w.kind then [] else claims_of_stories (get_or w.stories [])) ++ claims_of ws

-- The first story with an id that names the screen, or "".
unfoldable pub first_claim : String → List (String × String) → String
first_claim screen [] = ""
first_claim screen ((x, story) ∷ claims) =
    if eq_text x screen && not (eq_text story "") then story else first_claim screen claims

claim_all : (valid : List String) → List (String × String) → ScreenOwnerMap → ScreenOwnerMap
claim_all valid [] owners = owners
claim_all valid (c ∷ cs) owners = claim_all valid cs (claim_screen valid c owners)

claim_all-append :
    (valid : List String) (cs ds : List (String × String)) (owners : ScreenOwnerMap)
    → claim_all valid (cs ++ ds) owners ≡ claim_all valid ds (claim_all valid cs owners)
unfolding claim_all
claim_all-append valid [] ds owners = refl
claim_all-append valid (c ∷ cs) ds owners =
    claim_all-append valid cs ds (claim_screen valid c owners)

claim_screens-all :
    (valid : List String) (story : String) (screens : List String) (owners : ScreenOwnerMap)
    → claim_screens valid story screens owners
      ≡ claim_all valid (map (λ screen. (screen, story)) screens) owners
unfolding claim_all claim_screens
claim_screens-all valid story [] owners = refl
claim_screens-all valid story (s ∷ ss) owners =
    claim_screens-all valid story ss (claim_screen valid (s, story) owners)

claim_stories-all :
    (valid : List String) (stories : List Story) (owners : ScreenOwnerMap)
    → claim_stories valid stories owners ≡ claim_all valid (claims_of_stories stories) owners
unfolding claim_all claim_stories claims_of_stories
claim_stories-all valid [] owners = refl
claim_stories-all valid (s ∷ ss) owners =
    claim_stories-all valid ss _
    ∙ ap (claim_all valid (claims_of_stories ss))
        (claim_screens-all valid s.id (get_or s.screen_ids []) owners)
    ∙ sym (claim_all-append valid (claims_of_story s) (claims_of_stories ss) owners)

claim_waves-all :
    (valid : List String) (ws : List WaveDefinition) (owners : ScreenOwnerMap)
    → claim_waves valid ws owners ≡ claim_all valid (claims_of ws) owners
unfolding claim_all claim_waves claims_of
claim_waves-all valid [] owners = refl
claim_waves-all valid (w ∷ ws) owners =
    claim_waves-all valid ws _
    ∙ ap (claim_all valid (claims_of ws)) (wave (is_setup w.kind))
    ∙ sym (
        claim_all-append valid
          (if is_setup w.kind then [] else claims_of_stories (get_or w.stories [])) (claims_of ws)
          owners)
  where
    wave :
        (b : Bool)
        → (if b then owners else claim_stories valid (get_or w.stories []) owners)
          ≡ claim_all valid (if b then [] else claims_of_stories (get_or w.stories [])) owners
    wave true = refl
    wave false = claim_stories-all valid (get_or w.stories []) owners

owner_of-map_set :
    (x screen story : String) (owners : ScreenOwnerMap)
    → owner_of screen (map_set x story owners)
      ≡ (if eq_text x screen then story else owner_of screen owners)
owner_of-map_set x screen story owners =
    ap (λ o. get_or o "") (lookup-map_set x screen story owners) ∙ push (eq_text x screen)
  where
    push :
        (b : Bool)
        → get_or (if b then some story else lookup screen owners) ""
          ≡ (if b then story else owner_of screen owners)
    push true = refl
    push false = refl

-- A claim changes the owner of its screen alone, where it has none.
claim_screen-owner :
    (valid : List String) (x story : String) (owners : ScreenOwnerMap) (screen : String)
    → owner_of screen (claim_screen valid (x, story) owners) ≡ (
        if eq_text x screen && may_own valid screen && eq_text (owner_of screen owners) ""
        then story
        else owner_of screen owners)
unfolding claim_screen
claim_screen-owner valid x story owners screen = elim (text_cases x screen) [
  | inl e ↦ subst Changed (sym e) same
  | inr ne ↦
      if_ind
        (λ m. owner_of screen m ≡ (
          if eq_text x screen && may_own valid screen && eq_text (owner_of screen owners) ""
          then story
          else owner_of screen owners))
        (not (may_own valid x) || not (eq_text (owner_of x owners) "")) (λ _. rw ne refl)
        (λ _. owner_of-map_set x screen story owners ∙ rw ne refl)
]
  where
    Changed : String → Type 0
    Changed y = owner_of screen (claim_screen valid (y, story) owners) ≡ (
        if eq_text y screen && may_own valid screen && eq_text (owner_of screen owners) ""
        then story
        else owner_of screen owners)

    same : Changed screen
    same =
        if_ind
          (λ m. owner_of screen m ≡ (
            if eq_text screen screen && may_own valid screen && eq_text (owner_of screen owners) ""
            then story
            else owner_of screen owners))
          (not (may_own valid screen) || not (eq_text (owner_of screen owners) ""))
          (λ h. ground (arith, h))
          (λ h. owner_of-map_set screen screen story owners ∙ ground (arith, h))

-- The owner after the claims: the one before, or the first to claim.
claim_all-owner :
    (valid : List String) (cs : List (String × String)) (owners : ScreenOwnerMap) (screen : String)
    → owner_of screen (claim_all valid cs owners) ≡ (
        if eq_text (owner_of screen owners) "" && may_own valid screen
        then first_claim screen cs
        else owner_of screen owners)
unfolding claim_all first_claim claim_screen
claim_all-owner valid [] owners screen = ground (arith, eq_text_iff (owner_of screen owners) "")
claim_all-owner valid ((x, story) ∷ cs) owners screen = ground (
  arith,
  claim_all-owner valid cs (claim_screen valid (x, story) owners) screen,
  claim_screen-owner valid x story owners screen,
  eq_text_iff story "",
)

no_owner : (screen : String) → owner_of screen [] ≡ ""
unfolding lookup
no_owner screen = refl

no_screens :
    (screen : String) (claims : List (String × String))
    → owner_of screen [] ≡ (if may_own [] screen then first_claim screen claims else "")
unfolding lookup has
no_screens screen claims = refl

-- The owner of a screen of the wireframes is the first story with an id, in the order of the plan's
-- feature waves, that names the screen, unless the screen has the name of a property that every object
-- inherits. Such a screen, and one that is in no wireframe, has no owner.
pub compute_screen_owners-first_claim :
    (waves : List WaveDefinition) (screens : List String) (screen : String)
    → owner_of screen (compute_screen_owners waves (some screens))
      ≡ (if may_own screens screen then first_claim screen (claims_of waves) else "")
unfolding compute_screen_owners
compute_screen_owners-first_claim waves [] screen = no_screens screen (claims_of waves)
compute_screen_owners-first_claim waves (s ∷ ss) screen =
    ap (owner_of screen) (claim_waves-all (s ∷ ss) waves [])
    ∙ claim_all-owner (s ∷ ss) (claims_of waves) [] screen
    ∙ rw (no_owner screen, eq_text_self "") refl
