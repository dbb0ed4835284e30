-- ===== src/PlanValidator/Overlap.antt =====
-- When the validator finds an overlap: an independent description by pairs of stories.
use beerengineer.Base.{
  String, ◌≡◌, refl, Bool, true, false, not, ◌&&◌, ◌||◌, Option, none, some, List, [], ◌∷◌, arith,
}
use beerengineer.Base.Tests.{if◌then◌else◌}
use beerengineer.Base.Lists.{any, all}
use beerengineer.Base.Texts.{eq_text, has}
use beerengineer.Base.Maps.{lookup, map_set, lookup-map_set, add_to}
use beerengineer.Plan.{Story}
use beerengineer.PlanValidator.{
  declares, files_of, collect_from, add_shared, add_shared_of, add_story_pair_overlap,
  overlaps_with, all_overlaps, is_empty,
}

abbrev pub shares : List String → List String → Bool
shares left right = any (has right) left

is_empty-add_to : (s : List String) (x : String) → is_empty (add_to s x) ≡ false
unfolding add_to has
is_empty-add_to [] x = refl
is_empty-add_to (y ∷ ys) x = ground arith

is_empty-add_shared :
    (left right acc : List String)
    → is_empty (add_shared left right acc) ≡ (is_empty acc && not (shares left right))
unfolding add_shared any
is_empty-add_shared [] right acc = ground arith
is_empty-add_shared (f ∷ left) right acc = ground (
  arith,
  is_empty-add_to acc f,
  is_empty-add_shared left right acc,
  is_empty-add_shared left right (add_to acc f),
)

abbrev pub shares_of : Option (List String) → Option (List String) → Bool
shares_of (some left) (some right) = shares left right
shares_of _ _ = false

is_empty-add_shared_of :
    (left right : Option (List String)) (acc : List String)
    → is_empty (add_shared_of left right acc) ≡ (is_empty acc && not (shares_of left right))
is_empty-add_shared_of (some left) (some right) acc = is_empty-add_shared left right acc
is_empty-add_shared_of (some left) none acc = ground arith
is_empty-add_shared_of none right acc = ground arith

module _ (files : List (String × List String)) where
  abbrev pub pair_shares : String → String → Bool
  pair_shares i j = shares_of (lookup i files) (lookup j files)

  unfoldable pub unshared_with : String → List String → Bool
  unshared_with i [] = true
  unshared_with i (j ∷ js) = not (pair_shares i j) && unshared_with i js

  unfoldable pub unshared : List String → Bool
  unfolding unshared_with
  unshared [] = true
  unshared (i ∷ is) = unshared_with i is && unshared is

  is_empty-overlaps_with :
      (i : String) (js acc : List String)
      → is_empty (overlaps_with files i js acc) ≡ (is_empty acc && unshared_with i js)
  unfolding overlaps_with unshared_with
  is_empty-overlaps_with i [] acc = ground arith
  is_empty-overlaps_with i (j ∷ js) acc = ground (
    arith,
    is_empty-overlaps_with i js (add_story_pair_overlap files i j acc),
    is_empty-add_shared_of (lookup i files) (lookup j files) acc,
  )

  pub is_empty-all_overlaps :
      (ids acc : List String)
      → is_empty (all_overlaps files ids acc) ≡ (is_empty acc && unshared ids)
  unfolding unshared all_overlaps
  is_empty-all_overlaps [] acc = ground arith
  is_empty-all_overlaps (i ∷ is) acc = ground (
    arith,
    is_empty-all_overlaps is (overlaps_with files i is acc),
    is_empty-overlaps_with i is acc,
  )

-- The files of the last story with an id.
unfoldable pub last_files : String → List Story → Option (List String)
last_files k [] = none
last_files k (s ∷ ss) = elim (last_files k ss) [
  | some fs ↦ some fs
  | none ↦ if eq_text s.id k then some (files_of s) else none
]

abbrev pub or_else : Option (List String) → Option (List String) → Option (List String)
or_else none o = o
or_else (some fs) o = some fs

pub lookup-collect_from :
    (k : String) (files : List (String × List String)) (missing : Bool) (ss : List Story)
    → lookup k (collect_from files missing ss).0 ≡ or_else (last_files k ss) (lookup k files)
unfolding collect_from last_files
lookup-collect_from k files missing [] = refl
lookup-collect_from k files missing (s ∷ ss) = ground (
  arith,
  lookup-map_set s.id k (files_of s) files,
  lookup-collect_from k (map_set s.id (files_of s) files) (missing || not (declares s.shared_files))
      ss,
)

abbrev pub all_declare : List Story → Bool
all_declare ss = all (λ s. declares s.shared_files) ss

pub collect_from-missing :
    (files : List (String × List String)) (missing : Bool) (ss : List Story)
    → (collect_from files missing ss).1 ≡ (missing || not (all_declare ss))
unfolding collect_from all
collect_from-missing files missing [] = ground arith
collect_from-missing files missing (s ∷ ss) = ground (
  arith,
  collect_from-missing (map_set s.id (files_of s) files) (missing || not (declares s.shared_files))
      ss,
)
