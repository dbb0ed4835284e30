-- ===== src/PlanValidator/Separate.antt =====
-- Stories that can run in parallel, described by their pairs, and the loop of the validator.
use beerengineer.Base.{
  String, ◌≡◌, refl, sym, ◌∙◌, Bool, true, false, not, ◌&&◌, ◌||◌, Option, none, some, List, [],
  ◌∷◌, arith, inl, inr,
}
use beerengineer.Base.Tests.{ltb, get_or, is_none, is_some, Bool-cases}
use beerengineer.Base.Lists.{length, any, all, All}
use beerengineer.Base.Texts.{eq_text, eq_text_iff, eq_text_self, has}
use beerengineer.Base.Maps.{lookup}
use beerengineer.Plan.{Story, WaveDefinition, is_setup}
use beerengineer.PlanValidator.{
  declares, files_of, collect_story_files, story_ids, find_overlapping_files,
}
use beerengineer.PlanValidator.Overlap.{
  shares, shares_of, unshared_with, unshared, last_files, lookup-collect_from, collect_from-missing,
  all_declare, is_empty-all_overlaps,
}

-- Two stories are separate when they have different ids and share no declared file.
abbrev pub separate : Story → Story → Bool
separate s t = not (eq_text s.id t.id) && not (shares (files_of s) (files_of t))

unfoldable pub separate_from : Story → List Story → Bool
separate_from s [] = true
separate_from s (t ∷ ts) = separate s t && separate_from s ts

unfoldable pub pairwise_separate : List Story → Bool
unfolding separate_from
pairwise_separate [] = true
pairwise_separate (s ∷ ss) = separate_from s ss && pairwise_separate ss

names : String → List Story → Bool
names k [] = false
names k (t ∷ ts) = eq_text k t.id || names k ts

distinct : List Story → Bool
unfolding names
distinct [] = true
distinct (s ∷ ss) = not (names s.id ss) && distinct ss

module _ (m : List (String × List String)) where
  abbrev Own : Story → Type 0
  Own s = lookup s.id m ≡ some (files_of s)

  unshared_with-separate_from :
      (s : Story) (ts : List Story)
      → Own s
      → All Own ts
      → names s.id ts ≡ false
      → unshared_with m s.id (story_ids ts) ≡ separate_from s ts
  unfolding unshared_with separate_from names
  unshared_with-separate_from s [] own owns h = refl
  unshared_with-separate_from s (t ∷ ts) own (o, os) h =
      ground (arith, unshared_with-separate_from s ts own os, own, o)

  -- With distinct ids, every story is looked up with its own files.
  unshared-pairwise_separate :
      (ss : List Story)
      → All Own ss
      → distinct ss ≡ true
      → unshared m (story_ids ss) ≡ pairwise_separate ss
  unfolding unshared pairwise_separate distinct
  unshared-pairwise_separate [] owns h = refl
  unshared-pairwise_separate (s ∷ ss) (o, os) h =
      ground (arith, unshared_with-separate_from s ss o os, unshared-pairwise_separate ss os)

  -- Some files are found for the id.
  abbrev Found : Story → Type 0
  Found s = (f : String) × (fs : List String) × (lookup s.id m ≡ some (f ∷ fs))

  shares_self : (s : Story) → Found s → shares_of (lookup s.id m) (lookup s.id m) ≡ true
  unfolding any has
  shares_self s (f, fs, e) = rw (e, eq_text_self f)

  unshared_with-named :
      (s : Story) (ts : List Story)
      → Found s
      → names s.id ts ≡ true
      → unshared_with m s.id (story_ids ts) ≡ false
  unfolding unshared_with names
  unshared_with-named s [] found h = cc
  unshared_with-named s (t ∷ ts) found h =
      ground (arith, eq_text_iff s.id t.id, shares_self s found, unshared_with-named s ts found)

  unshared-repeated :
      (ss : List Story) → All Found ss → distinct ss ≡ false → unshared m (story_ids ss) ≡ false
  unfolding unshared distinct
  unshared-repeated [] found h = cc
  unshared-repeated (s ∷ ss) (o, os) h =
      ground (arith, unshared_with-named s ss o, unshared-repeated ss os)

separate_from-named :
    (s : Story) (ts : List Story) → names s.id ts ≡ true → separate_from s ts ≡ false
unfolding separate_from names
separate_from-named s [] h = cc
separate_from-named s (t ∷ ts) h = ground (arith, separate_from-named s ts)

pairwise_separate-repeated : (ss : List Story) → distinct ss ≡ false → pairwise_separate ss ≡ false
unfolding pairwise_separate distinct
pairwise_separate-repeated [] h = cc
pairwise_separate-repeated (s ∷ ss) h =
    ground (arith, separate_from-named s ss, pairwise_separate-repeated ss)

last_files-unnamed :
    (s : Story) (ss : List Story) → names s.id ss ≡ false → last_files s.id ss ≡ none
unfolding last_files names
last_files-unnamed s [] h = refl
last_files-unnamed s (t ∷ ts) h =
    ground (arith, last_files-unnamed s ts, eq_text_iff s.id t.id, eq_text_iff t.id s.id)

abbrev LastIsOwn : List Story → Story → Type 0
LastIsOwn ss t = last_files t.id ss ≡ some (files_of t)

LastIsOwn-cons :
    (s : Story) (ss ts : List Story) → All (LastIsOwn ss) ts → All (LastIsOwn (s ∷ ss)) ts
unfolding last_files
LastIsOwn-cons s ss [] h = tt
LastIsOwn-cons s ss (t ∷ ts) (e, h) = (ground (arith, e), LastIsOwn-cons s ss ts h)

last_files-distinct : (ss : List Story) → distinct ss ≡ true → All (LastIsOwn ss) ss
unfolding last_files distinct
last_files-distinct [] h = tt
last_files-distinct (s ∷ ss) h = (
  ground (arith, last_files-unnamed s ss, eq_text_self s.id),
  LastIsOwn-cons s ss ss (last_files-distinct ss (ground arith)),
)

declares-last_files :
    (k : String) (ss : List Story)
    → all_declare ss ≡ true
    → declares (last_files k ss) ≡ is_some (last_files k ss)
unfolding last_files all
declares-last_files k [] h = refl
declares-last_files k (s ∷ ss) h = ground (arith, declares-last_files k ss)

abbrev IsNamed : List Story → Story → Type 0
IsNamed ss t = is_some (last_files t.id ss) ≡ true

IsNamed-cons : (s : Story) (ss ts : List Story) → All (IsNamed ss) ts → All (IsNamed (s ∷ ss)) ts
unfolding last_files
IsNamed-cons s ss [] h = tt
IsNamed-cons s ss (t ∷ ts) (e, h) = (ground (arith, e), IsNamed-cons s ss ts h)

All-IsNamed : (ss : List Story) → All (IsNamed ss) ss
unfolding last_files
All-IsNamed [] = tt
All-IsNamed (s ∷ ss) = (ground (arith, eq_text_self s.id), IsNamed-cons s ss ss (All-IsNamed ss))

declared :
    (o : Option (List String))
    → declares o ≡ true
    → (f : String) × (fs : List String) × (o ≡ some (f ∷ fs))
declared none h = cc
declared (some []) h = cc
declared (some (f ∷ fs)) h = (f, fs, refl)

module _ (all_stories : List Story) where
  abbrev collected : List (String × List String)
  collected = (collect_story_files all_stories).0

  lookup-collected : (k : String) → lookup k collected ≡ last_files k all_stories
  unfolding collect_story_files lookup
  lookup-collected k = lookup-collect_from k [] false all_stories ∙ ground arith

  collected-Found :
      all_declare all_stories ≡ true
      → (ts : List Story) → All (IsNamed all_stories) ts
      → All (Found collected) ts
  collected-Found h [] n = tt
  collected-Found h (t ∷ ts) (e, n) =
      let (f, fs, shape) =
        declared (last_files t.id all_stories) (declares-last_files t.id all_stories h ∙ e) in
      ((f, fs, lookup-collected t.id ∙ shape), collected-Found h ts n)

  collected-Own : (ts : List Story) → All (LastIsOwn all_stories) ts → All (Own collected) ts
  collected-Own [] n = tt
  collected-Own (t ∷ ts) (e, n) = (lookup-collected t.id ∙ e, collected-Own ts n)

  -- When every story declares files, the validator finds no pair exactly when all pairs are separate.
  unshared-collected :
      all_declare all_stories ≡ true
      → unshared collected (story_ids all_stories) ≡ pairwise_separate all_stories
  unshared-collected h = elim (Bool-cases (distinct all_stories)) [
    | inl d ↦
        unshared-pairwise_separate collected all_stories
          (collected-Own all_stories (last_files-distinct all_stories d)) d
    | inr r ↦
        unshared-repeated collected all_stories
          (collected-Found h all_stories (All-IsNamed all_stories)) r
        ∙ sym (pairwise_separate-repeated all_stories r)
  ]

-- A wave may keep its parallel flag: it has at most one story, or every story declares shared files
-- and any two stories have different ids and no file in common.
abbrev pub can_run_parallel : List Story → Bool
can_run_parallel ss = ltb (length ss) 2 || (all_declare ss && pairwise_separate ss)

pub find_overlapping_files-can_run_parallel :
    (le : String → String → Bool) (wave : WaveDefinition)
    → is_setup wave.kind ≡ false
    → is_none (find_overlapping_files le wave) ≡ can_run_parallel (get_or wave.stories [])
unfolding find_overlapping_files collect_story_files
find_overlapping_files-can_run_parallel le wave feature = ground (
  arith,
  collect_from-missing [] false (get_or wave.stories []),
  is_empty-all_overlaps (collected (get_or wave.stories [])) (story_ids (get_or wave.stories []))
      [],
  unshared-collected (get_or wave.stories []),
)
