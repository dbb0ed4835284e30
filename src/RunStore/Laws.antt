-- ===== src/RunStore/Laws.antt =====
-- What a statement on one run does to every lookup.
use mathlib.Core.Option
use beerengineer.Base.{
  String, ◌≡◌, refl, ◌∙◌, ap, Bool, false, ◌&&◌, Option, none, some, List, [], ◌∷◌, arith, inl, inr,
}
use beerengineer.Base.Tests.{if◌then◌else◌}
use beerengineer.Base.Texts.{eq_text, eq_text_iff, eq_text_self, text_cases}
use beerengineer.Base.Lists.{any, find, find-holds}
use beerengineer.RunStore.Rows.{RunRow}
use beerengineer.RunStore.Updates.{get_run, update_runs, has_changes}

-- The row after `UPDATE … WHERE id = ? AND test`.
abbrev pub updated : String → (RunRow → Bool) → (RunRow → RunRow) → RunRow → RunRow
updated id test change r = if eq_text r.id id && test r then change r else r

pub get_run-update_runs :
    (id k : String) (test : RunRow → Bool) (change : RunRow → RunRow)
    → ((r : RunRow) → (change r).id ≡ r.id)
    → (runs : List RunRow)
    → get_run (update_runs id test change runs) k
      ≡ Option.map (updated id test change) (get_run runs k)
unfolding get_run update_runs find
get_run-update_runs id k test change keeps [] = refl
get_run-update_runs id k test change keeps (r ∷ rs) =
    ground (arith, keeps r, get_run-update_runs id k test change keeps rs)

-- `id TEXT PRIMARY KEY`.
abbrev pub UniqueIds : List RunRow → Type 0
UniqueIds [] = Unit
UniqueIds (r ∷ rs) = (get_run rs r.id ≡ none) × UniqueIds rs

pub updated-id :
    (id : String) (test : RunRow → Bool) (change : RunRow → RunRow)
    → ((r : RunRow) → (change r).id ≡ r.id)
    → (r : RunRow) → (updated id test change r).id ≡ r.id
updated-id id test change keeps r = ground (arith, keeps r)

-- No statement changes an id, so the ids stay unique.
pub update_runs-UniqueIds :
    (id : String) (test : RunRow → Bool) (change : RunRow → RunRow)
    → ((r : RunRow) → (change r).id ≡ r.id)
    → (runs : List RunRow) → UniqueIds runs
    → UniqueIds (update_runs id test change runs)
unfolding update_runs
update_runs-UniqueIds id test change keeps [] h = tt
update_runs-UniqueIds id test change keeps (r ∷ rs) (fresh, h) = (
  rw (updated-id id test change keeps r) (
      get_run-update_runs id r.id test change keeps rs
      ∙ ap (Option.map (updated id test change)) fresh),
  update_runs-UniqueIds id test change keeps rs h,
)

abbrev pub passes : (RunRow → Bool) → Option RunRow → Bool
passes test none = false
passes test (some r) = test r

has_changes_of_none :
    (id : String) (test : RunRow → Bool) (runs : List RunRow)
    → get_run runs id ≡ none
    → has_changes id test runs ≡ false
unfolding get_run has_changes find any
has_changes_of_none id test [] h = refl
has_changes_of_none id test (r ∷ rs) h = ground (arith, has_changes_of_none id test rs)

-- With unique ids, a statement changes a row exactly when the row of that id passes its test.
pub has_changes-get_run :
    (id : String) (test : RunRow → Bool) (runs : List RunRow)
    → UniqueIds runs
    → has_changes id test runs ≡ passes test (get_run runs id)
unfolding get_run has_changes find any
has_changes-get_run id test [] h = refl
has_changes-get_run id test (r ∷ rs) (fresh, h) = elim (text_cases r.id id) [
  | inl e ↦ ground (arith, eq_text_self id, has_changes_of_none r.id test rs fresh)
  | inr e ↦ rw e (has_changes-get_run id test rs h)
]

-- A statement that changes no row leaves the table as it is.
pub update_runs_of_no_changes :
    (id : String) (test : RunRow → Bool) (change : RunRow → RunRow) (runs : List RunRow)
    → has_changes id test runs ≡ false
    → update_runs id test change runs ≡ runs
unfolding update_runs has_changes any
update_runs_of_no_changes id test change [] h = refl
update_runs_of_no_changes id test change (r ∷ rs) h =
    ground (arith, update_runs_of_no_changes id test change rs)

-- The row that is found has the id that was asked for.
pub get_run-id : (runs : List RunRow) (k : String) {r : RunRow} → get_run runs k ≡ some r → r.id ≡ k
unfolding get_run
get_run-id runs k {r} h = (eq_text_iff r.id k).0 (find-holds (λ x. eq_text x.id k) runs h)

module _ (id : String) (test : RunRow → Bool) (change : RunRow → RunRow)
    (keeps : (r : RunRow) → (change r).id ≡ r.id) (runs : List RunRow) where
  pub get_run-update_self :
      {r : RunRow}
      → get_run runs id ≡ some r
      → get_run (update_runs id test change runs) id ≡ some (if test r then change r else r)
  get_run-update_self {r} found =
      get_run-update_runs id id test change keeps runs
      ∙ ap (Option.map (updated id test change)) found
      ∙ ground (arith, eq_text_iff r.id id, get_run-id runs id {r = r} found)

  updated_other :
      (k : String) (o : Option RunRow)
      → ((r : RunRow) → o ≡ some r → r.id ≡ k)
      → eq_text k id ≡ false
      → Option.map (updated id test change) o ≡ o
  updated_other k none h e = refl
  updated_other k (some r) h e = ground (arith, h r refl)

  pub get_run-update_other :
      (k : String)
      → eq_text k id ≡ false
      → get_run (update_runs id test change runs) k ≡ get_run runs k
  get_run-update_other k e =
      get_run-update_runs id k test change keeps runs
      ∙ updated_other k (get_run runs k) (λ r found. get_run-id runs k found) e
