-- ===== src/OrphanRecovery/Marks.antt =====
-- Which runs a recovery marks, and as what (apps/engine/src/core/orphanRecovery.ts).
use beerengineer.Base.{
  ℕ, String, ◌≡◌, refl, ◌∙◌, ap, inl, inr, Bool, true, false, ◌&&◌, none, some, List, [], ◌∷◌,
  arith,
}
use beerengineer.Base.Tests.{if◌then◌else◌, Bool-cases, Option-cases}
use beerengineer.Base.Lists.{any, find, select, All, All-select}
use beerengineer.Base.Sorting.{sort, any-sort, All-sort}
use beerengineer.Base.Texts.{eq_text, eq_text_iff, eq_text_self, text_cases}
use beerengineer.RunStore.Rows.{RunRow, Db, has_status}
use beerengineer.RunStore.Updates.{get_run, update_run, update_runs, patch_row, always, has_changes}
use beerengineer.RunStore.Queries.{list_running_runs, older}
use beerengineer.RunStore.Laws.{
  UniqueIds, get_run-update_self, get_run-update_other, get_run-id, has_changes-get_run, passes,
}
use beerengineer.OrphanRecovery.{
  failed_recoverable, project_recovered_run_to_item, mark_run_failed_recoverable, mark_runs,
  should_recover_lost_worker, recovery_summary, mark_lost_worker_runs, is_own_api_run,
  shutdown_recovery_summary, recover_api_runs_for_shutdown,
}

project-runs :
    (now : ℕ) (r : RunRow) (db : Db) → (project_recovered_run_to_item now r db).runs ≡ db.runs
unfolding project_recovered_run_to_item
project-runs now r db = ground arith

-- The row of a run that is marked with the summary.
abbrev pub marked : ℕ → String → RunRow → RunRow
marked now summary r = patch_row (failed_recoverable summary) now r

module _ (now : ℕ) where
  mark-runs :
      (db : Db) (id summary : String) (r : RunRow)
      → get_run db.runs id ≡ some r
      → (mark_run_failed_recoverable now db id summary).runs
        ≡ update_run r.id (failed_recoverable summary) now db.runs
  unfolding mark_run_failed_recoverable
  mark-runs db id summary r h = rw h (project-runs now r _)

  mark-missing :
      (db : Db) (id summary : String)
      → get_run db.runs id ≡ none
      → mark_run_failed_recoverable now db id summary ≡ db
  unfolding mark_run_failed_recoverable
  mark-missing db id summary h = rw h refl

  get_run-mark_self :
      (db : Db) (id summary : String) (r : RunRow)
      → get_run db.runs id ≡ some r
      → get_run (mark_run_failed_recoverable now db id summary).runs id
        ≡ some (marked now summary r)
  unfolding update_run
  get_run-mark_self db id summary r h =
      ap (λ runs. get_run runs id) (mark-runs db id summary r h)
      ∙ ap (λ k. get_run (update_runs k always (marked now summary) db.runs) id)
          (get_run-id db.runs id h)
      ∙ get_run-update_self id always (marked now summary) (λ x. refl) db.runs h

  get_run-mark_other :
      (db : Db) (id summary k : String)
      → eq_text k id ≡ false
      → get_run (mark_run_failed_recoverable now db id summary).runs k ≡ get_run db.runs k
  unfolding update_run
  get_run-mark_other db id summary k h = elim (Option-cases (get_run db.runs id)) [
    | inl e ↦ ap (λ d. get_run d.runs k) (mark-missing db id summary e)
    | inr (r, e) ↦
        ap (λ runs. get_run runs k) (mark-runs db id summary r e)
        ∙ ap (λ j. get_run (update_runs j always (marked now summary) db.runs) k)
            (get_run-id db.runs id e)
        ∙ get_run-update_other id always (marked now summary) (λ x. refl) db.runs k h
  ]

  module _ (test : RunRow → Bool) (summary : RunRow → String) (id : String) (r : RunRow) where
    abbrev IsRow : RunRow → Type 0
    IsRow q = q.id ≡ id → q ≡ r

    abbrev pub hits : RunRow → Bool
    hits q = eq_text q.id id && test q

    abbrev pub after : Bool → RunRow → RunRow
    after b x = if b then marked now (summary r) x else x

    after-marked :
        (b : Bool) (x : RunRow) → after b (marked now (summary r) x) ≡ marked now (summary r) x
    after-marked true x = refl
    after-marked false x = refl

    mark_same :
        (q : RunRow) (db : Db) (x : RunRow)
        → q.id ≡ id
        → q ≡ r
        → get_run db.runs id ≡ some x
        → get_run (mark_run_failed_recoverable now db q.id (summary q)).runs id
          ≡ some (marked now (summary r) x)
    mark_same q db x same e found =
        ap (λ k. get_run (mark_run_failed_recoverable now db k (summary q)).runs id) same
        ∙ get_run-mark_self db id (summary q) x found
        ∙ ap (λ y. some (marked now (summary y) x)) e

    get_run-mark_runs :
        (rows : List RunRow) (db : Db) (x : RunRow)
        → All IsRow rows
        → get_run db.runs id ≡ some x
        → get_run (mark_runs now test summary rows db).0.runs id ≡ some (after (any hits rows) x)
    unfolding mark_runs any
    get_run-mark_runs [] db x h found = found
    get_run-mark_runs (q ∷ rows) db x (p, h) found = elim (Bool-cases (test q)) [
      | inr e ↦ rw e (ground (arith, get_run-mark_runs rows db x h found))
      | inl e ↦ elim (text_cases q.id id) [
        | inl same ↦ ground (
          arith,
          after-marked (any hits rows) x,
          get_run-mark_runs rows (mark_run_failed_recoverable now db q.id (summary q))
              (marked now (summary r) x) h (mark_same q db x same (p same) found),
          eq_text_iff q.id id,
        )
        | inr other ↦ ground (
          arith,
          get_run-mark_runs rows (mark_run_failed_recoverable now db q.id (summary q)) x h (
              get_run-mark_other db q.id (summary q) id
                (ground (arith, eq_text_iff q.id id, eq_text_iff id q.id))
              ∙ found),
        )
      ]
    ]

All-weaken {ℓ κ η} :
    {A : Type ℓ} {P : A → Type κ} {Q : A → Type η} (xs : List A)
    → ((a : A) → P a → Q a)
    → All P xs
    → All Q xs
All-weaken [] f h = tt
All-weaken (x ∷ xs) f (p, h) = (f x p, All-weaken xs f h)

-- The rows of a table are what their ids look up.
rows_found : (runs : List RunRow) → UniqueIds runs → All (λ q. get_run runs q.id ≡ some q) runs
unfolding get_run find
rows_found [] u = tt
rows_found (r ∷ runs) (fresh, u) = (
  ground (arith, eq_text_self r.id),
  All-weaken runs
      (λ q here. elim (text_cases r.id q.id) [
        | inl e ↦ absurd (ground (arith, ap (get_run runs) e))
        | inr e ↦ rw e here
      ])
      (rows_found runs u),
)

-- The running rows, for the run `r`.
running_rows-IsRow :
    (runs : List RunRow) (id : String) (r : RunRow)
    → UniqueIds runs
    → get_run runs id ≡ some r
    → All (λ q. q.id ≡ id → q ≡ r) (list_running_runs runs)
unfolding list_running_runs
running_rows-IsRow runs id r u found =
    All-weaken (sort older (select (λ q. has_status q "running") runs))
      (λ q here same. ground (arith, ap (get_run runs) same))
      (All-sort older (λ q. get_run runs q.id ≡ some q) _
        (All-select (λ q. get_run runs q.id ≡ some q) (λ q. has_status q "running") runs
          (rows_found runs u)))

any-select :
    (p q : RunRow → Bool) (runs : List RunRow) → any q (select p runs) ≡ any (λ r. p r && q r) runs
unfolding any select
any-select p q [] = refl
any-select p q (r ∷ runs) = ground (arith, any-select p q runs)

any_swap :
    (p test : RunRow → Bool) (id : String) (runs : List RunRow)
    → any (λ r. p r && (eq_text r.id id && test r)) runs ≡ has_changes id (λ r. p r && test r) runs
unfolding any has_changes
any_swap p test id [] = refl
any_swap p test id (r ∷ runs) = ground (arith, any_swap p test id runs)

module _ (now : ℕ) (test : RunRow → Bool) (summary : RunRow → String) (db : Db) (id : String)
    (r : RunRow) where
  any-running :
      UniqueIds db.runs
      → get_run db.runs id ≡ some r
      → any (hits now test summary id r) (list_running_runs db.runs)
        ≡ (has_status r "running" && test r)
  unfolding list_running_runs
  any-running u found =
      any-sort older (hits now test summary id r) (select (λ q. has_status q "running") db.runs)
      ∙ any-select (λ q. has_status q "running") (hits now test summary id r) db.runs
      ∙ any_swap (λ q. has_status q "running") test id db.runs
      ∙ has_changes-get_run id (λ q. has_status q "running" && test q) db.runs u
      ∙ ap (passes (λ q. has_status q "running" && test q)) found

  get_run-mark_running :
      UniqueIds db.runs
      → get_run db.runs id ≡ some r
      → get_run (mark_runs now test summary (list_running_runs db.runs) db).0.runs id
        ≡ some (if has_status r "running" && test r then marked now (summary r) r else r)
  get_run-mark_running u found =
      get_run-mark_runs now test summary id r (list_running_runs db.runs) db r
        (running_rows-IsRow db.runs id r u found) found
      ∙ ap (λ b. some (after now test summary id r b r)) (any-running u found)

-- The startup recovery marks a run as failed and recoverable, with the summary for its kind of worker,
-- exactly if it is running and its lease is orphaned, whoever owns it, and leaves every other run as it
-- was. The ids of the runs are unique.
pub get_run-mark_lost_worker_runs :
    (instance_id : String) (now : ℕ) (db : Db) (id : String) (r : RunRow)
    → UniqueIds db.runs
    → get_run db.runs id ≡ some r
    → get_run (mark_lost_worker_runs instance_id now db).0.runs id
      ≡ some (
          if should_recover_lost_worker instance_id now r
          then marked now (recovery_summary r) r
          else r)
unfolding mark_lost_worker_runs should_recover_lost_worker
get_run-mark_lost_worker_runs instance_id now db id r u found =
    get_run-mark_running now (should_recover_lost_worker instance_id now) recovery_summary db id r u
      found
    ∙ ground arith

-- The recovery at shutdown marks a run as failed and recoverable exactly if it is running, is owned
-- by the API and is leased to this API process, and leaves every other run as it was. The ids of the
-- runs are unique.
pub get_run-recover_api_runs_for_shutdown :
    (instance_id : String) (now : ℕ) (db : Db) (id : String) (r : RunRow)
    → UniqueIds db.runs
    → get_run db.runs id ≡ some r
    → get_run (recover_api_runs_for_shutdown instance_id now db).0.runs id
      ≡ some (
          if has_status r "running" && is_own_api_run instance_id r
          then marked now shutdown_recovery_summary r
          else r)
unfolding recover_api_runs_for_shutdown
get_run-recover_api_runs_for_shutdown instance_id now db id r u found =
    get_run-mark_running now (is_own_api_run instance_id) (λ q. shutdown_recovery_summary) db id r u
      found
