-- ===== src/OrphanRecovery/Logs.antt =====
-- What an entry in the log of a run changes in the store (`appendStartupRecoveryLog` of
-- apps/engine/src/core/orphanRecovery.ts).
use beerengineer.Base.{
  ℕ, String, ◌≡◌, refl, true, List, [], ◌∷◌, map, ap, sym, ◌∙◌, ◌++◌, ◌&&◌, Option, none,
  append-nil, append_assoc,
}
use beerengineer.Base.Tests.{if◌then◌else◌, if_ind}
use beerengineer.Base.Effects.{Result}
use beerengineer.Base.Texts.{eq_text, is_text}
use beerengineer.RunStore.Rows.{RunRow}
use beerengineer.RunStore.Journal.{Journal, DbError, StageLogRow, StageRunRow, append_log}
use beerengineer.RunStore.Updates.{update_run, update_runs, no_patch}
use beerengineer.OrphanRecovery.Outcomes.{StartupRecoveryOutcome, append_startup_recovery_log}

-- The runs without the time of their last change.
abbrev pub unstamped : List RunRow → List RunRow
unstamped runs = map (λ (r : RunRow). record r { updated_at = 0 }) runs

-- `k` is `j` with log entries appended, and perhaps new times of the last change of runs.
abbrev pub OnlyLogs : Journal → Journal → Type 0
OnlyLogs j k =
    ((unstamped k.db.runs ≡ unstamped j.db.runs)
      × ((k.db.items ≡ j.db.items) × (k.db.prompts ≡ j.db.prompts)))
    × (((k.stage_runs ≡ j.stage_runs) × ((k.artifacts ≡ j.artifacts) × (k.projects ≡ j.projects)))
        × ((news : List StageLogRow) × (k.logs ≡ j.logs ++ news)))

pub OnlyLogs-refl : (j : Journal) → OnlyLogs j j
OnlyLogs-refl j = ((refl, (refl, refl)), ((refl, (refl, refl)), ([], sym (append-nil j.logs))))

pub OnlyLogs-trans : (i j k : Journal) → OnlyLogs i j → OnlyLogs j k → OnlyLogs i k
OnlyLogs-trans i j k ((a, (b, c)), ((d, (e, f)), (xs, g)))
      ((a', (b', c')), ((d', (e', f')), (ys, g'))) =
    (
      (a' ∙ a, (b' ∙ b, c' ∙ c)),
      (
        (d' ∙ d, (e' ∙ e, f' ∙ f)),
        (xs ++ ys, g' ∙ ap (λ zs. zs ++ ys) g ∙ append_assoc i.logs xs ys),
      ),
    )

unstamped-update_run :
    (id : String) (now : ℕ) (runs : List RunRow)
    → unstamped (update_run id no_patch now runs) ≡ unstamped runs
unfolding update_run update_runs
unstamped-update_run id now [] = refl
unstamped-update_run id now (r ∷ rs) =
    if_ind
      (λ (x : RunRow).
        ◌≡◌ {A = List RunRow}
          (record x { updated_at = 0 } ∷ unstamped (update_run id no_patch now rs))
          (record r { updated_at = 0 } ∷ unstamped rs))
      (eq_text r.id id && true)
      (λ _. ap (λ xs. record r { updated_at = 0 } ∷ xs) (unstamped-update_run id now rs))
      (λ _. ap (λ xs. record r { updated_at = 0 } ∷ xs) (unstamped-update_run id now rs))

untouched :
    (now : ℕ) (xs : List StageRunRow)
    → map (λ (s : StageRunRow). if is_text none s.id then record s { updated_at = now } else s) xs
      ≡ xs
untouched now [] = refl
untouched now (x ∷ xs) = ap (λ ys. x ∷ ys) (untouched now xs)

pub log-OnlyLogs :
    (now : ℕ) (o : StartupRecoveryOutcome) (error : Option String) (j : Journal)
    → OnlyLogs j (append_startup_recovery_log now o error j).1
unfolding append_startup_recovery_log append_log
log-OnlyLogs now o error j =
    if_ind (λ (r : Result DbError (Unit {0}) × Journal). OnlyLogs j r.1) _
      (λ _. (
        (unstamped-update_run o.run_id now j.db.runs, (refl, refl)),
        ((untouched now j.stage_runs, (refl, refl)), (_, refl)),
      ))
      (λ _. OnlyLogs-refl j)
