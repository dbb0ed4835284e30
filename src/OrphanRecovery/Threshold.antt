-- ===== src/OrphanRecovery/Threshold.antt =====
-- How many runs a startup pass resumes, and what it reports
-- (apps/engine/src/core/orphanRecovery.ts).
use beerengineer.Base.{
  ℕ, suc, ◌≤◌, String, ◌≡◌, refl, ◌⊎◌, inl, inr, Bool, true, false, List, [], ◌∷◌, map, arith, sym,
  subst, none,
}
use beerengineer.Base.Tests.{if◌then◌else◌, get_or, Bool-cases, ltb}
use beerengineer.Base.Lists.{select, length}
use beerengineer.RunStore.Rows.{RunRow}
use beerengineer.Base.Effects.{Result, Effect, ok, err, return, then_at}
use beerengineer.RunStore.Journal.{Journal, DbError}
use beerengineer.RunStore.Updates.{get_run}
use beerengineer.OrphanRecovery.Outcomes.{
  auto_resumed, StartupRecoveryOutcome, Act, append_startup_recovery_log,
  skipped_startup_recovery_outcome, threshold_held_back_startup_recovery_outcome,
}
use beerengineer.OrphanRecovery.Logs.{OnlyLogs, OnlyLogs-refl, OnlyLogs-trans, log-OnlyLogs}
use beerengineer.OrphanRecovery.Startup.{
  StartupAutoResumeEligibility, StartupRecoveryCandidate, StartupAutoResumeOptions,
  normalized_recovery_threshold, is_eligible, resolve_startup_recovery_outcome,
  resolve_candidate_outcomes, skip_candidates, hold_back_eligible_candidates, resolve_pass,
  candidate_id, first_id, eligible, not_eligible,
}

abbrev is_resumed : StartupRecoveryOutcome → Bool
is_resumed o = elim o.outcome [ auto_resumed ↦ true | _ ↦ false ]

-- The number of runs that a pass resumed.
abbrev pub resumed_count : List StartupRecoveryOutcome → ℕ
resumed_count [] = 0
resumed_count (o ∷ os) = if is_resumed o then suc (resumed_count os) else resumed_count os

-- What a pass reports; nothing if an insert into the log threw.
abbrev pub reported : Result DbError (List StartupRecoveryOutcome) → List StartupRecoveryOutcome
reported (ok os) = os
reported (err e) = []

resolve-is_eligible :
    (options : StartupAutoResumeOptions) (r : RunRow) (c : StartupRecoveryCandidate) (j : Journal)
    → is_resumed (resolve_startup_recovery_outcome options r c.eligibility j).0.0 ≡ true
    → is_eligible c ≡ true
unfolding resolve_startup_recovery_outcome
resolve-is_eligible options r c j h = ground arith

reported-then :
    (a : Result DbError (Unit {0}) × Journal) (o : StartupRecoveryOutcome)
    (f : Act (List StartupRecoveryOutcome)) (n : ℕ)
    → ((j : Journal) → resumed_count (reported (f j).0) ≤ n)
    → resumed_count (reported (then_at (then_at a (λ _. f)) (λ os. return (o ∷ os))).0)
      ≤ (if is_resumed o then suc n else n)
reported-then (err e, j) o f n h = ground arith
reported-then (ok u, j) o f n h = more (f j) (h j)
  where
    more :
        (b : Result DbError (List StartupRecoveryOutcome) × Journal)
        → resumed_count (reported b.0) ≤ n
        → resumed_count (reported (then_at b (λ os. return (o ∷ os))).0)
          ≤ (if is_resumed o then suc n else n)
    more (err e, j) k = ground arith
    more (ok os, j) k = ground arith

resumed_count-resolve :
    (now : ℕ) (options : StartupAutoResumeOptions) (cs : List StartupRecoveryCandidate)
    (j : Journal)
    → resumed_count (reported (resolve_candidate_outcomes now options cs j).0)
      ≤ length (select is_eligible cs)
unfolding resolve_candidate_outcomes select
resumed_count-resolve now options [] j = omega arith
resumed_count-resolve now options (c ∷ cs) j =
    let current = get_or (get_run j.db.runs c.run_row.id) c.run_row in
    let resolved = resolve_startup_recovery_outcome options current c.eligibility j in
    let step =
      reported-then (append_startup_recovery_log now resolved.0.0 resolved.0.1 resolved.1)
        resolved.0.0 (resolve_candidate_outcomes now options cs) (length (select is_eligible cs))
        (resumed_count-resolve now options cs) in
    ground (arith, step, resolve-is_eligible options current c j)

-- Nothing is reported as resumed, and the store has changed by log entries alone.
abbrev Held : Journal → Result DbError (List StartupRecoveryOutcome) × Journal → Type 0
Held j r = (resumed_count (reported r.0) ≡ 0) × OnlyLogs j r.1

Held-log :
    (now : ℕ) (o : StartupRecoveryOutcome) (f : Act (List StartupRecoveryOutcome)) (j : Journal)
    → is_resumed o ≡ false
    → ((k : Journal) → Held k (f k))
    → Held j (
        then_at
          (append_startup_recovery_log now o none j)
          (λ _ k. then_at (f k) (λ os. return (o ∷ os))))
Held-log now o f j n h =
    first (append_startup_recovery_log now o none j) (log-OnlyLogs now o none j)
  where
    second :
        (b : Result DbError (List StartupRecoveryOutcome) × Journal)
        → Held j b
        → Held j (then_at b (λ os. return (o ∷ os)))
    second (ok os, k) (z, l) = (rw n z, l)
    second (err e, k) (z, l) = (z, l)

    first :
        (a : Result DbError (Unit {0}) × Journal)
        → OnlyLogs j a.1
        → Held j (then_at a (λ _ k. then_at (f k) (λ os. return (o ∷ os))))
    first (err e, k) l = (refl, l)
    first (ok u, k) l = second (f k) ((h k).0, OnlyLogs-trans j k (f k).1 l (h k).1)

Held-skip :
    (now : ℕ) (cs : List StartupRecoveryCandidate) (j : Journal) → Held j (skip_candidates now cs j)
unfolding skip_candidates
Held-skip now [] j = (refl, OnlyLogs-refl j)
Held-skip now (c ∷ cs) j = by_eligibility c.eligibility (λ k. Held-skip now cs k)
  where
    by_eligibility :
        (e : StartupAutoResumeEligibility)
        → ((k : Journal) → Held k (skip_candidates now cs k))
        → Held j (skip_candidates now (record c { eligibility = e } ∷ cs) j)
    by_eligibility eligible h = h j
    by_eligibility (not_eligible why) h =
        Held-log now (skipped_startup_recovery_outcome c.run_row.id why) (skip_candidates now cs) j
          refl h

-- A startup pass that returns reports at most as many runs as resumed as the threshold, where a
-- threshold of 0 counts as 1 and a missing one as the largest safe integer. If there are more eligible
-- runs than that, the pass does not depend on what resuming a run does, reports none as resumed, and
-- changes the store only by appending to the log and by the times of the last change of runs.
pub resolve_pass-threshold :
    (now : ℕ) (options : StartupAutoResumeOptions) (cs : List StartupRecoveryCandidate)
    (j : Journal) (other : RunRow → Effect Journal String (Unit {0}))
    → (resumed_count (reported (resolve_pass now options cs j).0)
        ≤ normalized_recovery_threshold options.recovery_threshold)
      × ((length (select is_eligible cs) ≤ normalized_recovery_threshold options.recovery_threshold)
          ⊎ ((resolve_pass now (record options { resume_run = other }) cs j
                ≡ resolve_pass now options cs j)
              × ((resumed_count (reported (resolve_pass now options cs j).0) ≡ 0)
                  × OnlyLogs j (resolve_pass now options cs j).1)))
unfolding resolve_pass hold_back_eligible_candidates
resolve_pass-threshold now options cs j other =
    elim (Bool-cases (
      ltb (normalized_recovery_threshold options.recovery_threshold)
        (length (select is_eligible cs)))) [
          | inl e ↦
              let held =
                Held-log now
                  (threshold_held_back_startup_recovery_outcome (first_id (select is_eligible cs))
                    (map candidate_id (select is_eligible cs)))
                  (skip_candidates now cs) j refl (Held-skip now cs) in
              rw e (
                subst (λ n. n ≤ normalized_recovery_threshold options.recovery_threshold)
                    (sym held.0) (omega arith),
                inr (refl, held),
              )
          | inr e ↦
              rw e (ground (arith, resumed_count-resolve now options cs j), inl (ground arith))
        ]
