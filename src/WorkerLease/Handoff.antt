-- ===== src/WorkerLease/Handoff.antt =====
-- The planning-to-execution handoff of a blocked run from a CLI worker to an API worker
-- (apps/engine/src/core/executionOwnershipHandoff.ts and the two statements of repos.ts that it uses).
use beerengineer.Base.{
  ℕ, String, ◌≡◌, refl, ◌∙◌, ap, Bool, true, false, ◌&&◌, ◌||◌, Option, none, some, List, arith,
}
use beerengineer.Base.Tests.{if◌then◌else◌, is_some, if_ind}
use beerengineer.Base.Texts.{eq_text, is_text}
use beerengineer.RunStore.Rows.{
  cli, api, RunRow, RecoveryStatus, stage, is_owner, is_status, is_scope, has_status, at_stage,
}
use beerengineer.RunStore.Updates.{
  get_run, has_changes, take_lease, is_blocked_execution, claim_blocked_execution_handoff,
  lease_columns, put_lease, restore_blocked_execution_handoff_claim,
}
use beerengineer.RunStore.Laws.{
  UniqueIds, update_runs-UniqueIds, get_run-update_self, get_run-update_other, has_changes-get_run,
  passes, update_runs_of_no_changes,
}

-- The predicate by which candidates are chosen.
unfoldable pub is_execution_ownership_handoff_run : Option RunRow → Bool
is_execution_ownership_handoff_run none = false
is_execution_ownership_handoff_run (some r) =
    has_status r "blocked"
    && is_owner r.worker_owner_kind cli
    && is_some r.worker_instance_id
    && is_some r.worker_started_at
    && is_some r.worker_heartbeat_at
    && (at_stage r "planning" || at_stage r "execution")
    && is_status r.recovery_status RecoveryStatus.blocked
    && is_scope r.recovery_scope stage
    && is_text r.recovery_scope_ref "execution"

reorder :
    (a b c d e f g h i : Bool)
    → (a && f && g && h && i && b && c && d && e) ≡ (a && b && c && d && e && f && g && h && i)
reorder true true true true true f g h i = ground arith
reorder a b c d e f g h i = ground arith

-- The candidates are the rows that the claim's `WHERE` clause admits.
pub is_blocked_execution-handoff_run :
    (r : RunRow) → is_blocked_execution cli r ≡ is_execution_ownership_handoff_run (some r)
unfolding is_execution_ownership_handoff_run
is_blocked_execution-handoff_run r =
    reorder (has_status r "blocked") (is_owner r.worker_owner_kind cli)
      (is_some r.worker_instance_id) (is_some r.worker_started_at) (is_some r.worker_heartbeat_at)
      (at_stage r "planning" || at_stage r "execution")
      (is_status r.recovery_status RecoveryStatus.blocked) (is_scope r.recovery_scope stage)
      (is_text r.recovery_scope_ref "execution")

module _ (id instance_id : String) (started : ℕ) (runs : List RunRow) {r : RunRow}
    (unique : UniqueIds runs) (found : get_run runs id ≡ some r) where
  abbrev claim : List RunRow × Option RunRow
  claim = claim_blocked_execution_handoff id instance_id started runs

  abbrev taken : RunRow
  taken = take_lease instance_id api started started r

  claim_changes :
      has_changes id (is_blocked_execution cli) runs ≡ is_execution_ownership_handoff_run (some r)
  claim_changes =
      has_changes-get_run id (is_blocked_execution cli) runs unique
      ∙ ap (passes (is_blocked_execution cli)) found
      ∙ is_blocked_execution-handoff_run r

  claim_found :
      get_run claim.0 id ≡ some (if is_execution_ownership_handoff_run (some r) then taken else r)
  unfolding claim_blocked_execution_handoff
  claim_found =
      get_run-update_self id (is_blocked_execution cli) (take_lease instance_id api started started)
        (λ _. refl) runs found
      ∙ ap (λ b. some (if b then taken else r)) (is_blocked_execution-handoff_run r)

  -- The claim returns the run with its new lease exactly when the run is a candidate; then the row of
  -- that run is the returned one, and otherwise the row is as before. No other run changes.
  pub claim-is_execution_ownership_handoff_run :
      (k : String)
      → eq_text k id ≡ false
      → let candidate = is_execution_ownership_handoff_run (some r) in
        (claim.1 ≡ (if candidate then some taken else none))
        × (get_run claim.0 id ≡ some (if candidate then taken else r))
        × (get_run claim.0 k ≡ get_run runs k)
  unfolding claim_blocked_execution_handoff
  claim-is_execution_ownership_handoff_run k other = (
    ground (arith, claim_found, claim_changes),
    claim_found,
    get_run-update_other id (is_blocked_execution cli) (take_lease instance_id api started started)
        (λ _. refl) runs k other,
  )

  taken_not_candidate :
      is_blocked_execution cli (if is_execution_ownership_handoff_run (some r) then taken else r)
      ≡ false
  taken_not_candidate =
      if_ind (λ x. is_blocked_execution cli x ≡ false) (is_execution_ownership_handoff_run (some r))
        (λ _. ground arith) (λ e. is_blocked_execution-handoff_run r ∙ e)

  -- The handoff is claimed at most once: whoever claims the same run next gets nothing, and the table
  -- stays as the first claim left it.
  pub claim_once :
      (instance_id' : String) (started' : ℕ)
      → claim_blocked_execution_handoff id instance_id' started' claim.0 ≡ (claim.0, none)
  unfolding claim_blocked_execution_handoff
  claim_once instance_id' started' = rw (
    update_runs_of_no_changes id (is_blocked_execution cli)
        (take_lease instance_id' api started' started') claim.0 no_change,
    no_change,
  )
    where
      no_change : has_changes id (is_blocked_execution cli) claim.0 ≡ false
      no_change =
          has_changes-get_run id (is_blocked_execution cli) claim.0 (
            update_runs-UniqueIds id (is_blocked_execution cli)
              (take_lease instance_id api started started) (λ _. refl) runs unique)
          ∙ ap (passes (is_blocked_execution cli)) claim_found
          ∙ taken_not_candidate

  taken_restorable :
      is_execution_ownership_handoff_run (some r) ≡ true → is_blocked_execution api taken ≡ true
  unfolding is_execution_ownership_handoff_run
  taken_restorable h = ground arith

  -- A claim that is given back leaves the candidate's row as it was, but for the time of the write.
  pub restore-claim :
      (now : ℕ)
      → is_execution_ownership_handoff_run (some r) ≡ true
      → get_run (restore_blocked_execution_handoff_claim id (lease_columns r) now claim.0) id
        ≡ some (record r { updated_at = now })
  unfolding restore_blocked_execution_handoff_claim
  restore-claim now h =
      get_run-update_self id (is_blocked_execution api) (put_lease (lease_columns r) now)
        (λ _. refl) claim.0 (claim_found ∙ ap (λ b. some (if b then taken else r)) h)
      ∙ ap (λ b. some (if b then put_lease (lease_columns r) now taken else taken))
          (taken_restorable h)
