-- ===== src/WorkerLease/Ownership.antt =====
-- Who owns the lease of a run after a claim and after a refresh
-- (apps/engine/src/core/workerLease.ts).
use beerengineer.Base.{
  ℕ, String, ◌≡◌, refl, sym, ◌∙◌, ap, ◌≢◌, Bool, true, false, ◌&&◌, none, some, List, arith, ◌⊎◌,
  inl, inr,
}
use beerengineer.Base.Tests.{if◌then◌else◌}
use beerengineer.Base.Texts.{eq_text, eq_text_self, eq_text_ne, text_cases}
use beerengineer.RunStore.Rows.{RunRow, eq_owner}
use beerengineer.RunStore.Updates.{
  get_run, update_runs, has_changes, always, take_lease, claim_run_worker_lease, owns, beat,
  refresh_run_worker_heartbeat,
}
use beerengineer.RunStore.Laws.{
  get_run-update_self, get_run-update_other, UniqueIds, passes, has_changes-get_run,
}
use beerengineer.WorkerLease.{
  WorkerLeaseSnapshot, WorkerLeaseIdentity, HeartbeatResult, to_snapshot, claim_worker_lease,
  snapshot_is, worker_still_owns_lease, renewed, lost, refresh_worker_heartbeat,
}

snapshot_of_claim :
    (w v : WorkerLeaseIdentity) (now : ℕ) (r : RunRow)
    → w.worker_instance_id ≢ ""
    → snapshot_is v
        (to_snapshot (some (take_lease w.worker_instance_id w.worker_owner_kind now now r)))
      ≡ (eq_text w.worker_instance_id v.worker_instance_id
          && eq_owner w.worker_owner_kind v.worker_owner_kind)
snapshot_of_claim w v now r named = rw (eq_text_ne w.worker_instance_id "" named)

-- After a claim of an existing run, its lease belongs to the claimer and to nobody else, and every
-- other run has the owner that it had: `workerStillOwnsLease` of any worker `v`.
pub claim-worker_still_owns_lease :
    (w v : WorkerLeaseIdentity) (now : ℕ) (runs : List RunRow) {r : RunRow}
    → get_run runs w.run_id ≡ some r
    → w.worker_instance_id ≢ ""
    → worker_still_owns_lease (claim_worker_lease w now runs).0 v ≡ (
        if eq_text v.run_id w.run_id
        then eq_text w.worker_instance_id v.worker_instance_id
          && eq_owner w.worker_owner_kind v.worker_owner_kind
        else worker_still_owns_lease runs v)
unfolding worker_still_owns_lease claim_worker_lease claim_run_worker_lease
claim-worker_still_owns_lease w v now runs {r} found named = elim (text_cases v.run_id w.run_id) [
  | inl same ↦
      rw (same, eq_text_self w.run_id)
        (ap (λ o. snapshot_is v (to_snapshot o))
            (get_run-update_self w.run_id always
              (take_lease w.worker_instance_id w.worker_owner_kind now now) (λ _. refl) runs found)
          ∙ snapshot_of_claim w v now r named)
  | inr other ↦ rw other (
      ap (λ o. snapshot_is v (to_snapshot o))
        (get_run-update_other w.run_id always
          (take_lease w.worker_instance_id w.worker_owner_kind now now) (λ _. refl) runs v.run_id
          other))
]

-- The lease columns of a row are all set, or no instance is named.
abbrev pub IsWhole : RunRow → Type 0
IsWhole r =
    ((s : WorkerLeaseSnapshot) × (to_snapshot (some r) ≡ some s)) ⊎ (r.worker_instance_id ≡ none)

-- On such a row the `WHERE` clause of the heartbeat is `workerStillOwnsLease`.
pub owns-snapshot_is :
    (w : WorkerLeaseIdentity) (r : RunRow)
    → IsWhole r
    → owns w.worker_instance_id w.worker_owner_kind r ≡ snapshot_is w (to_snapshot (some r))
owns-snapshot_is w r (inl (s, e)) = ground arith
owns-snapshot_is w r (inr e) = ground arith

abbrev pub after_beat : Bool → ℕ → RunRow → HeartbeatResult
after_beat true now r = renewed (beat now r)
after_beat false now r = lost (to_snapshot (some r))

module _ (w : WorkerLeaseIdentity) (now : ℕ) (runs : List RunRow) {r : RunRow}
    (unique : UniqueIds runs) (found : get_run runs w.run_id ≡ some r) (whole : IsWhole r) where
  pub owns-worker_still_owns_lease :
      owns w.worker_instance_id w.worker_owner_kind r ≡ worker_still_owns_lease runs w
  unfolding worker_still_owns_lease
  owns-worker_still_owns_lease =
      owns-snapshot_is w r whole ∙ sym (ap (λ o. snapshot_is w (to_snapshot o)) found)

  changes-worker_still_owns_lease :
      has_changes w.run_id (owns w.worker_instance_id w.worker_owner_kind) runs
      ≡ worker_still_owns_lease runs w
  changes-worker_still_owns_lease =
      has_changes-get_run w.run_id (owns w.worker_instance_id w.worker_owner_kind) runs unique
      ∙ ap (passes (owns w.worker_instance_id w.worker_owner_kind)) found
      ∙ owns-worker_still_owns_lease

  beaten :
      get_run
        (update_runs w.run_id (owns w.worker_instance_id w.worker_owner_kind) (beat now) runs)
        w.run_id
      ≡ some (if worker_still_owns_lease runs w then beat now r else r)
  beaten =
      get_run-update_self w.run_id (owns w.worker_instance_id w.worker_owner_kind) (beat now)
        (λ _. refl) runs found
      ∙ ap (λ b. some (if b then beat now r else r)) owns-worker_still_owns_lease

  -- A refresh succeeds exactly for the worker that still owns the lease. It then sets the heartbeat
  -- of that run and touches no other; otherwise it reports the present owner and changes nothing.
  pub refresh-worker_still_owns_lease :
      let mine = worker_still_owns_lease runs w in
      let (runs', result) = refresh_worker_heartbeat w now runs in
      (result ≡ after_beat mine now r)
      × ((k : String)
          → get_run runs' k
            ≡ (if eq_text k w.run_id && mine then some (beat now r) else get_run runs k))
  unfolding refresh_worker_heartbeat refresh_run_worker_heartbeat
  refresh-worker_still_owns_lease = (
    ground (arith, beaten, changes-worker_still_owns_lease),
    λ k. elim (text_cases k w.run_id) [
      | inl same ↦ rw (same, eq_text_self w.run_id) (beaten ∙ ground (arith, found))
      | inr other ↦ rw other (
          get_run-update_other w.run_id (owns w.worker_instance_id w.worker_owner_kind) (beat now)
            (λ _. refl) runs k other)
    ],
  )
