-- ===== src/WorkerLease/Takeover.antt =====
-- The heartbeat of a worker whose run another worker has claimed.
use beerengineer.Base.{
  ℕ, String, ◌≡◌, refl, sym, ◌∙◌, ap, ◌≢◌, true, false, some, List, [], ◌∷◌, ◌++◌, arith,
}
use beerengineer.Base.Tests.{if◌then◌else◌}
use beerengineer.Base.Texts.{eq_text_self, eq_text_ne, eq_text_iff}
use beerengineer.RunStore.Rows.{RunRow}
use beerengineer.RunStore.Updates.{
  get_run, owns, beat, refresh_run_worker_heartbeat, update_run, patch_row, always, take_lease,
  claim_run_worker_lease, has_changes,
}
use beerengineer.RunStore.Laws.{
  UniqueIds, update_runs-UniqueIds, get_run-update_self, has_changes-get_run, passes,
  update_runs_of_no_changes,
}
use beerengineer.WorkerLease.{
  WorkerLeaseIdentity, to_snapshot, worker_still_owns_lease, refresh_worker_heartbeat, lost,
  lost_ownership_reason, Summaries, Heartbeat, Tick, claim_worker_lease, after_refresh,
  fail_recoverably, tick, failed_at_run_scope, mark_worker_lease_recoverable_failure, count_failure,
  snapshot_is,
}
use beerengineer.WorkerLease.Ticks.{tick_live}

-- The row that the claim leaves.
abbrev pub claimed_row : WorkerLeaseIdentity → ℕ → RunRow → RunRow
claimed_row v now r = take_lease v.worker_instance_id v.worker_owner_kind now now r

module _ (v w : WorkerLeaseIdentity) (now : ℕ) (runs : List RunRow) {r : RunRow}
    (unique : UniqueIds runs) (same : v.run_id ≡ w.run_id) (found : get_run runs w.run_id ≡ some r)
    (other : v.worker_instance_id ≢ w.worker_instance_id) where
  abbrev claimed : List RunRow
  claimed = (claim_worker_lease v now runs).0

  claimed-UniqueIds : UniqueIds claimed
  unfolding claim_worker_lease claim_run_worker_lease
  claimed-UniqueIds =
      update_runs-UniqueIds v.run_id always (claimed_row v now) (λ _. refl) runs unique

  get_run-claimed : get_run claimed w.run_id ≡ some (claimed_row v now r)
  unfolding claim_worker_lease claim_run_worker_lease
  get_run-claimed =
      ap (λ k. get_run claimed k) (sym same)
      ∙ get_run-update_self v.run_id always (claimed_row v now) (λ _. refl) runs
          (ap (get_run runs) same ∙ found)

  not_mine : has_changes w.run_id (owns w.worker_instance_id w.worker_owner_kind) claimed ≡ false
  not_mine =
      has_changes-get_run w.run_id (owns w.worker_instance_id w.worker_owner_kind) claimed
        claimed-UniqueIds
      ∙ ap (passes (owns w.worker_instance_id w.worker_owner_kind)) get_run-claimed
      ∙ ground (arith, eq_text_ne v.worker_instance_id w.worker_instance_id other)

  refresh_lost :
      (at : ℕ)
      → refresh_worker_heartbeat w at claimed
        ≡ (claimed, lost (to_snapshot (some (claimed_row v now r))))
  unfolding refresh_worker_heartbeat refresh_run_worker_heartbeat
  refresh_lost at =
      let unchanged =
        update_runs_of_no_changes w.run_id (owns w.worker_instance_id w.worker_owner_kind) (beat at)
          claimed not_mine in
      rw (unchanged, not_mine, get_run-claimed)

  marked_row :
      (summary : String) (at : ℕ)
      → r.status ≡ "running"
      → get_run (mark_worker_lease_recoverable_failure w.run_id summary at claimed) w.run_id
        ≡ some (patch_row (failed_at_run_scope summary) at (claimed_row v now r))
  unfolding mark_worker_lease_recoverable_failure update_run
  marked_row summary at running =
      rw (get_run-claimed, (eq_text_iff r.status "running").1 running)
        (get_run-update_self w.run_id always (patch_row (failed_at_run_scope summary) at)
          (λ _. refl) claimed get_run-claimed)

  lost_tick :
      (texts : Summaries) (limit : ℕ) (t : Tick) (s : Heartbeat)
      → t.refresh_throws ≡ false
      → t.mark_throws ≡ false
      → s.stopped ≡ false
      → s.runs ≡ claimed
      → tick texts limit w t s ≡ record s {
        stopped = true;
        fatal = s.fatal ++ lost_ownership_reason ∷ [];
        runs = mark_worker_lease_recoverable_failure w.run_id texts.lost_summary t.now claimed;
      }
  unfolding after_refresh fail_recoverably
  lost_tick texts limit t s works marks live at_claim =
      tick_live texts limit w t s live
      ∙ ap
          (λ b.
            if b
            then count_failure texts limit w t s
            else after_refresh texts limit w t s (refresh_worker_heartbeat w t.now s.runs))
          works
      ∙ ap (λ a. after_refresh texts limit w t s (refresh_worker_heartbeat w t.now a)) at_claim
      ∙ ap (after_refresh texts limit w t s) (refresh_lost t.now)
      ∙ ground (arith, marks)

  -- Another worker has claimed the running run of this worker. The next tick of this worker stops its
  -- heartbeat, reports the lost ownership once, and marks the run as failed with the summary of the
  -- loss; the lease stays with the claimer. The database calls of the tick do not throw.
  pub tick-claimed :
      (texts : Summaries) (limit : ℕ) (t : Tick) (s : Heartbeat)
      → r.status ≡ "running"
      → v.worker_instance_id ≢ ""
      → t.refresh_throws ≡ false
      → t.mark_throws ≡ false
      → s.stopped ≡ false
      → s.runs ≡ claimed
      → let s' = tick texts limit w t s in
        (s'.stopped ≡ true)
        × (s'.fatal ≡ s.fatal ++ lost_ownership_reason ∷ [])
        × (get_run s'.runs w.run_id
            ≡ some (patch_row (failed_at_run_scope texts.lost_summary) t.now (claimed_row v now r)))
        × (worker_still_owns_lease s'.runs v ≡ true)
  unfolding worker_still_owns_lease
  tick-claimed texts limit t s running named works marks live at_claim =
      let e = lost_tick texts limit t s works marks live at_claim in
      let row = marked_row texts.lost_summary t.now running in
      (
        ap (λ a. a.stopped) e,
        ap (λ a. a.fatal) e,
        ap (λ a. get_run a.runs w.run_id) e ∙ row,
        ap (λ a. snapshot_is v (to_snapshot (get_run a.runs v.run_id))) e
            ∙ ap
                (λ k. snapshot_is v (
                  to_snapshot (
                    get_run
                      (mark_worker_lease_recoverable_failure w.run_id texts.lost_summary t.now
                        claimed)
                      k)))
                same
            ∙ ap (λ o. snapshot_is v (to_snapshot o)) row
            ∙ owner,
      )
    where
      owner :
          snapshot_is v (
            to_snapshot (
              some
                (patch_row (failed_at_run_scope texts.lost_summary) t.now (claimed_row v now r))))
          ≡ true
      owner =
          ground
            (arith, eq_text_ne v.worker_instance_id "" named, eq_text_self v.worker_instance_id)
