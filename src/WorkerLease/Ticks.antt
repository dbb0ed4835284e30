-- ===== src/WorkerLease/Ticks.antt =====
-- The heartbeat loop over any sequence of ticks (apps/engine/src/core/workerLease.ts).
use beerengineer.Base.{
  ℕ, zero, suc, ◌+◌, ◌-◌, ◌≤◌, ◌<◌, ◌≡◌, refl, sym, ◌∙◌, ap, subst, Bool, true, false, ◌&&◌, ◌||◌,
  some, List, [], ◌∷◌, arith, inl, inr, ◌⊎◌,
}
use beerengineer.Base.Tests.{if◌then◌else◌, leb, if_ind, Bool-cases}
use beerengineer.Base.Lists.{All}
use beerengineer.Base.Texts.{eq_text_self}
use beerengineer.RunStore.Rows.{RunRow}
use beerengineer.RunStore.Updates.{get_run, owns, beat, refresh_run_worker_heartbeat}
use beerengineer.RunStore.Laws.{UniqueIds, update_runs-UniqueIds}
use beerengineer.WorkerLease.{
  WorkerLeaseIdentity, worker_still_owns_lease, refresh_worker_heartbeat, renewed, lost,
  HeartbeatResult, FatalReason, Summaries, Heartbeat, Tick, start_heartbeat, count_failure,
  after_refresh, tick, ticks,
}
use beerengineer.WorkerLease.Ownership.{
  IsWhole, after_beat, refresh-worker_still_owns_lease, owns-worker_still_owns_lease,
}

-- `onFatal` was called once if the loop has stopped by itself, else not at all.
abbrev pub CalledFatalOnce : Heartbeat → Type 0
CalledFatalOnce s =
    ((s.stopped ≡ false) × (s.fatal ≡ []))
    ⊎ ((s.stopped ≡ true) × ((reason : FatalReason) × (s.fatal ≡ reason ∷ [])))

module _ (texts : Summaries) (limit : ℕ) (w : WorkerLeaseIdentity) where
  pub tick_live :
      (t : Tick) (s : Heartbeat)
      → s.stopped ≡ false
      → tick texts limit w t s ≡ (
          if t.refresh_throws
          then count_failure texts limit w t s
          else after_refresh texts limit w t s (refresh_worker_heartbeat w t.now s.runs))
  unfolding tick
  tick_live t s live = ground arith

  tick_stopped : (t : Tick) (s : Heartbeat) → s.stopped ≡ true → tick texts limit w t s ≡ s
  unfolding tick
  tick_stopped t s dead = ground arith

  module _ (t : Tick) (s : Heartbeat) (live : s.stopped ≡ false) (uncalled : s.fatal ≡ []) where
    count_failure-CalledFatalOnce : CalledFatalOnce (count_failure texts limit w t s)
    unfolding count_failure
    count_failure-CalledFatalOnce = ground arith

    after_refresh-CalledFatalOnce :
        (r : List RunRow × HeartbeatResult) → CalledFatalOnce (after_refresh texts limit w t s r)
    unfolding after_refresh count_failure
    after_refresh-CalledFatalOnce (runs', renewed r) = ground arith
    after_refresh-CalledFatalOnce (runs', lost _) = ground arith

  tick-CalledFatalOnce :
      (t : Tick) (s : Heartbeat) → CalledFatalOnce s → CalledFatalOnce (tick texts limit w t s)
  tick-CalledFatalOnce t s (inl (live, uncalled)) = rw (tick_live t s live) (
      if_ind CalledFatalOnce t.refresh_throws (λ _. count_failure-CalledFatalOnce t s live uncalled)
        (λ _. after_refresh-CalledFatalOnce t s live uncalled _))
  tick-CalledFatalOnce t s (inr h) = rw (tick_stopped t s h.0) (inr h)

  ticks-CalledFatalOnce_from :
      (ts : List Tick) (s : Heartbeat)
      → CalledFatalOnce s
      → CalledFatalOnce (ticks texts limit w ts s)
  unfolding ticks
  ticks-CalledFatalOnce_from [] s h = h
  ticks-CalledFatalOnce_from (t ∷ ts) s h =
      ticks-CalledFatalOnce_from ts (tick texts limit w t s) (tick-CalledFatalOnce t s h)

  -- Whatever the database does at each tick, `onFatal` is called exactly once if the loop stops by
  -- itself and never otherwise.
  pub ticks-CalledFatalOnce :
      (ts : List Tick) (runs : List RunRow)
      → CalledFatalOnce (ticks texts limit w ts (start_heartbeat runs))
  ticks-CalledFatalOnce ts runs =
      ticks-CalledFatalOnce_from ts (start_heartbeat runs) (inl (refl, refl))

-- The first `n` ticks of a list throw; some `n` ticks in a row throw.
abbrev pub throws_first : ℕ → List Tick → Bool
throws_first zero ts = true
throws_first (suc n) [] = false
throws_first (suc n) (t ∷ ts) = t.refresh_throws && throws_first n ts

abbrev pub throws_in_a_row : ℕ → List Tick → Bool
throws_in_a_row n [] = throws_first n []
throws_in_a_row n (t ∷ ts) = throws_first n (t ∷ ts) || throws_in_a_row n ts

-- The worker has the lease, in a table whose ids are unique.
pub record HoldsLease (w : WorkerLeaseIdentity) (runs : List RunRow) : Type 0 where
  pub row : RunRow
  pub unique : UniqueIds runs
  pub found : get_run runs w.run_id ≡ some row
  pub whole : IsWhole row
  pub held : worker_still_owns_lease runs w ≡ true

IsWhole-beat : (now : ℕ) (r : RunRow) → IsWhole r → IsWhole (beat now r)
IsWhole-beat now r (inl (s, e)) = inl (record s { heartbeat_at = now }, ground arith)
IsWhole-beat now r (inr e) = inr e

module _ (w : WorkerLeaseIdentity) (now : ℕ) (runs : List RunRow) (h : HoldsLease w runs) where
  held_refresh :
      ((refresh_worker_heartbeat w now runs).1 ≡ renewed (beat now h.row))
      × (get_run (refresh_worker_heartbeat w now runs).0 w.run_id ≡ some (beat now h.row))
  held_refresh =
      let (result, lookup) = refresh-worker_still_owns_lease w now runs h.unique h.found h.whole in
      (
        result ∙ ap (λ b. after_beat b now h.row) h.held,
        lookup w.run_id ∙ ground (arith, eq_text_self w.run_id, h.held),
      )

  refresh-HoldsLease : HoldsLease w (refresh_worker_heartbeat w now runs).0
  unfolding refresh_worker_heartbeat refresh_run_worker_heartbeat
  refresh-HoldsLease = record {
    row = beat now h.row;
    unique =
        update_runs-UniqueIds w.run_id (owns w.worker_instance_id w.worker_owner_kind) (beat now)
          (λ _. refl) runs h.unique;
    found = held_refresh.1;
    whole = IsWhole-beat now h.row h.whole;
    held =
        sym (
          owns-worker_still_owns_lease w now _
            (update_runs-UniqueIds w.run_id (owns w.worker_instance_id w.worker_owner_kind)
              (beat now) (λ _. refl) runs h.unique)
            held_refresh.1 (IsWhole-beat now h.row h.whole))
        ∙ owns-worker_still_owns_lease w now runs h.unique h.found h.whole
        ∙ h.held;
  }

throws_first_mono :
    (m n : ℕ) (ts : List Tick) → m ≤ n → throws_first n ts ≡ true → throws_first m ts ≡ true
throws_first_mono zero n ts h e = refl
throws_first_mono (suc m) zero ts h e = absurd (omega arith)
throws_first_mono (suc m) (suc n) [] h e = e
throws_first_mono (suc m) (suc n) (t ∷ ts) h e =
    ground (arith, throws_first_mono m n ts (omega arith))

throws_first_absorb :
    (n : ℕ) (ts : List Tick) → (throws_first n ts || throws_in_a_row n ts) ≡ throws_in_a_row n ts
throws_first_absorb n [] = ground arith
throws_first_absorb n (t ∷ ts) = ground arith

throws_first_nil : (n : ℕ) → 0 < n → throws_first n [] ≡ false
throws_first_nil zero h = absurd (omega arith)
throws_first_nil (suc n) h = refl

throws_first_works :
    (n : ℕ) (t : Tick) (ts : List Tick)
    → 0 < n
    → t.refresh_throws ≡ false
    → throws_first n (t ∷ ts) ≡ false
throws_first_works zero t ts h e = absurd (omega arith)
throws_first_works (suc n) t ts h e = ground (arith, e)

-- A longer run of failures from here is also a shorter one.
throws_first_shorter :
    (k n : ℕ) (t : Tick) (ts : List Tick) (rest : Bool)
    → k < n
    → (throws_first k ts || (throws_first n (t ∷ ts) || rest)) ≡ (throws_first k ts || rest)
throws_first_shorter k zero t ts rest h = absurd (omega arith)
throws_first_shorter k (suc n) t ts rest h = ground (arith, throws_first_mono k n ts (omega arith))

-- A tick of a worker that holds the lease: a failure counts one, a success resets the count.
module _ (texts : Summaries) (limit : ℕ) (w : WorkerLeaseIdentity) where
  after_renewed :
      (t : Tick) (s : Heartbeat) (p : List RunRow × HeartbeatResult) (r : RunRow)
      → p.1 ≡ renewed r
      → after_refresh texts limit w t s p ≡ record s { consecutive_failures = 0; runs = p.0 }
  unfolding after_refresh
  after_renewed t s (runs', renewed _) r e = refl
  after_renewed t s (runs', lost _) r e = cc

  tick_ok :
      (t : Tick) (s : Heartbeat) (h : HoldsLease w s.runs)
      → s.stopped ≡ false
      → t.refresh_throws ≡ false
      → tick texts limit w t s
        ≡ record s { consecutive_failures = 0; runs = (refresh_worker_heartbeat w t.now s.runs).0 }
  tick_ok t s h live works =
      tick_live texts limit w t s live
      ∙ ground (
        arith,
        works,
        after_renewed t s (refresh_worker_heartbeat w t.now s.runs) (beat t.now h.row),
        (held_refresh w t.now s.runs h).0,
      )

  tick_throws :
      (t : Tick) (s : Heartbeat)
      → s.stopped ≡ false
      → t.refresh_throws ≡ true
      → t.mark_throws ≡ false
      → ((tick texts limit w t s).stopped ≡ leb limit (s.consecutive_failures + 1))
        × ((tick texts limit w t s).consecutive_failures ≡ s.consecutive_failures + 1)
        × (leb limit (s.consecutive_failures + 1) ≡ false → (tick texts limit w t s).runs ≡ s.runs)
  unfolding count_failure
  tick_throws t s live throws marks = rw (tick_live texts limit w t s live) (ground arith)

  ticks_stopped : (ts : List Tick) (s : Heartbeat) → s.stopped ≡ true → ticks texts limit w ts s ≡ s
  unfolding ticks
  ticks_stopped [] s h = refl
  ticks_stopped (t ∷ ts) s h = rw (tick_stopped texts limit w t s h) (ticks_stopped ts s h)

  row_works :
      (n k : ℕ) (t : Tick) (ts : List Tick)
      → t.refresh_throws ≡ false
      → limit ≡ suc n
      → (throws_first (suc n) ts || throws_in_a_row limit ts)
        ≡ (throws_first (suc k) (t ∷ ts) || throws_in_a_row limit (t ∷ ts))
  row_works n k t ts works e = ground (
    arith,
    throws_first_works (suc k) t ts (omega arith) works,
    throws_first_works limit t ts (omega (arith, e)) works,
    throws_first_absorb limit ts,
  )

  ticks-stopped_from :
      (ts : List Tick) (s : Heartbeat) (k : ℕ)
      → All (λ t. t.mark_throws ≡ false) ts
      → HoldsLease w s.runs
      → s.stopped ≡ false
      → limit ≡ s.consecutive_failures + suc k
      → (ticks texts limit w ts s).stopped ≡ (throws_first (suc k) ts || throws_in_a_row limit ts)
  unfolding ticks
  ticks-stopped_from [] s k marks h live e = live ∙ sym (throws_first_nil limit (omega (arith, e)))
  ticks-stopped_from (t ∷ ts) s zero (marked, marks) h live e = elim (Bool-cases t.refresh_throws) [
    | inl throws ↦
        let (stops, counts, keeps) = tick_throws t s live throws marked in
        let dead : (tick texts limit w t s).stopped ≡ true = stops ∙ ground (arith, e) in
        ap (λ a. a.stopped) (ticks_stopped ts (tick texts limit w t s) dead)
        ∙ dead
        ∙ ground (arith, throws)
    | inr works ↦
        ap (λ a. (ticks texts limit w ts a).stopped) (tick_ok t s h live works)
        ∙ ticks-stopped_from ts _ s.consecutive_failures marks (refresh-HoldsLease w t.now s.runs h)
            live (omega (arith, e))
        ∙ row_works s.consecutive_failures zero t ts works (omega (arith, e))
  ]
  ticks-stopped_from (t ∷ ts) s (suc k) (marked, marks) h live e =
      elim (Bool-cases t.refresh_throws) [
        | inl throws ↦
            let (stops, counts, keeps) = tick_throws t s live throws marked in
            ticks-stopped_from ts (tick texts limit w t s) k marks
              (subst (HoldsLease w) (sym (keeps (ground (arith, e)))) h) (stops ∙ ground (arith, e))
              (omega (arith, counts, e))
            ∙ ground (
              arith,
              throws,
              throws_first_shorter (suc k) limit t ts (throws_in_a_row limit ts) (omega (arith, e)),
            )
        | inr works ↦
            ap (λ a. (ticks texts limit w ts a).stopped) (tick_ok t s h live works)
            ∙ ticks-stopped_from ts _ (s.consecutive_failures + suc k) marks
                (refresh-HoldsLease w t.now s.runs h) live (omega (arith, e))
            ∙ row_works (s.consecutive_failures + suc k) (suc k) t ts works (omega (arith, e))
      ]

  -- A worker that holds its lease gives up exactly when `limit` refreshes in a row throw, as long as
  -- the write of the failure itself does not throw.
  pub ticks-stopped :
      (ts : List Tick) (runs : List RunRow)
      → 0 < limit
      → HoldsLease w runs
      → All (λ t. t.mark_throws ≡ false) ts
      → (ticks texts limit w ts (start_heartbeat runs)).stopped ≡ throws_in_a_row limit ts
  ticks-stopped ts runs positive h marks =
      ticks-stopped_from ts (start_heartbeat runs) (limit - 1) marks h refl (omega arith)
      ∙ ground (arith, throws_first_absorb limit ts, same)
    where
      same : suc (limit - 1) ≡ limit
      same = omega arith
