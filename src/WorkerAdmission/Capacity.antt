-- ===== src/WorkerAdmission/Capacity.antt =====
-- The running runs and the reservations after a drain (apps/engine/src/core/workerAdmission.ts).
use beerengineer.Base.{
  ℕ, suc, ◌+◌, ◌≤◌, String, ◌≡◌, refl, ◌∙◌, ap, ◌⊎◌, inl, inr, Bool, true, false, not, Option, none,
  some, List, [], ◌∷◌, arith,
}
use beerengineer.Base.Tests.{ltb→lt, Bool-cases, if_ind}
use beerengineer.Base.Lists.{length, select, find, select-append, length-append}
use beerengineer.Base.Sorting.{length-sort}
use beerengineer.Base.Texts.{eq_text, eq_text_iff, eq_text_self, has, text_cases}
use beerengineer.Base.Maps.{add_to}
use beerengineer.RunStore.Rows.{RunRow, has_status}
use beerengineer.RunStore.Updates.{get_run, update_runs, always}
use beerengineer.RunStore.Queries.{list_running_runs, older}
use beerengineer.RunStore.Laws.{get_run-update_other, UniqueIds, update_runs-UniqueIds}
use beerengineer.WorkerAdmission.{
  Controller, active_running_count, is_reserved, is_reserved_option, pending_launch_reservations,
  has_capacity, launch, can_start, launch_queued, queued_runs, drain,
}

-- The runs at work and the launches that hold a place.
abbrev pub occupancy : Controller × List RunRow → ℕ
occupancy (c, runs) = active_running_count runs + pending_launch_reservations c runs

-- 1 if the test holds.
abbrev one_if : Bool → ℕ
one_if true = 1
one_if false = 0

abbrev running_rows : List RunRow → ℕ
running_rows [] = 0
running_rows (r ∷ runs) = one_if (has_status r "running") + running_rows runs

length-select_running :
    (runs : List RunRow) → length (select (λ r. has_status r "running") runs) ≡ running_rows runs
unfolding select
length-select_running [] = refl
length-select_running (r ∷ runs) = ground (arith, length-select_running runs)

active_running_count-rows : (runs : List RunRow) → active_running_count runs ≡ running_rows runs
unfolding active_running_count list_running_runs
active_running_count-rows runs = length-sort older _ ∙ length-select_running runs

abbrev running_option : Option RunRow → ℕ
running_option none = 0
running_option (some r) = one_if (has_status r "running")

-- What a start function may write synchronously: at most that its run is running.
abbrev pub OnlyMarksRunning : (RunRow → RunRow) → Type 0
OnlyMarksRunning begin =
    (r : RunRow)
    → ((begin r).id ≡ r.id) × (((begin r).status ≡ r.status) ⊎ ((begin r).status ≡ "running"))

module _ (begin : RunRow → RunRow) (marks : OnlyMarksRunning begin) where
  keeps : (r : RunRow) → (begin r).id ≡ r.id
  keeps r = (marks r).0

  update_of_none :
      (id : String) (runs : List RunRow)
      → get_run runs id ≡ none
      → update_runs id always begin runs ≡ runs
  unfolding get_run update_runs find
  update_of_none id [] h = refl
  update_of_none id (r ∷ runs) h = ground (arith, update_of_none id runs)

  -- A launch adds at most one running row, its own.
  running_rows-update :
      (id : String) (runs : List RunRow)
      → UniqueIds runs
      → running_rows (update_runs id always begin runs)
        ≤ running_rows runs + running_option (get_run (update_runs id always begin runs) id)
  unfolding update_runs select get_run find
  running_rows-update id [] h = omega arith
  running_rows-update id (r ∷ runs) (fresh, h) = elim (text_cases r.id id) [
    | inl e ↦
        ground
          (arith, update_of_none r.id runs fresh, eq_text_self r.id, keeps r, eq_text_iff r.id id)
    | inr e ↦ ground (arith, running_rows-update id runs h)
  ]

  reserved_or_running : (o : Option RunRow) → one_if (is_reserved_option o) + running_option o ≤ 1
  reserved_or_running none = omega arith
  reserved_or_running (some r) = elim (Bool-cases (has_status r "running")) [
    | inl e ↦ ground arith
    | inr e ↦ ground arith
  ]

  is_reserved-update_other :
      (id : String) (runs : List RunRow) (k : String)
      → eq_text k id ≡ false
      → is_reserved (update_runs id always begin runs) k ≡ is_reserved runs k
  unfolding is_reserved
  is_reserved-update_other id runs k h =
      ap is_reserved_option (get_run-update_other id always begin keeps runs k h)

  reserved-update :
      (id : String) (runs : List RunRow) (launching : List String)
      → has launching id ≡ false
      → select (is_reserved (update_runs id always begin runs)) launching
        ≡ select (is_reserved runs) launching
  unfolding select has
  reserved-update id runs [] h = refl
  reserved-update id runs (k ∷ launching) h =
      ground (arith, is_reserved-update_other id runs k, reserved-update id runs launching)

  length-select_added :
      (p : String → Bool) (ids : List String) (id : String)
      → has ids id ≡ false
      → length (select p (add_to ids id)) ≡ length (select p ids) + one_if (p id)
  unfolding add_to select
  length-select_added p ids id h =
      ground
        (arith, select-append p ids (id ∷ []), length-append (select p ids) (select p (id ∷ [])))

  -- A launch takes at most one more place.
  occupancy-launch :
      (cap : ℕ) (id : String) (c : Controller) (runs : List RunRow)
      → UniqueIds runs
      → has c.launching id ≡ false
      → occupancy (launch cap begin id (c, runs)) ≤ suc (occupancy (c, runs))
  unfolding pending_launch_reservations is_reserved
  occupancy-launch cap id c runs u h =
      let runs' = update_runs id always begin runs in
      omega (
        arith,
        active_running_count-rows runs,
        active_running_count-rows runs',
        running_rows-update id runs u,
        reserved_or_running (get_run runs' id),
        length-select_added (is_reserved runs') c.launching id h,
        ap length (reserved-update id runs c.launching h),
      )

  room_left :
      (cap : ℕ) (c : Controller) (runs : List RunRow)
      → has_capacity cap c runs ≡ true
      → suc (occupancy (c, runs)) ≤ cap
  unfolding has_capacity
  room_left cap c runs h = ltb→lt _ cap h

  launch_queued-occupancy :
      (cap : ℕ) (queued : List RunRow) (c : Controller) (runs : List RunRow)
      → UniqueIds runs
      → occupancy (c, runs) ≤ cap
      → occupancy (launch_queued cap begin queued (c, runs)) ≤ cap
  unfolding launch_queued
  launch_queued-occupancy cap [] c runs u h = h
  launch_queued-occupancy cap (r ∷ queued) c runs u h =
      if_ind (λ s. occupancy s ≤ cap) (not (has_capacity cap c runs)) (λ _. h)
        (λ room.
          if_ind (λ s. occupancy s ≤ cap) (can_start cap begin c r.id)
            (λ starts.
              launch_queued-occupancy cap queued _ _
                (update_runs-UniqueIds r.id always begin keeps runs u)
                (omega (
                  arith,
                  room_left cap c runs (ground arith),
                  occupancy-launch cap r.id c runs u (ground arith),
                )))
            (λ _. launch_queued-occupancy cap queued c runs u h))

-- A drain that begins with the running runs and reserved launches within the cap ends with them
-- within the cap, if the runs have unique ids and a start function, before it first waits, at most
-- marks its own run as running.
pub drain-occupancy :
    (cap : ℕ) (begin : RunRow → RunRow) (c : Controller) (runs : List RunRow)
    → OnlyMarksRunning begin
    → UniqueIds runs
    → occupancy (c, runs) ≤ cap
    → occupancy (drain cap begin (c, runs)) ≤ cap
unfolding drain
drain-occupancy cap begin c runs marks u h =
    launch_queued-occupancy begin marks cap (queued_runs cap begin runs) c runs u h
