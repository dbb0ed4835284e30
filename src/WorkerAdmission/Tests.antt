-- ===== src/WorkerAdmission/Tests.antt =====
-- The admission of two queued runs beside a running one.
use beerengineer.Base.{
  ℕ, ◌+◌, ◌*◌, ◌≤◌, ◌<◌, String, ◌≡◌, refl, ◌⊎◌, inr, true, none, some, List, [], ◌∷◌, arith, ◌&&◌,
  Option,
}
use beerengineer.Base.Lists.{find, select, any}
use beerengineer.Base.Sorting.{sort, insert}
use beerengineer.Base.Texts.{eq_text, has}
use beerengineer.Base.Maps.{add_to}
use beerengineer.RunStore.Rows.{RunRow, has_status}
use beerengineer.RunStore.Updates.{get_run, update_runs}
use beerengineer.RunStore.Queries.{list_runs, list_running_runs}
use beerengineer.RunStore.Laws.{UniqueIds}
use beerengineer.RunStore.Samples.{fresh_run}
use beerengineer.WorkerAdmission.{
  Controller, not_finite, drain, queued_runs, launch_queued, has_capacity, active_running_count,
  pending_launch_reservations, is_reserved, finite_cap, resolve_effective_worker_cap, Number, ratio,
}
use beerengineer.WorkerAdmission.Cap.{resolve_effective_worker_cap-fits}
use beerengineer.WorkerAdmission.Capacity.{occupancy, OnlyMarksRunning, drain-occupancy}
use beerengineer.WorkerAdmission.Order.{
  LaunchedInOrder, OldestFirst, is_run, startable, drain-in_order,
}

abbrev queued_run : String → ℕ → RunRow
queued_run id at = record (fresh_run id at) { status = "queued" }

abbrev rows : List RunRow
rows = fresh_run "a" 1 ∷ queued_run "c" 9 ∷ queued_run "b" 4 ∷ []

abbrev controller : Controller
controller = record { pending = "b" ∷ "c" ∷ []; launching = []; interval = true; scheduled = 1 }

abbrev begin_run : RunRow → RunRow
begin_run r = record r { status = "running" }

begin_run-OnlyMarksRunning : OnlyMarksRunning begin_run
begin_run-OnlyMarksRunning r = (refl, inr refl)

rows-UniqueIds : UniqueIds rows
unfolding get_run find eq_text
rows-UniqueIds = (refl, (refl, (refl, tt)))

drain-occupancy_example : occupancy (drain 2 begin_run (controller, rows)) ≤ 2
unfolding active_running_count list_running_runs pending_launch_reservations select sort eq_text
drain-occupancy_example =
    drain-occupancy 2 begin_run controller rows begin_run-OnlyMarksRunning rows-UniqueIds
      (ground arith)

drain-in_order_example :
    (OldestFirst (queued_runs 2 begin_run rows)
      × (any (is_run "c") (queued_runs 2 begin_run rows)
          ≡ any (λ r. is_run "c" r && has_status r "queued") rows))
    × LaunchedInOrder 2 begin_run
        (startable 2 begin_run controller (queued_runs 2 begin_run rows))
        controller
        (drain 2 begin_run (controller, rows))
drain-in_order_example = drain-in_order 2 begin_run controller rows "c" rows-UniqueIds

-- The older of the two is launched.
drain_oldest_test : (drain 2 begin_run (controller, rows)).0.launching ≡ "b" ∷ []
unfolding drain launch_queued list_runs has_capacity active_running_count list_running_runs
    pending_launch_reservations is_reserved get_run find update_runs select sort insert eq_text has
    add_to
drain_oldest_test = refl

-- A worker of one and a half GiB.
abbrev half_steps : Option Number
half_steps = some (ratio 3221225472 1)

resolve_effective_worker_cap-fits_example :
    (17179869184 * 2
      < (resolve_effective_worker_cap 17179869184
            (some not_finite)
            none
            half_steps).effective_worker_cap
          * 3221225472
        + 3221225472)
    × (((resolve_effective_worker_cap 17179869184
            (some not_finite)
            none
            half_steps).effective_worker_cap
          ≡ 1)
        ⊎ ((resolve_effective_worker_cap 17179869184
                (some not_finite)
                none
                half_steps).effective_worker_cap
              * 3221225472
            ≤ 17179869184 * 2))
unfolding finite_cap
resolve_effective_worker_cap-fits_example =
    resolve_effective_worker_cap-fits 17179869184 (some not_finite) none half_steps refl
