-- ===== src/WorkerAdmission.antt =====
-- The admission of queued runs to workers (apps/engine/src/core/workerAdmission.ts).
use beerengineer.Base.{
  ℕ, zero, suc, ◌+◌, ◌*◌, ◌/◌, String, Bool, true, false, not, ◌&&◌, ◌||◌, Option, none, some, List,
  [], ◌∷◌, ◌++◌,
}
use beerengineer.Base.Tests.{ltb, leb, if◌then◌else◌, get_or}
use beerengineer.Base.Lists.{length, select}
use beerengineer.Base.Sorting.{sort}
use beerengineer.Base.Texts.{eq_text, has}
use beerengineer.Base.Maps.{add_to}
use beerengineer.RunStore.Rows.{RunRow, has_status}
use beerengineer.RunStore.Updates.{get_run, update_runs, always}
use beerengineer.RunStore.Queries.{list_runs, list_running_runs, older}
pub mod Cap
pub mod Capacity
pub mod Order
mod Tests

-- A JavaScript number: not finite, below zero, or `n / (d + 1)`. Division is exact.
pub data Number : Type 0 where
  not_finite below_zero : Number
  ratio : (n d : ℕ) → Number

pub data CapSource : Type 0 where
  override host_memory : CapSource

pub record EffectiveWorkerCapResolution : Type 0 where
  pub effective_worker_cap : ℕ
  pub source : CapSource
  pub override_cap : Option ℕ
  pub raw_derived_cap : ℕ
  pub total_memory_bytes : Option ℕ
  pub worker_memory_bytes : Option Number

abbrev pub default_worker_memory_bytes : ℕ
default_worker_memory_bytes = 4294967296

-- `Math.max(1, Math.floor(value))`.
abbrev pub at_least_one : ℕ → ℕ
at_least_one zero = 1
at_least_one (suc n) = suc n

unfoldable pub clamp_worker_cap : Number → ℕ
clamp_worker_cap (ratio n d) = at_least_one (n / suc d)
clamp_worker_cap _ = 1

unfoldable pub finite_cap : Option Number → Option ℕ
unfolding clamp_worker_cap
finite_cap none = none
finite_cap (some not_finite) = none
finite_cap (some below_zero) = some (clamp_worker_cap below_zero)
finite_cap (some (ratio n d)) = some (clamp_worker_cap (ratio n d))

-- The memory of a worker is `bytes / (parts + 1)` bytes.
pub record Memory : Type 0 where
  pub bytes : ℕ
  pub parts : ℕ

abbrev pub whole_bytes : ℕ → Memory
whole_bytes n = record { bytes = n; parts = 0 }

abbrev pub worker_memory : Option Number → Memory
worker_memory (some (ratio n d)) =
    if ltb 0 n then record { bytes = n; parts = d } else whole_bytes default_worker_memory_bytes
worker_memory _ = whole_bytes default_worker_memory_bytes

abbrev pub derived : ℕ → Memory → EffectiveWorkerCapResolution
derived total worker = record {
  effective_worker_cap = at_least_one (total * suc worker.parts / worker.bytes);
  source = host_memory;
  override_cap = none;
  raw_derived_cap = total * suc worker.parts / worker.bytes;
  total_memory_bytes = some total;
  worker_memory_bytes = some (ratio worker.bytes worker.parts);
}

abbrev pub resolved : ℕ → Option ℕ → Option Number → Option ℕ → EffectiveWorkerCapResolution
resolved totalmem total worker (some cap) = record {
  effective_worker_cap = cap;
  source = override;
  override_cap = some cap;
  raw_derived_cap = cap;
  total_memory_bytes = total;
  worker_memory_bytes = worker;
}
resolved totalmem total worker none = derived (get_or total totalmem) (worker_memory worker)

-- `totalmem` is the memory of the host, in bytes.
unfoldable pub resolve_effective_worker_cap :
    (totalmem : ℕ) (override_cap : Option Number) (total_memory_bytes : Option ℕ)
    (worker_memory_bytes : Option Number)
    → EffectiveWorkerCapResolution
unfolding finite_cap
resolve_effective_worker_cap totalmem override_cap total worker =
    resolved totalmem total worker (finite_cap override_cap)

-- The controller's state: the runs with a start function, those being launched, the reconciliation
-- interval and the drains scheduled as microtasks. The flag `draining` is never seen set, since a
-- drain does not await.
pub record Controller : Type 0 where
  pub pending : List String
  pub launching : List String
  pub interval : Bool
  pub scheduled : ℕ

unfoldable pub active_running_count : List RunRow → ℕ
active_running_count runs = length (list_running_runs runs)

abbrev pub is_reserved_row : RunRow → Bool
is_reserved_row r =
    not (has_status r "running")
    && (not (has_status r "completed")
        && (not (has_status r "failed") && not (has_status r "blocked")))

abbrev pub is_reserved_option : Option RunRow → Bool
is_reserved_option none = true
is_reserved_option (some r) = is_reserved_row r

unfoldable pub is_reserved : List RunRow → String → Bool
is_reserved runs id = is_reserved_option (get_run runs id)

unfoldable pub pending_launch_reservations : Controller → List RunRow → ℕ
pending_launch_reservations c runs = length (select (is_reserved runs) c.launching)

unfoldable pub has_capacity : ℕ → Controller → List RunRow → Bool
has_capacity cap c runs = ltb (active_running_count runs + pending_launch_reservations c runs) cap

abbrev schedule_drain : Controller → Controller
schedule_drain c = record c { scheduled = 1 + c.scheduled }

module _ (cap : ℕ) (begin : RunRow → RunRow) where
  -- `launch` up to the first `await` of `start`, in which `start` writes `begin` to the run's row.
  abbrev pub launch : String → Controller × List RunRow → Controller × List RunRow
  launch id (c, runs) =
      (record c { launching = add_to c.launching id }, update_runs id always begin runs)

  abbrev pub can_start : Controller → String → Bool
  can_start c id = not (has c.launching id) && has c.pending id

  unfoldable pub launch_queued : List RunRow → Controller × List RunRow → Controller × List RunRow
  launch_queued [] s = s
  launch_queued (r ∷ queued) (c, runs) =
      let started = launch_queued queued (launch r.id (c, runs)) in
      let skipped = launch_queued queued (c, runs) in
      if not (has_capacity cap c runs)
      then (c, runs)
      else if can_start c r.id
      then started
      else skipped

  abbrev pub queued_runs : List RunRow → List RunRow
  queued_runs runs = sort older (select (λ r. has_status r "queued") (list_runs runs))

  unfoldable pub drain : Controller × List RunRow → Controller × List RunRow
  drain (c, runs) = launch_queued (queued_runs runs) (c, runs)

  -- The `finally` of `launch`, once `start` is done.
  abbrev remove : List String → String → List String
  remove ids id = select (λ k. not (eq_text k id)) ids

  unfoldable pub finish_launch : String → Controller → Controller
  finish_launch id c =
      schedule_drain (record c { launching = remove c.launching id; pending = remove c.pending id })

  unfoldable pub enqueue : String → Controller → Controller
  enqueue id c = schedule_drain (record c { interval = true; pending = add_to c.pending id })

  unfoldable pub notify_capacity_changed : Controller → Controller
  notify_capacity_changed c = schedule_drain c

  unfoldable pub run_admitted : String → Controller × List RunRow → Controller × List RunRow
  run_admitted id s = launch id s

  unfoldable pub dispose : Controller → Controller
  dispose c = record c { interval = false }
