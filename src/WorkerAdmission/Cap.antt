-- ===== src/WorkerAdmission/Cap.antt =====
-- The number of workers that `resolveEffectiveWorkerCap` allows
-- (apps/engine/src/core/workerAdmission.ts).
use native.Mathlib.Nat.{div-mul-le_self, lt-div-mul-add}
use beerengineer.Base.{
  ℕ, zero, suc, ◌+◌, ◌*◌, ◌/◌, ◌≤◌, ◌<◌, ◌≡◌, refl, ◌⊎◌, inl, inr, Option, none, some, arith,
}
use beerengineer.Base.Tests.{get_or}
use beerengineer.WorkerAdmission.{
  Number, not_finite, below_zero, ratio, resolve_effective_worker_cap, worker_memory, finite_cap,
  at_least_one, clamp_worker_cap,
}

worker_memory-positive : (worker : Option Number) → 0 < (worker_memory worker).bytes
worker_memory-positive none = omega arith
worker_memory-positive (some not_finite) = omega arith
worker_memory-positive (some below_zero) = omega arith
worker_memory-positive (some (ratio n d)) = ground arith

at_least_one-fits :
    (total worker q : ℕ)
    → q * worker ≤ total
    → total < q * worker + worker
    → (total < at_least_one q * worker + worker)
      × ((at_least_one q ≡ 1) ⊎ (at_least_one q * worker ≤ total))
at_least_one-fits total worker zero h k = (omega arith, inl refl)
at_least_one-fits total worker (suc q) h k = (k, inr h)

-- The cap is at least 1, whatever it is resolved from.
pub resolve_effective_worker_cap-positive :
    (totalmem : ℕ) (override_cap : Option Number) (total : Option ℕ) (worker : Option Number)
    → 1 ≤ (resolve_effective_worker_cap totalmem override_cap total worker).effective_worker_cap
unfolding resolve_effective_worker_cap finite_cap clamp_worker_cap
resolve_effective_worker_cap-positive totalmem none total worker = ground arith
resolve_effective_worker_cap-positive totalmem (some not_finite) total worker = ground arith
resolve_effective_worker_cap-positive totalmem (some below_zero) total worker = ground arith
resolve_effective_worker_cap-positive totalmem (some (ratio n d)) total worker = ground arith

-- Without a finite override the cap is the largest number of workers whose memory fits in the
-- host's, or 1 if not even one fits. The memory of a worker is `bytes / (parts + 1)` bytes, so a
-- fraction of a byte is taken as it is.
pub resolve_effective_worker_cap-fits :
    (totalmem : ℕ) (override_cap : Option Number) (total : Option ℕ) (worker : Option Number)
    → finite_cap override_cap ≡ none
    → (get_or total totalmem * suc (worker_memory worker).parts
        < (resolve_effective_worker_cap totalmem override_cap total worker).effective_worker_cap
            * (worker_memory worker).bytes
          + (worker_memory worker).bytes)
      × (((resolve_effective_worker_cap totalmem override_cap total worker).effective_worker_cap
            ≡ 1)
          ⊎ ((resolve_effective_worker_cap totalmem override_cap total worker).effective_worker_cap
                * (worker_memory worker).bytes
              ≤ get_or total totalmem * suc (worker_memory worker).parts))
unfolding resolve_effective_worker_cap
resolve_effective_worker_cap-fits totalmem override_cap total worker h = rw h (
    at_least_one-fits (get_or total totalmem * suc (worker_memory worker).parts)
      (worker_memory worker).bytes
      (get_or total totalmem * suc (worker_memory worker).parts / (worker_memory worker).bytes)
      (div-mul-le_self (get_or total totalmem * suc (worker_memory worker).parts)
        (worker_memory worker).bytes)
      (lt-div-mul-add {a = get_or total totalmem * suc (worker_memory worker).parts}
        (worker_memory-positive worker)))
