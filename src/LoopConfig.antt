-- ===== src/LoopConfig.antt =====
-- The bounds of the implementation loop (apps/engine/src/core/loopConfig.ts). The names of the
-- overrides and variables already warned about, and the text on standard error, are left out.
use beerengineer.Base.{
  ℕ, zero, suc, ◌≤◌, ◌≡◌, refl, ◌⊎◌, inl, inr, Bool, true, false, Option, none, some, arith,
}
use beerengineer.Base.Tests.{leb, ltb, if◌then◌else◌}
mod Tests

pub record LoopConfig : Type 0 where
  pub max_iterations_per_cycle : ℕ
  pub max_review_cycles : ℕ

abbrev pub ralph_loop_defaults : LoopConfig
ralph_loop_defaults = record { max_iterations_per_cycle = 4; max_review_cycles = 3 }

abbrev pub ralph_loop_caps : LoopConfig
ralph_loop_caps = record { max_iterations_per_cycle = 50; max_review_cycles = 20 }

-- A number given as an override: a whole number that is not negative, or anything else.
pub data OverrideNumber : Type 0 where
  whole : ℕ → OverrideNumber
  other : OverrideNumber

-- `parsed` is what `Number.parseInt` reads in the variable's text: `none` for no text, for no number
-- and for a negative one.
abbrev pub read_positive_int_env : (parsed : Option ℕ) → ℕ → ℕ
read_positive_int_env (some (suc n)) fallback = suc n
read_positive_int_env _ fallback = fallback

abbrev pub normalize_positive_int_override : Option OverrideNumber → Option ℕ
normalize_positive_int_override (some (whole (suc n))) = some (suc n)
normalize_positive_int_override _ = none

abbrev pub clamp_with_warning : ℕ → ℕ → ℕ
clamp_with_warning value cap = if leb value cap then value else cap

abbrev pub override_or : Option ℕ → ℕ → ℕ → ℕ
override_or none cap from_env = from_env
override_or (some value) cap from_env = clamp_with_warning value cap

-- One bound: the override, else the variable, else the default, at most the cap.
unfoldable pub resolve_bound : Option OverrideNumber → Option ℕ → ℕ → ℕ → ℕ
resolve_bound override parsed default cap =
    override_or (normalize_positive_int_override override) cap
      (clamp_with_warning (read_positive_int_env parsed default) cap)

unfoldable pub resolve_ralph_loop_config :
    (override_iterations override_cycles : Option OverrideNumber)
    (env_iterations env_cycles : Option ℕ)
    → LoopConfig
unfolding resolve_bound
resolve_ralph_loop_config override_iterations override_cycles env_iterations env_cycles = record {
  max_iterations_per_cycle =
      resolve_bound override_iterations env_iterations ralph_loop_defaults.max_iterations_per_cycle
        ralph_loop_caps.max_iterations_per_cycle;
  max_review_cycles =
      resolve_bound override_cycles env_cycles ralph_loop_defaults.max_review_cycles
        ralph_loop_caps.max_review_cycles;
}

resolve_bound-bounds :
    (override : Option OverrideNumber) (parsed : Option ℕ) (default cap : ℕ)
    → 1 ≤ default
    → 1 ≤ cap
    → (1 ≤ resolve_bound override parsed default cap)
      × (resolve_bound override parsed default cap ≤ cap)
unfolding resolve_bound
resolve_bound-bounds override parsed default cap h k = ground arith

-- Whatever the overrides and the environment say, a review cycle has 1 to 50 iterations and a story
-- 1 to 20 review cycles.
pub resolve_ralph_loop_config-bounds :
    (override_iterations override_cycles : Option OverrideNumber)
    (env_iterations env_cycles : Option ℕ)
    → ((1
          ≤ (resolve_ralph_loop_config override_iterations override_cycles env_iterations
              env_cycles).max_iterations_per_cycle)
        × ((resolve_ralph_loop_config override_iterations override_cycles env_iterations
              env_cycles).max_iterations_per_cycle
            ≤ 50))
      × ((1
            ≤ (resolve_ralph_loop_config override_iterations override_cycles env_iterations
                env_cycles).max_review_cycles)
          × ((resolve_ralph_loop_config override_iterations override_cycles env_iterations
                env_cycles).max_review_cycles
              ≤ 20))
unfolding resolve_ralph_loop_config
resolve_ralph_loop_config-bounds override_iterations override_cycles env_iterations env_cycles = (
  resolve_bound-bounds override_iterations env_iterations 4 50 (omega arith) (omega arith),
  resolve_bound-bounds override_cycles env_cycles 3 20 (omega arith) (omega arith),
)
