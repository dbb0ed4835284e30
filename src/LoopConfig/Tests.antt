-- ===== src/LoopConfig/Tests.antt =====
-- An override above its cap, and a variable that is no number.
use beerengineer.Base.{◌≤◌, none, some}
use beerengineer.LoopConfig.{whole, resolve_ralph_loop_config, resolve_ralph_loop_config-bounds}

resolve_ralph_loop_config-bounds_example :
    ((1
        ≤ (resolve_ralph_loop_config
            (some (whole 99999))
            none
            none
            (some 7)).max_iterations_per_cycle)
      × ((resolve_ralph_loop_config
            (some (whole 99999))
            none
            none
            (some 7)).max_iterations_per_cycle
          ≤ 50))
    × ((1 ≤ (resolve_ralph_loop_config (some (whole 99999)) none none (some 7)).max_review_cycles)
        × ((resolve_ralph_loop_config (some (whole 99999)) none none (some 7)).max_review_cycles
            ≤ 20))
resolve_ralph_loop_config-bounds_example =
    resolve_ralph_loop_config-bounds (some (whole 99999)) none none (some 7)
