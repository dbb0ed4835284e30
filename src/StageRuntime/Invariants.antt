-- ===== src/StageRuntime/Invariants.antt =====
-- What every step of a stage keeps holds when the stage ends
-- (apps/engine/src/core/stageRuntime.ts).
use beerengineer.Base.{ℕ, zero, suc, Option, none, some}
use beerengineer.StageRuntime.{
  StageRun, StageDefinition, StageAgentResponse, Next, respond, finish, raise, proceed, run_loop,
  run_stage_body, advance_stage_agent, handle_response, caught, map_next,
}

-- `P` holds before the loop goes on, and `Q` of what ends it.
abbrev pub Holds : (StageRun → StageAgentResponse → Type 0) → (Next → Type 0) → Next → Type 0
Holds P Q (respond run r) = P run r
Holds P Q (finish run result) = Q (finish run result)
Holds P Q (raise run e) = Q (raise run e)

abbrev pub Ends : (Next → Type 0) → Option Next → Type 0
Ends Q none = Unit
Ends Q (some n) = Q n

module _ (definition : StageDefinition) (P : StageRun → StageAgentResponse → Type 0)
    (Q : Next → Type 0)
    (keeps : (run : StageRun) (r : StageAgentResponse)
      → P run r
      → Holds P Q (handle_response definition run r)) where
  proceed-Ends :
      (loop : StageRun → StageAgentResponse → Option Next)
      → ((run : StageRun) (r : StageAgentResponse) → P run r → Ends Q (loop run r))
      → (n : Next) → Holds P Q n
      → Ends Q (proceed definition loop n)
  proceed-Ends loop h (respond run r) p = h run r p
  proceed-Ends loop h (finish run result) q = q
  proceed-Ends loop h (raise run e) q = q

  run_loop-Ends :
      (fuel : ℕ) (run : StageRun) (r : StageAgentResponse)
      → P run r
      → Ends Q (run_loop definition fuel run r)
  unfolding run_loop
  run_loop-Ends zero run r p = tt
  run_loop-Ends (suc fuel) run r p =
      proceed-Ends (run_loop definition fuel) (run_loop-Ends fuel)
        (handle_response definition run r) (keeps run r p)

  pub run_stage_body-Ends :
      (fuel : ℕ) (run : StageRun)
      → Holds P Q (advance_stage_agent definition run)
      → Ends Q (run_stage_body definition fuel run)
  unfolding run_stage_body
  run_stage_body-Ends fuel run h =
      proceed-Ends (run_loop definition fuel) (run_loop-Ends fuel)
        (advance_stage_agent definition run) h

pub map_next-Ends :
    (definition : StageDefinition) (Q R : Next → Type 0)
    → ((n : Next) → Q n → R (caught definition n))
    → (o : Option Next) → Ends Q o
    → Ends R (map_next definition (caught definition) o)
map_next-Ends definition Q R f none h = tt
map_next-Ends definition Q R f (some n) h = f n h
