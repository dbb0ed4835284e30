-- ===== src/StageRuntime/Fuel.antt =====
-- How much fuel the loop of a stage needs (apps/engine/src/core/stageRuntime.ts).
use beerengineer.Base.{
  ℕ, zero, suc, ◌+◌, ◌-◌, ◌≤◌, ◌<◌, String, ◌≡◌, refl, inl, inr, Bool, true, false, Option, none,
  some, arith,
}
use beerengineer.Base.Tests.{leb, if_ind, Bool-cases, is_some}
use beerengineer.StageRuntime.{
  StageRun, StageDefinition, StageAgentResponse, Next, respond, finish, raise, proceed, run_loop,
  run_stage_body, run_stage, advance_stage_agent, handle_response, set_status, chat_in_progress,
  create_stage_run, caught, map_next, continue_stage_after_user_message, request_revision,
  handle_review_outcome, message, artifact_response, ask, calling, Call, returns, throws, Answer,
  no_answer, answer, Review, pass, block, revise, advanced, after_answer, answered, approved_with,
  reviewed, persisted, count_prior_identical_stage_prompts, max_identical_stage_prompts,
  under_review, ready,
}
use beerengineer.StageRuntime.Outcome.{allowed_reviews, allowed_reviews-le, allowed_positive}

abbrev pub is_message : StageAgentResponse → Bool
is_message (message _) = true
is_message (artifact_response _) = false

abbrev pub calls_message : Call StageAgentResponse → Bool
calls_message (returns r) = is_message r
calls_message (throws _) = false

-- From its turn `m` on the agent asks nothing more.
abbrev pub IsQuietFrom : StageDefinition → ℕ → Type 0
IsQuietFrom definition m =
    (run : StageRun) → m ≤ run.stage_agent_turn_count → calls_message (definition.step run) ≡ false

module _ (definition : StageDefinition) (m : ℕ) (quiet : IsQuietFrom definition m) where
  abbrev limit : ℕ
  limit = allowed_reviews definition.max_reviews

  -- The questions and the reviews that may still come.
  abbrev rounds : StageRun → ℕ
  rounds run = (suc m - run.stage_agent_turn_count) + (limit - run.review_iteration)

  abbrev Ready : StageRun → StageAgentResponse → Type 0
  Ready run r =
      (run.review_iteration < limit) × (is_message r ≡ true → run.stage_agent_turn_count ≤ m)

  -- A step that goes on leaves fewer rounds than `b`.
  abbrev Closer : ℕ → Next → Type 0
  Closer b (respond run r) = Ready run r × (rounds run < b)
  Closer b (finish _ _) = Unit
  Closer b (raise _ _) = Unit

  advanced-Closer :
      (b : ℕ) (run : StageRun) (c : Call StageAgentResponse)
      → run.review_iteration < limit
      → (m - run.stage_agent_turn_count) + (limit - run.review_iteration) < b
      → (m ≤ run.stage_agent_turn_count → calls_message c ≡ false)
      → Closer b (advanced definition run c)
  advanced-Closer b run (throws e) h k q = tt
  advanced-Closer b run (returns r) h k q = (
    (
      h,
      λ asks. elim (Bool-cases (leb m run.stage_agent_turn_count)) [
        | inl e ↦ absurd (ground (arith, q (ground arith)))
        | inr e ↦ ground arith
      ],
    ),
    omega arith,
  )

  advance-Closer :
      (b : ℕ) (run : StageRun)
      → run.review_iteration < limit
      → (m - run.stage_agent_turn_count) + (limit - run.review_iteration) < b
      → Closer b (advance_stage_agent definition run)
  unfolding advance_stage_agent
  advance-Closer b run h k = advanced-Closer b run (definition.step run) h k (quiet run)

  after_answer-Closer :
      (b : ℕ) (run : StageRun) (text : String) (c : Call Answer)
      → run.review_iteration < limit
      → (m - run.stage_agent_turn_count) + (limit - run.review_iteration) < b
      → Closer b (after_answer definition run text c)
  after_answer-Closer b run text (throws e) h k = tt
  after_answer-Closer b run text (returns no_answer) h k = tt
  after_answer-Closer b run text (returns (answer reply)) h k =
      advance-Closer b (answered definition run reply) h k

  continue-Closer :
      (b : ℕ) (run : StageRun) (text : String)
      → run.review_iteration < limit
      → (m - run.stage_agent_turn_count) + (limit - run.review_iteration) < b
      → Closer b (continue_stage_after_user_message definition run text)
  unfolding continue_stage_after_user_message
  continue-Closer b run text h k =
      if_ind (Closer b)
        (leb max_identical_stage_prompts (count_prior_identical_stage_prompts run text)) (λ _. tt)
        (λ _.
          after_answer-Closer b (calling definition (ask definition run text) text) text
            (definition.ask_user text _) h k)

  request-Closer :
      (b : ℕ) (run : StageRun) (feedback : String)
      → (m - run.stage_agent_turn_count) + (limit - run.review_iteration) < b
      → Closer b (request_revision definition run feedback)
  unfolding request_revision
  request-Closer b run feedback k =
      if_ind (Closer b) (leb definition.max_reviews run.review_iteration) (λ _. tt)
        (λ more. advance-Closer b _ (ground (arith, allowed_reviews-le definition.max_reviews)) k)

  approved-Closer :
      (b : ℕ) (run : StageRun) (c : Call String) → Closer b (approved_with definition run c)
  approved-Closer b run (returns result) = tt
  approved-Closer b run (throws e) = tt

  reviewed-Closer :
      (b : ℕ) (run : StageRun) (a : String) (c : Call Review)
      → (m - run.stage_agent_turn_count) + (limit - run.review_iteration) < b
      → Closer b (reviewed definition run a c)
  unfolding handle_review_outcome
  reviewed-Closer b run a (throws e) k = tt
  reviewed-Closer b run a (returns pass) k = approved-Closer b _ (definition.on_approved a _)
  reviewed-Closer b run a (returns (block why)) k = tt
  reviewed-Closer b run a (returns (revise feedback)) k = request-Closer b run feedback k

  persisted-Closer :
      (b : ℕ) (run : StageRun) (a : String) (c : Call Bool)
      → (m - run.stage_agent_turn_count) + (limit - suc run.review_iteration) < b
      → Closer b (persisted definition run a c)
  persisted-Closer b run a (throws e) k = tt
  persisted-Closer b run a (returns _) k =
      reviewed-Closer b (under_review definition run) a (definition.review a _) k

  handle-Closer :
      (run : StageRun) (r : StageAgentResponse)
      → Ready run r
      → Closer (rounds run) (handle_response definition run r)
  unfolding handle_response
  handle-Closer run (message text) (h, asks) =
      let early : run.stage_agent_turn_count ≤ m = asks refl in
      continue-Closer (rounds run) run text h (omega arith)
  handle-Closer run (artifact_response a) (h, asks) =
      persisted-Closer (rounds run) (ready definition run a) a (definition.persist_artifacts a _)
        (omega arith)

  proceed-some :
      (b fuel : ℕ) (n : Next)
      → ((run : StageRun) (r : StageAgentResponse)
          → Ready run r
          → rounds run ≤ fuel
          → is_some (run_loop definition fuel run r) ≡ true)
      → b ≤ suc fuel
      → Closer b n
      → is_some (proceed definition (run_loop definition fuel) n) ≡ true
  proceed-some b fuel (respond run r) loop h (ready_, k) = loop run r ready_ (omega arith)
  proceed-some b fuel (finish run result) loop h k = refl
  proceed-some b fuel (raise run e) loop h k = refl

  run_loop-some :
      (fuel : ℕ) (run : StageRun) (r : StageAgentResponse)
      → Ready run r
      → rounds run ≤ fuel
      → is_some (run_loop definition fuel run r) ≡ true
  unfolding run_loop
  run_loop-some zero run r (h, _) k = absurd (omega arith)
  run_loop-some (suc fuel) run r h k =
      proceed-some (rounds run) fuel (handle_response definition run r) (run_loop-some fuel) k
        (handle-Closer run r h)

is_some-map_next :
    (definition : StageDefinition) (o : Option Next)
    → is_some o ≡ true
    → is_some (map_next definition (caught definition) o) ≡ true
is_some-map_next definition none h = h
is_some-map_next definition (some n) h = refl

-- A stage whose agent asks nothing more from its turn `m` on ends, within `m` rounds and the rounds of
-- review that `maxReviews` allows (one, if that is 0), which the fuel must cover.
pub run_stage_ends :
    (definition : StageDefinition) (m fuel : ℕ)
    → IsQuietFrom definition m
    → m + allowed_reviews definition.max_reviews ≤ fuel
    → is_some (run_stage definition fuel) ≡ true
unfolding run_stage run_stage_body
run_stage_ends definition m fuel quiet h = is_some-map_next definition _ (
    proceed-some definition m quiet (suc fuel) fuel _ (run_loop-some definition m quiet fuel)
      (omega arith)
      (advance-Closer definition m quiet (suc fuel) (set_status chat_in_progress create_stage_run)
        (allowed_positive definition.max_reviews) (omega arith)))
