-- ===== src/StageRuntime/Outcome.antt =====
-- How a stage ends: its status, its recovery record and its reviews
-- (apps/engine/src/core/stageRuntime.ts).
use beerengineer.Base.{
  ℕ, zero, suc, ◌≤◌, String, ◌≡◌, refl, ap, ◌⊎◌, inl, inr, Bool, true, false, [], ◌∷◌, arith,
}
use beerengineer.Base.Tests.{leb, if_ind}
use beerengineer.StageRuntime.{
  StageRun, blocked, failed, approved, StageDefinition, StageAgentResponse, Thrown, Next, respond,
  finish, raise, run_stage, RecoveryCause, advance_stage_agent, handle_response, set_status,
  chat_in_progress, create_stage_run, caught, continue_stage_after_user_message, request_revision,
  handle_review_outcome, message, artifact_response, ask, calling, Call, returns, throws, Answer,
  no_answer, answer, Review, pass, block, revise, advanced, after_answer, answered, approved_with,
  reviewed, persisted, workflow_cancelled, blocked_run, port_pool_exhausted, error, has_ended,
  count_prior_identical_stage_prompts, max_identical_stage_prompts, record_stage_blocked,
  under_review, ready,
}
use beerengineer.StageRuntime.Invariants.{Holds, Ends, run_stage_body-Ends, map_next-Ends}

-- The number of reviews that `maxReviews` allows: the first review is always made.
abbrev pub allowed_reviews : ℕ → ℕ
allowed_reviews zero = 1
allowed_reviews (suc n) = suc n

pub allowed_positive : (n : ℕ) → 1 ≤ allowed_reviews n
allowed_positive zero = omega arith
allowed_positive (suc n) = omega arith

pub allowed_reviews-le : (n : ℕ) → n ≤ allowed_reviews n
allowed_reviews-le zero = omega arith
allowed_reviews-le (suc n) = omega arith

abbrev pub OneRecovery : StageRun → Type 0
OneRecovery run = (c : RecoveryCause) × (run.recoveries ≡ c ∷ [])

module _ (definition : StageDefinition) where
  -- Nothing has been recorded, the stage goes on, and `n` reviews are within the limit.
  abbrev Going : ℕ → StageRun → Type 0
  Going n run =
      (n ≤ allowed_reviews definition.max_reviews)
      × ((run.recoveries ≡ []) × (has_ended definition run.status ≡ false))

  abbrev P : StageRun → StageAgentResponse → Type 0
  P run r = Going (suc run.review_iteration) run

  abbrev Q : Next → Type 0
  Q (respond run r) = ⊥
  Q (finish run result) = Going run.review_iteration run × (run.status ≡ approved)
  Q (raise run e) =
      (Going run.review_iteration run)
      ⊎ ((run.review_iteration ≤ allowed_reviews definition.max_reviews)
          × ((e ≡ blocked_run) × ((run.status ≡ blocked) × OneRecovery run)))

  advanced-Going :
      (run : StageRun) (c : Call StageAgentResponse)
      → Going (suc run.review_iteration) run
      → Holds P Q (advanced definition run c)
  advanced-Going run (returns r) h = h
  advanced-Going run (throws e) (h, k) = inl (omega arith, k)

  advance-Going :
      (run : StageRun)
      → Going (suc run.review_iteration) run
      → Holds P Q (advance_stage_agent definition run)
  unfolding advance_stage_agent
  advance-Going run h = advanced-Going run (definition.step run) h

  after_answer-Going :
      (run : StageRun) (m : String) (c : Call Answer)
      → Going (suc run.review_iteration) run
      → Holds P Q (after_answer definition run m c)
  after_answer-Going run m (throws e) (h, k) = inl (omega arith, k)
  after_answer-Going run m (returns no_answer) (h, (none_yet, k)) =
      inr (omega arith, (refl, (refl, (_, ap (λ rs. RecoveryCause.stage_error ∷ rs) none_yet))))
  after_answer-Going run m (returns (answer reply)) (h, (none_yet, k)) =
      advance-Going (answered definition run reply) (h, (none_yet, refl))

  continue-Going :
      (run : StageRun) (m : String)
      → Going (suc run.review_iteration) run
      → Holds P Q (continue_stage_after_user_message definition run m)
  unfolding continue_stage_after_user_message
  continue-Going run m (h, (none_yet, k)) =
      if_ind (Holds P Q)
        (leb max_identical_stage_prompts (count_prior_identical_stage_prompts run m))
        (λ _.
          inr
            (omega arith, (refl, (refl, (_, ap (λ rs. RecoveryCause.stage_error ∷ rs) none_yet)))))
        (λ _.
          after_answer-Going (calling definition (ask definition run m) m) m
            (definition.ask_user m (calling definition (ask definition run m) m))
            (h, (none_yet, refl)))

  request-Going :
      (run : StageRun) (feedback : String)
      → Going run.review_iteration run
      → Holds P Q (request_revision definition run feedback)
  unfolding request_revision
  request-Going run feedback (h, (none_yet, k)) =
      if_ind (Holds P Q) (leb definition.max_reviews run.review_iteration)
        (λ _. inr (h, (refl, (refl, (_, ap (λ rs. RecoveryCause.review_limit ∷ rs) none_yet)))))
        (λ more.
          advance-Going _
            (ground (arith, allowed_reviews-le definition.max_reviews), (none_yet, refl)))

  approved-Going :
      (run : StageRun) (c : Call String)
      → Going run.review_iteration run
      → run.status ≡ approved
      → Holds P Q (approved_with definition run c)
  approved-Going run (returns result) h e = (h, e)
  approved-Going run (throws t) h e = inl h

  reviewed-Going :
      (run : StageRun) (a : String) (c : Call Review)
      → Going run.review_iteration run
      → Holds P Q (reviewed definition run a c)
  unfolding handle_review_outcome
  reviewed-Going run a (throws e) h = inl h
  reviewed-Going run a (returns pass) (h, (none_yet, k)) =
      approved-Going _ (definition.on_approved a _) (h, (none_yet, refl)) refl
  reviewed-Going run a (returns (block why)) (h, (none_yet, k)) =
      inr (h, (refl, (refl, (_, ap (λ rs. RecoveryCause.review_block ∷ rs) none_yet))))
  reviewed-Going run a (returns (revise feedback)) h = request-Going run feedback h

  persisted-Going :
      (run : StageRun) (a : String) (c : Call Bool)
      → Going (suc run.review_iteration) run
      → Holds P Q (persisted definition run a c)
  persisted-Going run a (throws e) (h, k) = inl (omega arith, k)
  persisted-Going run a (returns _) (h, (none_yet, k)) =
      reviewed-Going (under_review definition run) a (definition.review a _) (h, (none_yet, refl))

  handle-Going :
      (run : StageRun) (r : StageAgentResponse)
      → P run r
      → Holds P Q (handle_response definition run r)
  unfolding handle_response
  handle-Going run (message m) h = continue-Going run m h
  handle-Going run (artifact_response a) (h, (none_yet, k)) =
      persisted-Going (ready definition run a) a (definition.persist_artifacts a _)
        (h, (none_yet, refl))

  abbrev pub Ended : StageRun → Type 0
  Ended run =
      ((run.status ≡ blocked) ⊎ (run.status ≡ failed))
      × (OneRecovery run × (run.review_iteration ≤ allowed_reviews definition.max_reviews))

  -- How a stage ends.
  abbrev pub Outcome : Next → Type 0
  Outcome (respond run r) = ⊥
  Outcome (finish run result) =
      (run.status ≡ approved)
      × ((run.recoveries ≡ []) × (run.review_iteration ≤ allowed_reviews definition.max_reviews))
  Outcome (raise run workflow_cancelled) =
      (run.recoveries ≡ []) × (run.review_iteration ≤ allowed_reviews definition.max_reviews)
  Outcome (raise run blocked_run) = Ended run
  Outcome (raise run port_pool_exhausted) = Ended run
  Outcome (raise run (error _)) = Ended run

  raise-Ended :
      (run : StageRun) (e : Thrown)
      → Q (raise run e)
      → has_ended definition run.status ≡ true
      → Ended run
  raise-Ended run e (inl (h, (none_yet, k))) ended = absurd (ground arith)
  raise-Ended run e (inr (h, (_, (at, one)))) ended = (inl at, (one, h))

  fail-Ended :
      (run : StageRun) (e : Thrown) (c : RecoveryCause)
      → Q (raise run e)
      → has_ended definition run.status ≡ false
      → Ended (record_stage_blocked c (set_status failed run))
  fail-Ended run e c (inl (h, (none_yet, k))) going =
      (inr refl, ((c, ap (λ rs. c ∷ rs) none_yet), h))
  fail-Ended run e c (inr (h, (_, (at, one)))) going = absurd (ground arith)

  caught-Outcome : (n : Next) → Q n → Outcome (caught definition n)
  caught-Outcome (respond run r) h = absurd h
  caught-Outcome (finish run result) ((h, (none_yet, k)), e) = (e, (none_yet, h))
  caught-Outcome (raise run workflow_cancelled) (inl (h, (none_yet, k))) = (none_yet, h)
  caught-Outcome (raise run workflow_cancelled) (inr (h, (e, _))) = absurd (ground arith)
  caught-Outcome (raise run blocked_run) h =
      if_ind Outcome (has_ended definition run.status) (raise-Ended run blocked_run h)
        (fail-Ended run blocked_run _ h)
  caught-Outcome (raise run port_pool_exhausted) h =
      if_ind Outcome (has_ended definition run.status) (raise-Ended run port_pool_exhausted h)
        (fail-Ended run port_pool_exhausted _ h)
  caught-Outcome (raise run (error m)) h =
      if_ind Outcome (has_ended definition run.status) (raise-Ended run (error m) h)
        (fail-Ended run (error m) _ h)

-- A stage that ends has made at most `maxReviews` reviews (one, if that is 0). If it returns a result,
-- its status is `approved` and no recovery was recorded. If a cancellation ends it, none was recorded
-- either. If anything else is thrown, its status is `blocked` or `failed` and exactly one recovery
-- was recorded.
pub run_stage-Outcome :
    (definition : StageDefinition) (fuel : ℕ)
    → Ends (Outcome definition) (run_stage definition fuel)
unfolding run_stage
run_stage-Outcome definition fuel =
    map_next-Ends definition (Q definition) (Outcome definition) (caught-Outcome definition) _ (
      run_stage_body-Ends definition (P definition) (Q definition) (handle-Going definition) fuel _
        (advance-Going definition (set_status chat_in_progress create_stage_run)
          (ground (arith, allowed_positive definition.max_reviews), (refl, refl))))
