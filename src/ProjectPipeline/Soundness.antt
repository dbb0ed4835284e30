-- ===== src/ProjectPipeline/Soundness.antt =====
-- Steps of a pipeline that violate no invariant (`withStageLifecycle` and the helpers of the nodes in
-- apps/engine/src/core/projectStageRegistry.ts).
use beerengineer.Base.{◌≡◌, Bool, true, ◌&&◌, Option, none, some}
use beerengineer.Base.Tests.{if_ind, is_some, split_option}
use beerengineer.Base.Effects.{Result, ok, err, Effect, then_at, throw, return}
use beerengineer.ProjectPipeline.{
  ProjectStageId, requirements, architecture, planning, execution, project_review, qa,
  documentation, handoff, ProjectContext, Missing, StageError, blocked_run,
  port_pool_exhausted_error, other_error, Failure, cancelled, invariant_violated, stage_failed,
  Stages, Pipeline, stage_started, stage_completed, stage_completed_failed, assert_not_cancelled,
  emit, call, lift_result, require, after_stage, with_stage_lifecycle, assert_supabase_ready,
  StageEvent,
}

-- A result that is `P`, or an error other than a violated invariant.
module _ {S B : Type 0} where
  unfoldable pub Sound : (B → Type 0) → Result Failure B × Pipeline S → Type 0
  Sound P (ok b, p) = P b
  Sound P (err (invariant_violated m), p) = ⊥
  Sound P (err cancelled, p) = Unit
  Sound P (err (stage_failed e), p) = Unit

pub Sound-return :
    {S B : Type 0} (P : B → Type 0) (b : B) (p : Pipeline S) → P b → Sound P (ok b, p)
unfolding Sound
Sound-return P b p h = h

pub Sound-then :
    {S B C : Type 0} (P : B → Type 0) (Q : C → Type 0) (r : Result Failure B × Pipeline S)
    (f : B → Effect (Pipeline S) Failure C)
    → Sound P r
    → ((b : B) (p : Pipeline S) → P b → Sound Q (f b p))
    → Sound Q (then_at r f)
unfolding Sound
Sound-then P Q (ok b, p) f h k = k b p h
Sound-then P Q (err (invariant_violated m), p) f h k = absurd h
Sound-then P Q (err cancelled, p) f h k = tt
Sound-then P Q (err (stage_failed e), p) f h k = tt

abbrev pub Any : {B : Type 0} → B → Type 0
Any b = Unit

-- The context is what the stage needs of those before it.
abbrev pub is_ready : {A : Type 0} → ProjectStageId → ProjectContext A → Bool
is_ready requirements c = true
is_ready architecture c = is_some c.prd
is_ready planning c = is_some c.prd && is_some c.architecture
is_ready execution c = is_some c.prd && is_some c.architecture && is_some c.plan
is_ready project_review c =
    is_some c.prd && is_some c.architecture && is_some c.plan && is_some c.execution_summaries
is_ready qa c =
    is_some c.prd
    && is_some c.architecture
    && is_some c.plan
    && is_some c.execution_summaries
    && is_some c.project_review
is_ready documentation c =
    is_some c.prd
    && is_some c.architecture
    && is_some c.plan
    && is_some c.execution_summaries
    && is_some c.project_review
is_ready handoff c =
    is_some c.prd
    && is_some c.architecture
    && is_some c.plan
    && is_some c.execution_summaries
    && is_some c.project_review
    && is_some c.documentation

-- The context after the stage is ready for the one that follows.
abbrev pub after_is_ready : {A : Type 0} → ProjectStageId → ProjectContext A → Bool
after_is_ready requirements c = is_ready architecture c
after_is_ready architecture c = is_ready planning c
after_is_ready planning c = is_ready execution c
after_is_ready execution c = is_ready project_review c
after_is_ready project_review c = is_ready qa c
after_is_ready qa c = is_ready documentation c
after_is_ready documentation c = is_ready handoff c
after_is_ready handoff c = true

module _ {S A : Type 0} (stages : Stages S A) where
  pub Sound-lift :
      {B : Type 0} (r : Result StageError B) (p : Pipeline S) → Sound Any (lift_result stages r, p)
  unfolding Sound
  Sound-lift (ok b) p = tt
  Sound-lift (err e) p = tt

  pub Sound-assert : (p : Pipeline S) → Sound Any (assert_not_cancelled stages p)
  unfolding Sound
  Sound-assert p = if_ind (Sound Any) (stages.is_cancelled p.outside) (λ _. tt) (λ _. tt)

  pub Sound-emit : (e : StageEvent) (p : Pipeline S) → Sound Any (emit stages e p)
  unfolding Sound
  Sound-emit e p = if_ind (Sound Any) (stages.is_cancelled p.outside) (λ _. tt) (λ _. tt)

  module _ {B : Type 0} (Q : B → Type 0) (id : ProjectStageId) where
    Sound-failed :
        (e : Failure) (p : Pipeline S)
        → Sound {B = B} Q (err e, p)
        → Sound {B = B} Q (then_at (emit stages (stage_completed_failed id) p) (λ _. throw e))
    unfolding Sound
    Sound-failed e p h =
        Sound-then Any Q (emit stages (stage_completed_failed id) p) (λ _. throw e)
          (Sound-emit (stage_completed_failed id) p) (λ _ q _. keep e p q h)
      where
        keep :
            (e : Failure) (p q : Pipeline S)
            → Sound {B = B} Q (err e, p)
            → Sound {B = B} Q (err e, q)
        keep cancelled p q h = tt
        keep (invariant_violated m) p q h = absurd h
        keep (stage_failed e) p q h = tt

    Sound-after_stage :
        (r : Result Failure B × Pipeline S) → Sound Q r → Sound Q (after_stage stages id r)
    unfolding Sound
    Sound-after_stage (ok b, p) h = h
    Sound-after_stage (err (stage_failed (blocked_run m)), p) h = tt
    Sound-after_stage (err (stage_failed (port_pool_exhausted_error m)), p) h = Sound-failed _ p h
    Sound-after_stage (err (stage_failed (other_error m)), p) h = Sound-failed _ p h
    Sound-after_stage (err cancelled, p) h = Sound-failed _ p h
    Sound-after_stage (err (invariant_violated m), p) h = absurd h

    pub Sound-with_stage_lifecycle :
        (run : Effect (Pipeline S) Failure B) (p : Pipeline S)
        → ((q : Pipeline S) → Sound Q (run q))
        → Sound Q (with_stage_lifecycle stages id run p)
    unfolding with_stage_lifecycle
    Sound-with_stage_lifecycle run p h = Sound-then Any Q _ _ (Sound-assert p) (λ _ q _.
        Sound-then Any Q _ _ (Sound-emit (stage_started id) q) (λ _ q' _. Sound-after_stage _ (
          Sound-then Q Q _ _ (h q') (λ b q'' k. Sound-then Any Q _ _ (Sound-assert q'') (λ _ q3 _.
            Sound-then Any Q _ _ (Sound-emit (stage_completed id) q3)
              (λ _ p4 _. Sound-return Q b p4 k))))))

  pub Sound-require :
      (o : Option Missing) (p : Pipeline S) → o ≡ none → Sound Any (require stages o p)
  unfolding Sound
  Sound-require none p h = tt
  Sound-require (some m) p h = cc

  abbrev Calls : Type 0
  Calls = S → Result StageError A × S

  -- A stage that needs `o` to be none, calls `f` and puts its result into the context.
  pub Sound-stage :
      (P : ProjectContext A → Type 0) (o : Option Missing) (f : Calls) (put : A → ProjectContext A)
      (p : Pipeline S)
      → o ≡ none
      → ((a : A) → P (put a))
      → Sound P
          (then_at (require stages o p) (λ _ q. then_at (call stages f q) (λ a. return (put a))))
  Sound-stage P o f put p h k =
      Sound-then Any P _ _ (Sound-require o p h)
        (λ _ q _. Sound-then Any P _ _ (Sound-lift _ _) (λ a q' _. Sound-return P _ q' (k a)))

  pub Sound-ready :
      (plan : Option A) (p : Pipeline S) → Sound Any (assert_supabase_ready stages plan p)
  unfolding Sound
  Sound-ready none p = tt
  Sound-ready (some plan) p = ready stages.supabase_readiness
    where
      ready :
          (o : Option (A → S → Result StageError (Unit {0}) × S))
          → Sound Any (split_option (return tt) (λ check. call stages (check plan)) o p)
      ready none = tt
      ready (some check) = Sound-lift _ _
