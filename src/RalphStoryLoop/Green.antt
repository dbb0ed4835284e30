-- ===== src/RalphStoryLoop/Green.antt =====
-- When a cycle of a story becomes green
-- (apps/engine/src/stages/execution/ralphStoryLoop.ts).
use beerengineer.Base.{
  ℕ, zero, suc, ◌+◌, ◌-◌, ◌≤◌, ◌<◌, String, ◌≡◌, refl, sym, subst, inl, inr, Bool, true, false,
  ◌||◌, Option, List, [], ◌∷◌, arith,
}
use beerengineer.Base.Tests.{leb, if◌then◌else◌, Bool-cases}
use beerengineer.Base.Lists.{length, all}
use beerengineer.RalphStoryLoop.{
  in_progress, ready_for_review, Iteration, Implementation, is_remediation, checks_for_iteration,
  result_from_checks, run_one_iteration, iterate, next_iteration, IterationResult, iteration_done,
  tests_failed, check_pass, check_fail, count_iterations_in_cycle, run_coder_cycle_until_green,
}

-- What a coder cycle keeps: the bounds and the recoveries, and iterations of cycles up to this one.
abbrev pub UpTo : ℕ → List Iteration → Type 0
UpTo cycle [] = Unit
UpTo cycle (i ∷ is) = (i.review_cycle ≤ cycle) × UpTo cycle is

-- Green after at most `n` more iterations.
abbrev pub IsCoded : ℕ → ℕ → Implementation → Implementation × Bool → Type 0
IsCoded n cycle impl out =
    (out.1 ≡ true)
    × ((out.0.max_iterations ≡ impl.max_iterations)
        × ((out.0.max_review_cycles ≡ impl.max_review_cycles)
            × ((out.0.recoveries ≡ impl.recoveries)
                × (UpTo cycle out.0.iterations
                    × (length out.0.iterations ≤ length impl.iterations + n)))))

module _ (cycle : ℕ) (feedback : Option String) where
  -- The run after an iteration that is green or not.
  abbrev attempted : Bool → Implementation → Implementation × IterationResult
  attempted green impl =
      let result = if green then iteration_done else tests_failed in
      (
        record impl {
          status = if green then ready_for_review else in_progress;
          iterations =
              record {
                number = suc (length impl.iterations);
                review_cycle = cycle;
                checks = (if green then check_pass else check_fail) ∷ check_pass ∷ [];
                result = result;
              }
              ∷ impl.iterations;
        },
        result,
      )

  run_one_iteration-attempted :
      (k : ℕ) (impl : Implementation) (green : Bool)
      → (leb 2 k || is_remediation feedback) ≡ green
      → run_one_iteration cycle k feedback impl ≡ attempted green impl
  unfolding run_one_iteration checks_for_iteration result_from_checks all
  run_one_iteration-attempted k impl true e = rw e refl
  run_one_iteration-attempted k impl false e = rw e refl

  iterate_green :
      (left k : ℕ) (impl : Implementation)
      → (leb 2 (suc k) || is_remediation feedback) ≡ true
      → UpTo cycle impl.iterations
      → IsCoded 1 cycle impl (iterate (suc left) cycle k feedback impl)
  unfolding iterate
  iterate_green left k impl e u =
      subst (λ o. IsCoded 1 cycle impl (next_iteration (iterate left cycle (suc k) feedback) o))
        (sym (run_one_iteration-attempted (suc k) impl true e))
        (refl, (refl, (refl, (refl, ((omega arith, u), omega arith)))))

  more_iterations :
      (impl : Implementation) (out : Implementation × Bool)
      → IsCoded 1 cycle (attempted false impl).0 out
      → IsCoded 2 cycle impl out
  more_iterations impl out (a, (b, (c, (d, (u, l))))) = (a, (b, (c, (d, (u, omega (arith, l))))))

  iterate_second :
      (left : ℕ) (impl : Implementation)
      → (leb 2 1 || is_remediation feedback) ≡ false
      → UpTo cycle impl.iterations
      → IsCoded 2 cycle impl (iterate (suc (suc left)) cycle 0 feedback impl)
  unfolding iterate
  iterate_second left impl e u =
      subst (λ o. IsCoded 2 cycle impl (next_iteration (iterate (suc left) cycle 1 feedback) o))
        (sym (run_one_iteration-attempted 1 impl false e))
        (more_iterations impl (iterate (suc left) cycle 1 feedback (attempted false impl).0)
          (iterate_green left 1 (attempted false impl).0 refl (omega arith, u)))

  weaken :
      (impl : Implementation) (out : Implementation × Bool)
      → IsCoded 1 cycle impl out
      → IsCoded 2 cycle impl out
  weaken impl out (a, (b, (c, (d, (u, l))))) = (a, (b, (c, (d, (u, omega (arith, l))))))

  -- The second iteration of a cycle is green, whatever the coder did.
  iterate-IsCoded :
      (left k : ℕ) (impl : Implementation)
      → 1 ≤ left
      → 2 ≤ k + left
      → UpTo cycle impl.iterations
      → IsCoded 2 cycle impl (iterate left cycle k feedback impl)
  iterate-IsCoded zero k impl h g u = absurd (omega arith)
  iterate-IsCoded (suc left) (suc k) impl h g u =
      weaken impl (iterate (suc left) cycle (suc k) feedback impl)
        (iterate_green left (suc k) impl (ground arith) u)
  iterate-IsCoded (suc zero) zero impl h g u = absurd (omega arith)
  iterate-IsCoded (suc (suc left)) zero impl h g u =
      elim (Bool-cases (leb 2 1 || is_remediation feedback)) [
        | inl e ↦
            weaken impl (iterate (suc (suc left)) cycle 0 feedback impl)
              (iterate_green (suc left) 0 impl e u)
        | inr e ↦ iterate_second left impl e u
      ]

  -- A review cycle that may still make an iteration, of a story that may make at least two per cycle,
  -- becomes ready for review within two iterations. No result of the coder and no test is consulted.
  pub run_coder_cycle_until_green-IsCoded :
      (impl : Implementation)
      → 2 ≤ impl.max_iterations
      → count_iterations_in_cycle impl cycle < impl.max_iterations
      → UpTo cycle impl.iterations
      → IsCoded 2 cycle impl (run_coder_cycle_until_green cycle feedback impl)
  unfolding run_coder_cycle_until_green
  run_coder_cycle_until_green-IsCoded impl two room u =
      let k : ℕ = count_iterations_in_cycle impl cycle in
      iterate-IsCoded (impl.max_iterations - k) k (record impl { status = in_progress })
        (omega arith) (omega arith) u
