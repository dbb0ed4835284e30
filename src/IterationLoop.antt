-- ===== src/IterationLoop.antt =====
-- The loop of review cycles (apps/engine/src/core/iterationLoop.ts).
use beerengineer.Base.{
  ℕ, zero, suc, ◌-◌, String, Option, none, some, ◌≡◌, refl, arith, ◌<◌, ◌+◌, ◌≤◌, ap, ◌∙◌, subst,
  sym,
}
mod Tests

pub data ExhaustionReason : Type 0 where
  max_cycles_reached : (last_cycle : Option ℕ) → ExhaustionReason
  cycle_exhausted : (last_cycle : ℕ) → (reason : String) → ExhaustionReason

pub data CycleOutcome {ℓ} (R : Type ℓ) : Type ℓ where
  done : R → CycleOutcome R
  continue : (next_feedback : Option String) → CycleOutcome R
  exhausted : (reason : String) → CycleOutcome R

-- The cycle before this one; `none` for the source's -1.
abbrev pub before : ℕ → Option ℕ
before zero = none
before (suc n) = some n

-- `S` is the state that the callbacks share.
module _ {ℓ κ} {S : Type ℓ} {R : Type κ} (run_cycle : ℕ → Option String → S → S × CycleOutcome R)
    (on_all_cycles_exhausted : ExhaustionReason → S → S × R) where
  abbrev pub next : (ℕ → Option String → S → S × R) → ℕ → S × CycleOutcome R → S × R
  next loop cycle (s, done result) = (s, result)
  next loop cycle (s, exhausted reason) = on_all_cycles_exhausted (cycle_exhausted cycle reason) s
  next loop cycle (s, continue feedback) = loop (suc cycle) feedback s

  -- The loop with `left` cycles to go before `maxCycles`.
  unfoldable pub cycles : ℕ → ℕ → Option String → S → S × R
  cycles zero cycle feedback s = on_all_cycles_exhausted (max_cycles_reached (before cycle)) s
  cycles (suc left) cycle feedback s = next (cycles left) cycle (run_cycle cycle feedback s)

  unfoldable pub run_cycled_loop :
      (max_cycles start_cycle : ℕ) → (initial_feedback : Option String) → S → S × R
  run_cycled_loop max_cycles start_cycle feedback s =
      cycles (max_cycles - start_cycle) start_cycle feedback s

  -- What `n` cycles in a row from `cycle` leave, if each of them asks to go on: the state, and the
  -- feedback that the last of them gave for the next.
  abbrev pub went_on :
      (ℕ → Option String → S → Option (S × Option String))
      → ℕ
      → S × CycleOutcome R
      → Option (S × Option String)
  went_on rest cycle (s, continue feedback) = rest (suc cycle) feedback s
  went_on rest cycle (s, done _) = none
  went_on rest cycle (s, exhausted _) = none

  abbrev pub after : ℕ → ℕ → Option String → S → Option (S × Option String)
  after zero cycle feedback s = some (s, feedback)
  after (suc n) cycle feedback s = went_on (after n) cycle (run_cycle cycle feedback s)

  cycles_cong :
      {left left' cycle cycle' : ℕ} (feedback : Option String) (s : S)
      → left ≡ left'
      → cycle ≡ cycle'
      → cycles left cycle feedback s ≡ cycles left' cycle' feedback s
  cycles_cong feedback s e c = cc

  -- Where the loop is after cycles that go on.
  abbrev Reaches : ℕ → ℕ → ℕ → Option (S × Option String) → S × R → Type (ℓ ⊔ κ)
  Reaches n rest cycle none out = Unit
  Reaches n rest cycle (some (s', f')) out = out ≡ cycles rest (n + cycle) f' s'

  next-Reaches :
      (n rest cycle : ℕ) (out : S × CycleOutcome R)
      → ((c : ℕ) (f : Option String) (s : S)
          → Reaches n rest c (after n c f s) (cycles (n + rest) c f s))
      → Reaches
          (suc n)
          rest
          cycle
          (went_on (after n) cycle out)
          (next (cycles (n + rest)) cycle out)
  next-Reaches n rest cycle (s, continue f) loop =
      onward (after n (suc cycle) f s) (loop (suc cycle) f s)
    where
      onward :
          (o : Option (S × Option String))
          → Reaches n rest (suc cycle) o (cycles (n + rest) (suc cycle) f s)
          → Reaches (suc n) rest cycle o (cycles (n + rest) (suc cycle) f s)
      onward none h = tt
      onward (some (s', f')) h = h ∙ cycles_cong f' s' refl (omega arith)
  next-Reaches n rest cycle (s, done r) loop = tt
  next-Reaches n rest cycle (s, exhausted why) loop = tt

  cycles-Reaches :
      (n rest cycle : ℕ) (feedback : Option String) (s : S)
      → Reaches n rest cycle (after n cycle feedback s) (cycles (n + rest) cycle feedback s)
  unfolding cycles
  cycles-Reaches zero rest cycle feedback s = cycles_cong feedback s (omega arith) (omega arith)
  cycles-Reaches (suc n) rest cycle feedback s =
      let e : suc n + rest ≡ suc (n + rest) = omega arith in
      subst
        (λ left.
          Reaches (suc n) rest cycle (after (suc n) cycle feedback s)
            (cycles left cycle feedback s))
        (sym e) (next-Reaches n rest cycle (run_cycle cycle feedback s) (cycles-Reaches n rest))

  -- What the cycle that does not go on makes of the loop.
  abbrev pub stop_of : ℕ → S × CycleOutcome R → Option (S × R)
  stop_of cycle (s, done result) = some (s, result)
  stop_of cycle (s, exhausted reason) =
      some (on_all_cycles_exhausted (cycle_exhausted cycle reason) s)
  stop_of cycle (s, continue _) = none

  next-stop_of :
      (loop : ℕ → Option String → S → S × R) (cycle : ℕ) (out : S × CycleOutcome R) (end : S × R)
      → stop_of cycle out ≡ some end
      → next loop cycle out ≡ end
  next-stop_of loop cycle (s, done result) end h = ground arith
  next-stop_of loop cycle (s, exhausted reason) end h = ground arith
  next-stop_of loop cycle (s, continue _) end h = absurd (ground arith)

  -- If the first `n` cycles from the start ask to go on, each with the feedback of the one before,
  -- and the next one, still below the maximum, is done or exhausted, the loop ends with the result of
  -- that cycle or of the handler for its exhaustion.
  pub run_cycled_loop-stop :
      (max_cycles start n : ℕ) (feedback f' : Option String) (s s' : S) (end : S × R)
      → n + start < max_cycles
      → after n start feedback s ≡ some (s', f')
      → stop_of (n + start) (run_cycle (n + start) f' s') ≡ some end
      → run_cycled_loop max_cycles start feedback s ≡ end
  unfolding run_cycled_loop cycles
  run_cycled_loop-stop max_cycles start n feedback f' s s' end below h k =
      let rest : ℕ = max_cycles - suc (n + start) in
      let e : max_cycles - start ≡ n + suc rest = omega arith in
      ap (λ left. cycles left start feedback s) e
      ∙ subst (λ o. Reaches n (suc rest) start o (cycles (n + suc rest) start feedback s)) h
          (cycles-Reaches n (suc rest) start feedback s)
      ∙ next-stop_of (cycles rest) (n + start) (run_cycle (n + start) f' s') end k

  -- If all cycles from the start up to the maximum ask to go on, the loop ends with the handler for
  -- the maximum, which gets the number of the last cycle. It ends like this at once, without a
  -- cycle, if the start is at the maximum.
  pub run_cycled_loop-exhausted :
      (max_cycles start : ℕ) (feedback f' : Option String) (s s' : S)
      → start ≤ max_cycles
      → after (max_cycles - start) start feedback s ≡ some (s', f')
      → run_cycled_loop max_cycles start feedback s
        ≡ on_all_cycles_exhausted (max_cycles_reached (before max_cycles)) s'
  unfolding run_cycled_loop cycles
  run_cycled_loop-exhausted max_cycles start feedback f' s s' h k =
      let n : ℕ = max_cycles - start in
      let e : n ≡ n + 0 = omega arith in
      let back : n + start ≡ max_cycles = omega arith in
      ap (λ left. cycles left start feedback s) e
      ∙ subst (λ o. Reaches n 0 start o (cycles (n + 0) start feedback s)) k
          (cycles-Reaches n 0 start feedback s)
      ∙ ap (λ m. on_all_cycles_exhausted (max_cycles_reached (before m)) s') back
