-- ===== src/Base/Effects.antt =====
-- Code that changes a state and may throw: a function from the state to a result and the new state.
use mathlib.Core.Path.{◌≡◌, refl}
use mathlib.Core.Logic.{◌⊎◌, inl, inr}
use native.Mathlib.Omega.{arith}

pub data Result (E A : Type 0) : Type 0 where
  ok : A → Result E A
  err : E → Result E A

abbrev pub Effect : Type 0 → Type 0 → Type 0 → Type 0
Effect S E A = S → Result E A × S

module _ {S E : Type 0} where
  abbrev pub return : {A : Type 0} → A → Effect S E A
  return a s = (ok a, s)

  abbrev pub throw : {A : Type 0} → E → Effect S E A
  throw e s = (err e, s)

  -- What follows a call, at the call's result and state.
  abbrev pub then_at : {A B : Type 0} → Result E A × S → (A → Effect S E B) → Result E B × S
  then_at (ok a, s) f = f a s
  then_at (err e, s) f = (err e, s)

  infixl 5 ◌>>=◌ ◌>>◌
  abbrev pub ◌>>=◌ : {A B : Type 0} → Effect S E A → (A → Effect S E B) → Effect S E B
  ◌>>=◌ m f s = then_at (m s) f

  abbrev pub ◌>>◌ : {A B : Type 0} → Effect S E A → Effect S E B → Effect S E B
  ◌>>◌ m k s = then_at (m s) (λ _. k)

  -- To split on what a call gave, and keep the equation.
  pub Result-cases :
      {A : Type 0} (r : Result E A × S)
      → ((a : A) × (s : S) × (r ≡ (ok a, s))) ⊎ ((e : E) × (s : S) × (r ≡ (err e, s)))
  Result-cases (ok a, s) = inl (a, s, refl)
  Result-cases (err e, s) = inr (e, s, refl)

  -- A call that succeeds as a whole has succeeded in its first part.
  pub then_at-eq-ok :
      {A B : Type 0} (r : Result E A × S) (f : A → Effect S E B) {b : B} {t : S}
      → then_at r f ≡ (ok b, t)
      → (a : A) × (s : S) × (r ≡ (ok a, s)) × (f a s ≡ (ok b, t))
  then_at-eq-ok (ok a, s) f h = (a, s, refl, h)
  then_at-eq-ok (err e, s) f h = ground arith

  pub ok-injective :
      {A : Type 0} {a b : A} {s t : S}
      → ◌≡◌ {A = Result E A × S} (ok a, s) (ok b, t)
      → (a ≡ b) × (s ≡ t)
  ok-injective h = ground arith

  pub then_at_assoc :
      {A B C : Type 0} (r : Result E A × S) (f : A → Effect S E B) (g : B → Effect S E C)
      → then_at (then_at r f) g ≡ then_at r (λ a s. then_at (f a s) g)
  then_at_assoc (ok a, s) f g = refl
  then_at_assoc (err e, s) f g = refl

  pub then_at-ext :
      {A B : Type 0} (r : Result E A × S) (f g : A → Effect S E B)
      → ((a : A) (s : S) → f a s ≡ g a s)
      → then_at r f ≡ then_at r g
  then_at-ext (ok a, s) f g h = h a s
  then_at-ext (err e, s) f g h = refl

-- The outcome of a call: `Q` of its result and state, or `F` of the state where it threw.
module _ {S E A : Type 0} where
  unfoldable pub Outcome : (A → S → Type 0) → (S → Type 0) → Result E A × S → Type 0
  Outcome Q F (ok a, s) = Q a s
  Outcome Q F (err e, s) = F s

pub Outcome-ok :
    {S A : Type 0} (E : Type 0) (Q : A → S → Type 0) (F : S → Type 0) (a : A) (s : S)
    → Q a s
    → Outcome {E = E} Q F (ok a, s)
unfolding Outcome
Outcome-ok E Q F a s h = h

pub Outcome-then :
    {S E A B : Type 0} (Q : A → S → Type 0) (R : B → S → Type 0) (F G : S → Type 0)
    (r : Result E A × S) (f : A → Effect S E B)
    → Outcome Q F r
    → ((a : A) (s : S) → Q a s → Outcome R G (f a s))
    → ((s : S) → F s → G s)
    → Outcome R G (then_at r f)
unfolding Outcome
Outcome-then Q R F G (ok a, s) f h k l = k a s h
Outcome-then Q R F G (err e, s) f h k l = l s h

pub Outcome-weaken :
    {S E A : Type 0} (Q R : A → S → Type 0) (F G : S → Type 0) (r : Result E A × S)
    → Outcome Q F r
    → ((a : A) (s : S) → Q a s → R a s)
    → ((s : S) → F s → G s)
    → Outcome R G r
unfolding Outcome
Outcome-weaken Q R F G (ok a, s) h k l = k a s h
Outcome-weaken Q R F G (err e, s) h k l = l s h
