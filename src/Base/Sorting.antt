-- ===== src/Base/Sorting.antt =====
-- A stable sort by a Boolean order: `ORDER BY` and `Array.prototype.sort`.
use Prim.Native.Nat.{suc}
use mathlib.Core.Path.{◌≡◌, refl, ◌∙◌, ap}
use mathlib.Core.Logic.{inl, inr}
use mathlib.Core.Bool.{Bool, ◌||◌}
use mathlib.Core.List.{List, [], ◌∷◌}
use native.Mathlib.Omega.{arith}
use beerengineer.Base.Tests.{if◌then◌else◌, Bool-cases}
use beerengineer.Base.Lists.{any, All, length}

module _ {ℓ} {A : Type ℓ} (le : A → A → Bool) where
  unfoldable pub insert : A → List A → List A
  insert x [] = x ∷ []
  insert x (y ∷ ys) = if le x y then x ∷ y ∷ ys else y ∷ insert x ys

  unfoldable pub sort : List A → List A
  unfolding insert
  sort [] = []
  sort (x ∷ xs) = insert x (sort xs)

  any-insert : (p : A → Bool) (x : A) (xs : List A) → any p (insert x xs) ≡ (p x || any p xs)
  unfolding insert any
  any-insert p x [] = refl
  any-insert p x (y ∷ ys) = ground (arith, any-insert p x ys)

  pub any-sort : (p : A → Bool) (xs : List A) → any p (sort xs) ≡ any p xs
  unfolding any sort
  any-sort p [] = refl
  any-sort p (x ∷ xs) = any-insert p x (sort xs) ∙ ap (λ b. p x || b) (any-sort p xs)

  length-insert : (x : A) (xs : List A) → length (insert x xs) ≡ suc (length xs)
  unfolding insert
  length-insert x [] = refl
  length-insert x (y ∷ ys) = ground (arith, length-insert x ys)

  pub length-sort : (xs : List A) → length (sort xs) ≡ length xs
  unfolding sort
  length-sort [] = refl
  length-sort (x ∷ xs) = length-insert x (sort xs) ∙ ap suc (length-sort xs)

  -- What holds of every member of a list holds of every member of the sorted list.
  module _ {κ} (P : A → Type κ) where
    pub All-insert : (x : A) (xs : List A) → P x → All P xs → All P (insert x xs)
    unfolding insert
    All-insert x [] p h = (p, tt)
    All-insert x (y ∷ ys) p (q, h) = elim (Bool-cases (le x y)) [
      | inl e ↦ rw e (p, (q, h))
      | inr e ↦ rw e (q, All-insert x ys p h)
    ]

    pub All-sort : (xs : List A) → All P xs → All P (sort xs)
    unfolding sort
    All-sort [] h = tt
    All-sort (x ∷ xs) (p, h) = All-insert x (sort xs) p (All-sort xs h)
