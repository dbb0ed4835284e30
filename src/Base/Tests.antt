-- ===== src/Base/Tests.antt =====
-- Boolean tests on native numbers and texts, the conditional, and case splits.
use Prim.Native.Nat.{ℕ, ◌≤◌, ◌<◌, compare, Ordering}
use mathlib.Core.Path.{◌≡◌, refl}
use mathlib.Core.Logic.{◌↔◌, ◌⊎◌, inl, inr}
use mathlib.Core.Bool.{Bool, true, false}
use mathlib.Core.Option.{Option, none, some}
use native.Mathlib.Omega.{arith}

abbrev pub ltb : ℕ → ℕ → Bool
ltb a b = elim (compare a b) [ Ordering.lt ↦ true | _ ↦ false ]

abbrev pub leb : ℕ → ℕ → Bool
leb a b = elim (compare a b) [ Ordering.gt ↦ false | _ ↦ true ]

infix 50 ◌==◌
abbrev pub ◌==◌ : ℕ → ℕ → Bool
a == b = elim (compare a b) [ Ordering.eq ↦ true | _ ↦ false ]

infix 1 if◌then◌else◌
abbrev pub if◌then◌else◌ {ℓ} : {A : Type ℓ} → Bool → A → A → A
if true then x else y = x
if false then x else y = y

pub ltb→lt : (a b : ℕ) → ltb a b ≡ true → a < b
ltb→lt a b h = ground arith

pub lt→ltb : (a b : ℕ) → a < b → ltb a b ≡ true
lt→ltb a b h = ground arith

pub leb→le : (a b : ℕ) → leb a b ≡ true → a ≤ b
leb→le a b h = ground arith

pub le→leb : (a b : ℕ) → a ≤ b → leb a b ≡ true
le→leb a b h = ground arith

pub ==_iff : (a b : ℕ) → ((a == b) ≡ true) ↔ (a ≡ b)
==_iff a b = ground arith

pub ruleset tests = (arith, ltb→lt, lt→ltb, leb→le, le→leb)

pub Bool-cases : (b : Bool) → (b ≡ true) ⊎ (b ≡ false)
Bool-cases true = inl refl
Bool-cases false = inr refl

-- What holds of both branches, each under its test, holds of the conditional.
pub if_ind {ℓ κ} :
    {A : Type ℓ} (P : A → Type κ) (b : Bool) {x y : A}
    → (b ≡ true → P x)
    → (b ≡ false → P y)
    → P (if b then x else y)
if_ind P true p q = p refl
if_ind P false p q = q refl

module _ {ℓ} {A : Type ℓ} where
  pub Option-cases : (o : Option A) → (o ≡ none) ⊎ ((a : A) × (o ≡ some a))
  Option-cases none = inl refl
  Option-cases (some a) = inr (a, refl)

  -- The null tests of the source: `x == null` and `x != null`.
  abbrev pub is_none : Option A → Bool
  is_none none = true
  is_none (some _) = false

  abbrev pub is_some : Option A → Bool
  is_some none = false
  is_some (some _) = true

  -- `x ?? d`.
  abbrev pub get_or : Option A → A → A
  get_or none d = d
  get_or (some a) d = a

-- What holds of both cases of a split of an option holds of the split.
pub split_ind {ℓ κ η} :
    {A : Type ℓ} {B : Type κ} (P : B → Type η) (n : B) (f : A → B) (o : Option A)
    → P n
    → ((a : A) → P (f a))
    → P (elim o [ none ↦ n | some a ↦ f a ])
split_ind P n f none p q = p
split_ind P n f (some a) p q = q a

-- A split of an option, for a computed one.
abbrev pub split_option {ℓ κ} : {A : Type ℓ} {B : Type κ} → B → (A → B) → Option A → B
split_option n f none = n
split_option n f (some a) = f a

pub split_option_ind {ℓ κ η} :
    {A : Type ℓ} {B : Type κ} (P : B → Type η) (o : Option A) {n : B} {f : A → B}
    → (o ≡ none → P n)
    → ((a : A) → o ≡ some a → P (f a))
    → P (split_option n f o)
split_option_ind P none p q = p refl
split_option_ind P (some a) p q = q a refl
