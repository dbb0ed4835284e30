-- ===== src/Base/Texts.antt =====
-- Equality of texts as a Boolean test, and membership and lookup by it.
use Prim.Native.String.{String}
use Prim.Native.Char.{code}
use mathlib.Core.Path.{◌≡◌, refl, sym}
use mathlib.Core.Logic.{◌↔◌, ◌⊎◌, ◌≢◌, inl, inr}
use mathlib.Core.Bool.{Bool, true, false, ◌||◌}
use mathlib.Core.Option.{Option, none, some}
use mathlib.Core.List.{List, [], ◌∷◌, ◌++◌, Memᴰ}
use native.Mathlib.Omega.{arith}
use text.Mathlib.Text.{◌==◌ as text_eq}
use text.Mathlib.TextEquality.{eq_iff}
use beerengineer.Base.Tests.{Bool-cases, if◌then◌else◌, ◌==◌}

-- `s === t`. Kept shut: `eq_text_iff` says all that the proofs need.
unfoldable pub eq_text : String → String → Bool
eq_text s t = text_eq s t

pub eq_text_iff : (s t : String) → (eq_text s t ≡ true) ↔ (s ≡ t)
unfolding eq_text
eq_text_iff s t = eq_iff s t

pub eq_text_self : (s : String) → eq_text s s ≡ true
eq_text_self s = (eq_text_iff s s).1 refl

pub eq_text_ne : (s t : String) → s ≢ t → eq_text s t ≡ false
eq_text_ne s t h = elim (Bool-cases (eq_text s t)) [
  | inl e ↦ absurd (h ((eq_text_iff s t).0 e))
  | inr e ↦ e
]

pub ne_of_eq_text : (s t : String) → eq_text s t ≡ false → s ≢ t
ne_of_eq_text s t h e = cc ((eq_text_iff s t).1 e)

pub text_cases : (s t : String) → (s ≡ t) ⊎ (eq_text s t ≡ false)
text_cases s t = elim (Bool-cases (eq_text s t)) [
  | inl e ↦ inl ((eq_text_iff s t).0 e)
  | inr e ↦ inr e
]

-- A nullable text equals a given one.
abbrev pub is_text : Option String → String → Bool
is_text none t = false
is_text (some s) t = eq_text s t

-- `xs.includes(s)`, and a `Set`'s `has`.
unfoldable pub has : List String → String → Bool
has [] s = false
has (x ∷ xs) s = eq_text x s || has xs s

pub has-cons :
    (x : String) (xs : List String) (s : String) → has (x ∷ xs) s ≡ (eq_text x s || has xs s)
unfolding has
has-cons x xs s = refl

pub has-append : (xs ys : List String) (s : String) → has (xs ++ ys) s ≡ (has xs s || has ys s)
unfolding has
has-append [] ys s = refl
has-append (x ∷ xs) ys s = ground (arith, has-append xs ys s)

pub has-Mem : (xs : List String) (s : String) → has xs s ≡ true → Memᴰ s xs
unfolding has
has-Mem [] s h = cc
has-Mem (x ∷ xs) s h = elim (text_cases x s) [
  | inl e ↦ Memᴰ.head (sym e)
  | inr e ↦ Memᴰ.tail (has-Mem xs s (ground arith))
]

-- `s.split("/")[0]`: the part before the first slash.
unfoldable pub before_slash : String → String
before_slash String.[] = ""
before_slash (String.◌∷◌ c s) =
    let rest = before_slash s in if code c == b'/' then "" else String.◌∷◌ c rest
