-- ===== src/PortAllocator/Assign.antt =====
-- When no port is left, and what a release does (apps/engine/src/core/portAllocator.ts).
use native.Mathlib.Nat.{mod-lt, mod-eq_of_lt, add-mod_right}
use beerengineer.Base.{
  ℕ, zero, suc, ◌+◌, ◌-◌, ◌%◌, ◌≤◌, ◌<◌, String, ◌≡◌, refl, sym, ap, subst, ◌∙◌, inl, inr, true,
  ◌||◌, false, none, List, [], ◌∷◌, arith, Bool,
}
use beerengineer.Base.Tests.{leb, if◌then◌else◌, Bool-cases, Option-cases}
use beerengineer.Base.Lists.{any, find, select}
use beerengineer.Base.Texts.{eq_text, eq_text_iff, eq_text_self}
use beerengineer.PortAllocator.Table.{IsTrial, assign_port-IsTrial}
use beerengineer.PortAllocator.{
  hash_branch, Pool, AssignmentRow, has_path, has_port, collides, insert_row, size, Assignment,
  candidate, row_for, try_ports, lookup_port, assign_port, release_port,
}

-- A path that has no port is on no row.
any-has_path :
    (path : String) (rows : List AssignmentRow)
    → lookup_port path rows ≡ none
    → any (has_path path) rows ≡ false
unfolding lookup_port find any
any-has_path path [] h = refl
any-has_path path (row ∷ rows) h = ground (arith, any-has_path path rows)

module _ (pool : Pool) (path branch : String) (now : ℕ) where
  any-collides :
      (port : ℕ) (rows : List AssignmentRow)
      → any (has_path path) rows ≡ false
      → any (collides (row_for pool path branch now port)) rows ≡ any (has_port port) rows
  unfolding any
  any-collides port [] h = refl
  any-collides port (row ∷ rows) h = ground (arith, any-collides port rows)

  try_ports-none :
      (insert_fails : AssignmentRow → Bool) (offset i left : ℕ) (rows : List AssignmentRow) (k : ℕ)
      → any (has_path path) rows ≡ false
      → (try_ports pool path branch now insert_fails offset i left rows).1 ≡ none
      → i ≤ k
      → k < i + left
      → (any (has_port (candidate pool path branch now offset k)) rows
          || insert_fails (row_for pool path branch now (candidate pool path branch now offset k)))
        ≡ true
  unfolding try_ports insert_row
  try_ports-none insert_fails offset i zero rows k p h l u = absurd (omega arith)
  try_ports-none insert_fails offset i (suc left) rows k p h l u =
      let port : ℕ = candidate pool path branch now offset i in
      elim (Bool-cases (
        any (collides (row_for pool path branch now port)) rows
        || insert_fails (row_for pool path branch now port))) [
          | inl e ↦ elim (Bool-cases (leb (suc i) k)) [
            | inl later ↦
                try_ports-none insert_fails offset (suc i) left rows k p (ground arith)
                  (ground arith) (omega arith)
            | inr now_ ↦
                let same : k ≡ i = ground arith in
                rw same (
                  ap (λ b. b || insert_fails (row_for pool path branch now port))
                    (sym (any-collides port rows p))
                  ∙ e)
          ]
          | inr e ↦ absurd (ground arith)
        ]

-- Every place of a ring is reached from any other.
reach : (offset j n : ℕ) → j < n → offset < n → (i : ℕ) × ((i < n) × ((offset + i) % n ≡ j))
reach offset j n h k = elim (Bool-cases (leb offset j)) [
  | inl e ↦
      let back : offset + (j - offset) ≡ j = ground arith in
      (j - offset, (omega arith, ap (λ m. m % n) back ∙ mod-eq_of_lt h))
  | inr e ↦
      let back : offset + (j + n - offset) ≡ j + n = omega arith in
      let less : j + n - offset < n = ground arith in
      (j + n - offset, (less, ap (λ m. m % n) back ∙ add-mod_right j n ∙ mod-eq_of_lt h))
]

module _ (codes : String → List ℕ) (insert_fails : AssignmentRow → Bool) (pool : Pool)
    (path branch : String) (now : ℕ) where
  none-lookup_port :
      (rows : List AssignmentRow)
      → (assign_port codes insert_fails pool path branch now rows).1 ≡ none
      → (lookup_port path rows ≡ none)
        × ((try_ports pool path branch now insert_fails
              (hash_branch (codes branch) % size pool)
              0
              (size pool)
              rows).1
            ≡ none)
  unfolding assign_port
  none-lookup_port rows h = elim (Option-cases (lookup_port path rows)) [
    | inl e ↦ (e, ground arith)
    | inr (port, e) ↦ absurd (ground arith)
  ]

  -- An assignment fails with the pool exhausted only if the path has no port and for every port of the
  -- pool there is a row in the table, or the database refused its row for another reason: the loop has
  -- tried them all.
  pub assign_port-exhausted :
      (rows : List AssignmentRow) (port : ℕ)
      → (assign_port codes insert_fails pool path branch now rows).1 ≡ none
      → pool.start ≤ port
      → port ≤ pool.end
      → (lookup_port path rows ≡ none)
        × ((any (has_port port) rows || insert_fails (row_for pool path branch now port)) ≡ true)
  assign_port-exhausted rows port h l u =
      let (free, tried) = none-lookup_port rows h in
      let offset : ℕ = hash_branch (codes branch) % size pool in
      let (i, (bound, e)) =
        reach offset (port - pool.start) (size pool) (omega arith)
          (mod-lt (hash_branch (codes branch)) {m = size pool} (omega arith)) in
      (
        free,
        subst (λ q. (any (has_port q) rows || insert_fails (row_for pool path branch now q)) ≡ true)
            (ap (λ j. pool.start + j) e ∙ omega arith)
            (try_ports-none pool path branch now insert_fails offset 0 (size pool) rows i
              (any-has_path path rows free) tried (omega arith) (omega arith)),
      )

lookup_port-select :
    (path other : String) (rows : List AssignmentRow)
    → lookup_port other (release_port path rows)
      ≡ (if eq_text path other then none else lookup_port other rows)
unfolding lookup_port find release_port select
lookup_port-select path other [] = ground arith
lookup_port-select path other (row ∷ rows) = ground (
  arith,
  lookup_port-select path other rows,
  eq_text_iff path other,
  eq_text_iff row.worktree_path path,
  eq_text_iff row.worktree_path other,
)

release-absent :
    (path : String) (rows : List AssignmentRow)
    → any (has_path path) rows ≡ false
    → release_port path rows ≡ rows
unfolding release_port select any
release-absent path [] h = refl
release-absent path (row ∷ rows) h = ground (arith, release-absent path rows)

release-row :
    (path : String) (row : AssignmentRow) (rows : List AssignmentRow)
    → has_path path row ≡ true
    → release_port path (row ∷ rows) ≡ release_port path rows
unfolding release_port select
release-row path row rows h = ground arith

-- Releasing the port that a path without one was given restores the table, also if none was left.
pub release-assign_port :
    (codes : String → List ℕ) (insert_fails : AssignmentRow → Bool) (pool : Pool)
    (path branch : String) (now : ℕ) (rows : List AssignmentRow)
    → lookup_port path rows ≡ none
    → release_port path (assign_port codes insert_fails pool path branch now rows).0 ≡ rows
unfolding assign_port
release-assign_port codes insert_fails pool path branch now rows h = rw h (
    go
      (try_ports pool path branch now insert_fails (hash_branch (codes branch) % size pool) 0
        (size pool) rows)
      (assign_port-IsTrial codes insert_fails pool path branch now rows))
  where
    gone : release_port path rows ≡ rows
    gone = release-absent path rows (any-has_path path rows h)

    go : (out : Assignment) → IsTrial pool path branch now rows out → release_port path out.0 ≡ rows
    go out (inl e) = ap (λ o. release_port path o.0) e ∙ gone
    go out (inr (i, (offset, (free, e)))) =
        ap (λ o. release_port path o.0) e ∙ release-row path _ rows (eq_text_self path) ∙ gone
