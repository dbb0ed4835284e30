-- ===== src/PortAllocator/Table.antt =====
-- What an assignment does to the table (apps/engine/src/core/portAllocator.ts).
use native.Mathlib.Nat.{mod-lt}
use beerengineer.Base.{
  ℕ, zero, suc, ◌+◌, ◌%◌, ◌≤◌, String, ◌≡◌, refl, sym, subst, ◌∙◌, ◌⊎◌, inl, inr, false, none, some,
  List, [], ◌∷◌, arith, Bool,
}
use beerengineer.Base.Tests.{split_option_ind}
use beerengineer.Base.Lists.{any, find, All}
use beerengineer.Base.Texts.{eq_text, eq_text_self}
use beerengineer.PortAllocator.{
  hash_branch, Pool, AssignmentRow, collides, insert_row, size, Assignment, candidate, row_for,
  try_ports, lookup_port, assign_port,
}

-- `worktree_path` is the primary key and `port` is unique.
abbrev pub Unique : List AssignmentRow → Type 0
Unique [] = Unit
Unique (row ∷ rows) = (any (collides row) rows ≡ false) × Unique rows

abbrev pub InPool : Pool → AssignmentRow → Type 0
InPool pool row = (pool.start ≤ row.port) × (row.port ≤ pool.end)

module _ (pool : Pool) (path branch : String) (now : ℕ) where
  -- A trial leaves the table, or puts one row with a candidate port in front.
  abbrev pub IsTrial : List AssignmentRow → Assignment → Type 0
  IsTrial rows out =
      (out ≡ (rows, none))
      ⊎ ((i : ℕ) × ((offset : ℕ) × ((any
                  (collides
                    (row_for pool path branch now (candidate pool path branch now offset i)))
                  rows
                ≡ false)
              × (out ≡ (
                row_for pool path branch now (candidate pool path branch now offset i) ∷ rows,
                some (candidate pool path branch now offset i),
              )))))

  try_ports-IsTrial :
      (insert_fails : AssignmentRow → Bool) (offset i left : ℕ) (rows : List AssignmentRow)
      → IsTrial rows (try_ports pool path branch now insert_fails offset i left rows)
  unfolding try_ports insert_row
  try_ports-IsTrial insert_fails offset i zero rows = inl refl
  try_ports-IsTrial insert_fails offset i (suc left) rows =
      split_option_ind (IsTrial rows)
        (insert_row insert_fails
          (row_for pool path branch now (candidate pool path branch now offset i)) rows)
        (λ _. try_ports-IsTrial insert_fails offset (suc i) left rows)
        (λ rows' e. inr (i, (offset, (ground arith, ground arith))))

  candidate-InPool :
      (offset i : ℕ)
      → pool.start ≤ pool.end
      → InPool pool (row_for pool path branch now (candidate pool path branch now offset i))
  candidate-InPool offset i h = omega (arith, mod-lt (offset + i) {m = size pool} (omega arith))

-- The properties of a table that the statements keep.
abbrev pub WellFormed : Pool → List AssignmentRow → Type 0
WellFormed pool rows = Unique rows × All (InPool pool) rows

module _ (codes : String → List ℕ) (insert_fails : AssignmentRow → Bool) (pool : Pool)
    (path branch : String) (now : ℕ) where
  pub assign_port-IsTrial :
      (rows : List AssignmentRow)
      → IsTrial pool path branch now rows (
          try_ports pool path branch now insert_fails
            (hash_branch (codes branch) % size pool)
            0
            (size pool)
            rows)
  assign_port-IsTrial rows =
      try_ports-IsTrial pool path branch now insert_fails (hash_branch (codes branch) % size pool) 0
        (size pool) rows

  trial-WellFormed :
      (rows : List AssignmentRow) (out : Assignment)
      → pool.start ≤ pool.end
      → WellFormed pool rows
      → IsTrial pool path branch now rows out
      → WellFormed pool out.0
  trial-WellFormed rows out p (u, h) (inl e) = subst (λ o. WellFormed pool o.0) (sym e) (u, h)
  trial-WellFormed rows out p (u, h) (inr (i, (offset, (free, e)))) =
      subst (λ o. WellFormed pool o.0) (sym e)
        ((free, u), (candidate-InPool pool path branch now offset i p, h))

  -- Assigning a port keeps every path and every port in the table once, and every port in the pool.
  pub assign_port-WellFormed :
      (rows : List AssignmentRow)
      → pool.start ≤ pool.end
      → WellFormed pool rows
      → WellFormed pool (assign_port codes insert_fails pool path branch now rows).0
  unfolding assign_port
  assign_port-WellFormed rows p h =
      split_option_ind {B = Assignment} (λ out. WellFormed pool out.0) (lookup_port path rows)
        (λ _. trial-WellFormed rows _ p h (assign_port-IsTrial rows)) (λ _ _. h)

  lookup-new :
      (port : ℕ) (rows : List AssignmentRow)
      → lookup_port path (row_for pool path branch now port ∷ rows) ≡ some port
  unfolding lookup_port find
  lookup-new port rows = ground (arith, eq_text_self path)

  lookup-new_other :
      (port : ℕ) (rows : List AssignmentRow) (other : String)
      → eq_text path other ≡ false
      → lookup_port other (row_for pool path branch now port ∷ rows) ≡ lookup_port other rows
  unfolding lookup_port find
  lookup-new_other port rows other h = ground arith

  -- The port that is assigned is the one that is looked up afterwards, by the path, and no other
  -- path's port changes.
  abbrev IsAssigned : List AssignmentRow → String → Assignment → Type 0
  IsAssigned rows other out =
      ((out.1 ≡ none) ⊎ (lookup_port path out.0 ≡ out.1))
      × (lookup_port other out.0 ≡ lookup_port other rows)

  trial-IsAssigned :
      (rows : List AssignmentRow) (other : String) (out : Assignment)
      → eq_text path other ≡ false
      → IsTrial pool path branch now rows out
      → IsAssigned rows other out
  trial-IsAssigned rows other out d (inl e) = subst (IsAssigned rows other) (sym e) (inl refl, refl)
  trial-IsAssigned rows other out d (inr (i, (offset, (free, e)))) =
      subst (IsAssigned rows other) (sym e)
        (inr (lookup-new _ rows), lookup-new_other _ rows other d)

  -- Assigning a port to a path fails, or the port is the one that a lookup of the path then gives;
  -- the port of another path stays as it was.
  pub lookup-assign_port :
      (rows : List AssignmentRow) (other : String)
      → eq_text path other ≡ false
      → (((assign_port codes insert_fails pool path branch now rows).1 ≡ none)
          ⊎ (lookup_port path (assign_port codes insert_fails pool path branch now rows).0
              ≡ (assign_port codes insert_fails pool path branch now rows).1))
        × (lookup_port other (assign_port codes insert_fails pool path branch now rows).0
            ≡ lookup_port other rows)
  unfolding assign_port
  lookup-assign_port rows other d =
      split_option_ind (IsAssigned rows other) (lookup_port path rows)
        (λ _. trial-IsAssigned rows other _ d (assign_port-IsTrial rows)) (λ port e. (inr e, refl))

  assign_port_again :
      (rows : List AssignmentRow) (port : ℕ)
      → lookup_port path rows ≡ some port
      → assign_port codes insert_fails pool path branch now rows ≡ (rows, some port)
  unfolding assign_port
  assign_port_again rows port h = rw h refl

  abbrev IsFound : Assignment → Type 0
  IsFound out = (out.1 ≡ none) ⊎ (lookup_port path out.0 ≡ out.1)

  assign_port-IsFound :
      (rows : List AssignmentRow)
      → IsFound (assign_port codes insert_fails pool path branch now rows)
  unfolding assign_port
  assign_port-IsFound rows =
      split_option_ind IsFound (lookup_port path rows)
        (λ _. trial-IsFound (assign_port-IsTrial rows)) (λ port e. inr e)
    where
      trial-IsFound : {out : Assignment} → IsTrial pool path branch now rows out → IsFound out
      trial-IsFound {out} (inl e) = subst IsFound (sym e) (inl refl)
      trial-IsFound {out} (inr (i, (offset, (free, e)))) =
          subst IsFound (sym e) (inr (lookup-new _ rows))

-- A path keeps its port: once it was assigned one, another assignment for the path gives the same
-- port and leaves the table alone, whatever the branch, the pool, the time and the inserts that the
-- database then refuses.
pub assign_port_twice :
    (codes : String → List ℕ) (insert_fails insert_fails' : AssignmentRow → Bool)
    (pool pool' : Pool) (path branch branch' : String) (now now' : ℕ) (rows : List AssignmentRow)
    (port : ℕ)
    → (assign_port codes insert_fails pool path branch now rows).1 ≡ some port
    → assign_port codes insert_fails' pool' path branch' now'
        (assign_port codes insert_fails pool path branch now rows).0
      ≡ ((assign_port codes insert_fails pool path branch now rows).0, some port)
assign_port_twice codes insert_fails insert_fails' pool pool' path branch branch' now now' rows port
      h =
    elim (assign_port-IsFound codes insert_fails pool path branch now rows) [
      | inl e ↦ absurd (ground arith)
      | inr e ↦ assign_port_again codes insert_fails' pool' path branch' now' _ port (e ∙ h)
    ]
