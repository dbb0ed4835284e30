-- ===== src/PortAllocator.antt =====
-- The ports of worktrees (apps/engine/src/core/portAllocator.ts). The table is a list of rows; its
-- file, its schema and the path's normal form are left out.
use beerengineer.Base.{
  ℕ, zero, suc, ◌+◌, ◌-◌, ◌*◌, ◌%◌, String, Bool, true, false, not, ◌&&◌, ◌||◌, Option, none, some,
  List, [], ◌∷◌,
}
use beerengineer.Base.Tests.{ltb, leb, ◌==◌, if◌then◌else◌, split_option}
use beerengineer.Base.Lists.{any, find, select, length}
use beerengineer.Base.Texts.{eq_text}
pub mod Table
pub mod Assign
mod Tests

pub record Pool : Type 0 where
  pub start : ℕ
  pub end : ℕ

pub record AssignmentRow : Type 0 where
  pub worktree_path : String
  pub branch : String
  pub port : ℕ
  pub created_at : ℕ

abbrev pub default_pool : Pool
default_pool = record { start = 3200; end = 3399 }

-- `start > 0 && end >= start`, the test that both sources of a pool pass.
abbrev pub is_pool : ℕ → ℕ → Bool
is_pool start end = ltb 0 start && leb start end

-- The two numbers of the environment's text, if it has the form `start-end`.
unfoldable pub parse_pool : Option (ℕ × ℕ) → Pool
parse_pool none = default_pool
parse_pool (some (start, end)) =
    if is_pool start end then record { start = start; end = end } else default_pool

-- The two numbers of the workspace's file, if it has them.
unfoldable pub read_workspace_pool : Option (ℕ × ℕ) → Option (ℕ × ℕ) → Pool
unfolding parse_pool
read_workspace_pool none env = parse_pool env
read_workspace_pool (some (start, end)) env =
    if is_pool start end then record { start = start; end = end } else parse_pool env

abbrev pub has_path : String → AssignmentRow → Bool
has_path path row = eq_text row.worktree_path path

abbrev pub has_port : ℕ → AssignmentRow → Bool
has_port port row = row.port == port

-- An insert fails on a path (the primary key) or a port (unique) that is there.
abbrev pub collides : AssignmentRow → AssignmentRow → Bool
collides new row = has_path new.worktree_path row || has_port new.port row

-- `insert_fails` says which rows the database refuses for another reason (busy, read-only, full).
unfoldable pub insert_row :
    (insert_fails : AssignmentRow → Bool)
    → AssignmentRow
    → List AssignmentRow
    → Option (List AssignmentRow)
insert_row insert_fails new rows =
    if any (collides new) rows || insert_fails new then none else some (new ∷ rows)

abbrev pub size : Pool → ℕ
size pool = pool.end - pool.start + 1

-- A number of JavaScript as a difference; the hash is exact while it stays below 2 ^ 53.
pub record Difference : Type 0 where
  pub plus : ℕ
  pub minus : ℕ

abbrev pub two_32 : ℕ
two_32 = 4294967296

-- The 32 bits of a number, as `<<` reads them.
unfoldable pub to_bits : Difference → ℕ
to_bits d = (d.plus % two_32 + (two_32 - d.minus % two_32)) % two_32

abbrev signed : ℕ → Difference
signed bits =
    if ltb bits 2147483648
    then record { plus = bits; minus = 0 }
    else record { plus = 0; minus = two_32 - bits }

-- `hash << 5`.
unfoldable pub shift_5 : Difference → Difference
unfolding to_bits
shift_5 d = signed (to_bits d * 32 % two_32)

-- `Math.trunc((hash << 5) - hash + code)`: `Math.trunc` leaves a whole number as it is.
abbrev hash_step : Difference → ℕ → Difference → Difference
hash_step d code shifted = record {
  plus = shifted.plus + d.minus + code;
  minus = shifted.minus + d.plus;
}

unfoldable pub hash_codes : Difference → List ℕ → Difference
unfolding shift_5
hash_codes d [] = d
hash_codes d (code ∷ codes) = hash_codes (hash_step d code (shift_5 d)) codes

-- `codes` are the code points of a branch at its UTF-16 positions.
unfoldable pub hash_branch : List ℕ → ℕ
unfolding hash_codes
hash_branch codes =
    let hash = hash_codes (record { plus = 0; minus = 0 }) codes in
    if leb hash.minus hash.plus then hash.plus - hash.minus else hash.minus - hash.plus

-- The new table and the port, or none for `WorktreePortPoolExhaustedError`.
abbrev pub Assignment : Type 0
Assignment = List AssignmentRow × Option ℕ

module _ (pool : Pool) (path branch : String) (now : ℕ) where
  abbrev pub candidate : ℕ → ℕ → ℕ
  candidate offset i = pool.start + (offset + i) % size pool

  abbrev pub row_for : ℕ → AssignmentRow
  row_for port = record { worktree_path = path; branch = branch; port = port; created_at = now }

  -- The `catch` round the insert takes whatever it throws for a port that is not free. The loop from `i` with `left` rounds to go, so `i + left` is the size of the pool.
  unfoldable pub try_ports :
      (insert_fails : AssignmentRow → Bool) → ℕ → ℕ → ℕ → List AssignmentRow → Assignment
  try_ports insert_fails offset i zero rows = (rows, none)
  try_ports insert_fails offset i (suc left) rows =
      let next = try_ports insert_fails offset (suc i) left rows in
      split_option next (λ rows'. (rows', some (candidate offset i)))
        (insert_row insert_fails (row_for (candidate offset i)) rows)

unfoldable pub lookup_port : String → List AssignmentRow → Option ℕ
lookup_port path rows = split_option none (λ row. some row.port) (find (has_path path) rows)

unfoldable pub assign_port :
    (codes : String → List ℕ)
    → (insert_fails : AssignmentRow → Bool) → Pool
    → (path branch : String) → (now : ℕ) → List AssignmentRow
    → Assignment
unfolding try_ports lookup_port
assign_port codes insert_fails pool path branch now rows =
    split_option
      (try_ports pool path branch now insert_fails (hash_branch (codes branch) % size pool) 0
        (size pool) rows)
      (λ port. (rows, some port)) (lookup_port path rows)

unfoldable pub release_port : String → List AssignmentRow → List AssignmentRow
release_port path rows = select (λ row. not (has_path path row)) rows

-- Deletes the rows whose directory is gone, and counts them.
unfoldable pub prune_missing_worktree_assignments :
    (exists : String → Bool) → List AssignmentRow → List AssignmentRow × ℕ
prune_missing_worktree_assignments exists rows = (
  select (λ row. exists row.worktree_path) rows,
  length (select (λ row. not (exists row.worktree_path)) rows),
)
