-- ===== src/PortAllocator/Tests.antt =====
-- A pool of two ports.
use beerengineer.Base.{
  ℕ, String, ◌≡◌, refl, Bool, ◌||◌, true, false, none, some, List, [], ◌∷◌, arith,
}
use beerengineer.Base.Lists.{any, find}
use beerengineer.Base.Texts.{eq_text}
use beerengineer.PortAllocator.{
  hash_branch, hash_codes, shift_5, to_bits, Pool, AssignmentRow, has_port, row_for, assign_port,
  lookup_port, try_ports, insert_row,
}
use beerengineer.PortAllocator.Table.{WellFormed, assign_port-WellFormed, assign_port_twice}
use beerengineer.PortAllocator.Assign.{assign_port-exhausted}

abbrev two_ports : Pool
two_ports = record { start = 3200; end = 3201 }

abbrev no_codes : String → List ℕ
no_codes branch = []

abbrev none_fails : AssignmentRow → Bool
none_fails r = false

abbrev row : String → ℕ → AssignmentRow
row path port = record { worktree_path = path; branch = "main"; port = port; created_at = 1 }

abbrev one_row : List AssignmentRow
one_row = row "/a" 3200 ∷ []

one_row-WellFormed : WellFormed two_ports one_row
unfolding any
one_row-WellFormed = ((refl, tt), (omega arith, tt))

assign_port-WellFormed_example :
    WellFormed two_ports (assign_port no_codes none_fails two_ports "/b" "main" 5 one_row).0
assign_port-WellFormed_example =
    assign_port-WellFormed no_codes none_fails two_ports "/b" "main" 5 one_row (omega arith)
      one_row-WellFormed

assign_port_second_test :
    (assign_port no_codes none_fails two_ports "/b" "main" 5 one_row).1 ≡ some 3201
unfolding assign_port try_ports lookup_port insert_row any find eq_text hash_branch hash_codes
assign_port_second_test = refl

hash_branch_test : hash_branch (109 ∷ 97 ∷ 105 ∷ 110 ∷ []) ≡ 3343801
unfolding hash_branch hash_codes shift_5 to_bits
hash_branch_test = refl

-- A database that cannot be written reports the pool exhausted, although both ports are free.
read_only : (assign_port no_codes (λ r. true) two_ports "/c" "main" 5 []).1 ≡ none
unfolding assign_port try_ports lookup_port insert_row any find eq_text hash_branch hash_codes
read_only = refl

-- The second port is free, but its row is refused.
abbrev second_fails : AssignmentRow → Bool
second_fails r = has_port 3201 r

assign_port-exhausted_example :
    (lookup_port "/c" one_row ≡ none)
    × ((any (has_port 3201) one_row || second_fails (row_for two_ports "/c" "main" 5 3201)) ≡ true)
unfolding assign_port try_ports lookup_port insert_row any find eq_text hash_branch hash_codes
assign_port-exhausted_example =
    assign_port-exhausted no_codes second_fails two_ports "/c" "main" 5 one_row 3201 refl
      (omega arith) (omega arith)

assign_port_twice_example :
    assign_port no_codes second_fails two_ports "/b" "other" 9
      (assign_port no_codes none_fails two_ports "/b" "main" 5 one_row).0
    ≡ ((assign_port no_codes none_fails two_ports "/b" "main" 5 one_row).0, some 3201)
assign_port_twice_example =
    assign_port_twice no_codes none_fails second_fails two_ports two_ports "/b" "main" "other" 5 9
      one_row 3201 assign_port_second_test
