-- ===== src/WorkerAdmission/Order.antt =====
-- The order in which a drain launches the queued runs
-- (apps/engine/src/core/workerAdmission.ts).
use mathlib.Core.List.{append-nil, append_assoc}
use beerengineer.Base.{
  ℕ, String, ◌≡◌, refl, subst, sym, ◌∙◌, ap, ◌⊎◌, inl, inr, Bool, ◌&&◌, ◌≤◌, false, not, none, List,
  [], ◌∷◌, ◌++◌, arith,
}
use beerengineer.Base.Tests.{if◌then◌else◌, Bool-cases, if_ind}
use beerengineer.Base.Lists.{select, any, All, All-select, find}
use beerengineer.Base.Sorting.{sort, insert, All-sort, any-sort, All-insert}
use beerengineer.Base.Texts.{eq_text, eq_text_iff, has, has-append}
use beerengineer.Base.Maps.{add_to}
use beerengineer.RunStore.Rows.{RunRow, has_status}
use beerengineer.RunStore.Queries.{older, newer, list_runs}
use beerengineer.RunStore.Updates.{get_run}
use beerengineer.RunStore.Laws.{UniqueIds}
use beerengineer.WorkerAdmission.{
  Controller, has_capacity, launch, can_start, launch_queued, queued_runs, drain,
}

-- Rows of different ids.
abbrev Other : RunRow → RunRow → Type 0
Other r q = eq_text r.id q.id ≡ false

abbrev Distinct : List RunRow → Type 0
Distinct [] = Unit
Distinct (r ∷ rs) = All (Other r) rs × Distinct rs

Other-sym : (r q : RunRow) → Other r q → Other q r
Other-sym r q h = ground (arith, eq_text_iff r.id q.id, eq_text_iff q.id r.id)

Distinct-insert :
    (le : RunRow → RunRow → Bool) (r : RunRow) (rs : List RunRow)
    → All (Other r) rs
    → Distinct rs
    → Distinct (insert le r rs)
unfolding insert
Distinct-insert le r [] h d = (tt, tt)
Distinct-insert le r (q ∷ rs) (o, h) (k, d) =
    if_ind Distinct (le r q) (λ _. ((o, h), (k, d)))
      (λ _. (All-insert le (Other q) r rs (Other-sym r q o) k, Distinct-insert le r rs h d))

Distinct-sort :
    (le : RunRow → RunRow → Bool) (rs : List RunRow) → Distinct rs → Distinct (sort le rs)
unfolding sort
Distinct-sort le [] d = tt
Distinct-sort le (r ∷ rs) (h, d) =
    Distinct-insert le r (sort le rs) (All-sort le (Other r) rs h) (Distinct-sort le rs d)

Distinct-select : (p : RunRow → Bool) (rs : List RunRow) → Distinct rs → Distinct (select p rs)
unfolding select
Distinct-select p [] d = tt
Distinct-select p (r ∷ rs) (h, d) =
    if_ind Distinct (p r) (λ _. (All-select (Other r) p rs h, Distinct-select p rs d))
      (λ _. Distinct-select p rs d)

All-get_run-none : (r : RunRow) (rs : List RunRow) → get_run rs r.id ≡ none → All (Other r) rs
unfolding get_run find
All-get_run-none r [] h = tt
All-get_run-none r (q ∷ rs) h = (
  ground (arith, eq_text_iff r.id q.id, eq_text_iff q.id r.id),
  All-get_run-none r rs (ground arith),
)

UniqueIds-Distinct : (rs : List RunRow) → UniqueIds rs → Distinct rs
UniqueIds-Distinct [] u = tt
UniqueIds-Distinct (r ∷ rs) (h, u) = (All-get_run-none r rs h, UniqueIds-Distinct rs u)

-- Each row was created no later than those after it.
abbrev pub OldestFirst : List RunRow → Type 0
OldestFirst [] = Unit
OldestFirst (r ∷ rs) = All (λ q. r.created_at ≤ q.created_at) rs × OldestFirst rs

All-before :
    (m n : ℕ) (rs : List RunRow)
    → m ≤ n
    → All (λ (q : RunRow). n ≤ q.created_at) rs
    → All (λ (q : RunRow). m ≤ q.created_at) rs
All-before m n [] h k = tt
All-before m n (r ∷ rs) h (a, k) = (omega (arith, h, a), All-before m n rs h k)

insert-OldestFirst :
    (r : RunRow) (rs : List RunRow) → OldestFirst rs → OldestFirst (insert older r rs)
unfolding insert
insert-OldestFirst r [] h = (tt, tt)
insert-OldestFirst r (q ∷ rs) (h, k) =
    if_ind OldestFirst (older r q)
      (λ e.
        let le : r.created_at ≤ q.created_at = ground arith in
        ((le, All-before r.created_at q.created_at rs le h), (h, k)))
      (λ e. (
        All-insert older (λ (x : RunRow). q.created_at ≤ x.created_at) r rs (ground arith) h,
        insert-OldestFirst r rs k,
      ))

sort-OldestFirst : (rs : List RunRow) → OldestFirst (sort older rs)
unfolding sort
sort-OldestFirst [] = tt
sort-OldestFirst (r ∷ rs) = insert-OldestFirst r (sort older rs) (sort-OldestFirst rs)

abbrev pub is_run : String → RunRow → Bool
is_run id r = eq_text r.id id

any-select :
    (id : String) (rs : List RunRow)
    → any (is_run id) (select (λ r. has_status r "queued") rs)
      ≡ any (λ r. is_run id r && has_status r "queued") rs
unfolding any select
any-select id [] = refl
any-select id (r ∷ rs) = ground (arith, any-select id rs)

-- The queued runs, and no others, are looked at.
any-queued_runs :
    (id : String) (runs : List RunRow)
    → any (is_run id) (sort older (select (λ r. has_status r "queued") (sort newer runs)))
      ≡ any (λ r. is_run id r && has_status r "queued") runs
any-queued_runs id runs =
    any-sort older (is_run id) (select (λ r. has_status r "queued") (sort newer runs))
    ∙ any-select id (sort newer runs)
    ∙ any-sort newer (λ r. is_run id r && has_status r "queued") runs

module _ (cap : ℕ) (begin : RunRow → RunRow) where
  -- The ids of the queued runs that have a start function and are not being launched, in order.
  abbrev pub startable : Controller → List RunRow → List String
  startable c [] = []
  startable c (r ∷ queued) =
      let rest = startable c queued in if can_start cap begin c r.id then r.id ∷ rest else rest

  startable-launch :
      (id : String) (c : Controller) (runs queued : List RunRow)
      → All (λ q. eq_text id q.id ≡ false) queued
      → startable (launch cap begin id (c, runs)).0 queued ≡ startable c queued
  unfolding add_to has
  startable-launch id c runs [] h = refl
  startable-launch id c runs (q ∷ queued) (d, h) =
      ground (arith, startable-launch id c runs queued h, has-append c.launching (id ∷ []) q.id)

  -- `out` launched a first part of `ids`, and all of it unless the places ran out.
  abbrev pub LaunchedInOrder : List String → Controller → Controller × List RunRow → Type 0
  LaunchedInOrder ids c out =
      (launched : List String) × ((rest : List String) × ((ids ≡ launched ++ rest)
          × ((out.0.launching ≡ c.launching ++ launched)
              × ((rest ≡ []) ⊎ (has_capacity cap out.0 out.1 ≡ false)))))

  added_append :
      (ids : List String) (id : String) (launched : List String)
      → has ids id ≡ false
      → add_to ids id ++ launched ≡ ids ++ (id ∷ launched)
  unfolding add_to
  added_append ids id launched h = rw h (append_assoc ids (id ∷ []) launched)

  launched_first :
      (id : String) (ids : List String) (c : Controller) (runs : List RunRow)
      (out : Controller × List RunRow)
      → has c.launching id ≡ false
      → LaunchedInOrder ids (launch cap begin id (c, runs)).0 out
      → LaunchedInOrder (id ∷ ids) c out
  launched_first id ids c runs out h (launched, (rest, (e, (f, g)))) =
      (id ∷ launched, (rest, (ap (λ l. id ∷ l) e, (f ∙ added_append c.launching id launched h, g))))

  launch_queued-in_order :
      (queued : List RunRow) (c : Controller) (runs : List RunRow)
      → Distinct queued
      → LaunchedInOrder (startable c queued) c (launch_queued cap begin queued (c, runs))
  unfolding launch_queued
  launch_queued-in_order [] c runs d = ([], ([], (refl, (sym (append-nil c.launching), inl refl))))
  launch_queued-in_order (r ∷ queued) c runs (h, d) =
      elim (Bool-cases (not (has_capacity cap c runs))) [
        | inl full ↦ rw full (
          [],
          (startable c (r ∷ queued), (refl, (sym (append-nil c.launching), inr (ground arith)))),
        )
        | inr room ↦ rw room (elim (Bool-cases (can_start cap begin c r.id)) [
          | inl e ↦ rw e (
              launched_first r.id (startable c queued) c runs _ (ground arith) (
                subst
                  (λ ids.
                    LaunchedInOrder ids (launch cap begin r.id (c, runs)).0
                      (launch_queued cap begin queued (launch cap begin r.id (c, runs))))
                  (startable-launch r.id c runs queued h) (launch_queued-in_order queued _ _ d)))
          | inr e ↦ rw e (launch_queued-in_order queued c runs d)
        ])
      ]

-- A drain looks at exactly the queued runs, the oldest first. It launches the first of those that have a
-- start function and are not being launched, in this order, and it launches all of them or ends with
-- no place left, if the runs have unique ids.
pub drain-in_order :
    (cap : ℕ) (begin : RunRow → RunRow) (c : Controller) (runs : List RunRow) (id : String)
    → UniqueIds runs
    → (OldestFirst (queued_runs cap begin runs)
        × (any (is_run id) (queued_runs cap begin runs)
            ≡ any (λ r. is_run id r && has_status r "queued") runs))
      × LaunchedInOrder cap begin
          (startable cap begin c (queued_runs cap begin runs))
          c
          (drain cap begin (c, runs))
unfolding drain list_runs
drain-in_order cap begin c runs id u = (
  (
    sort-OldestFirst (select (λ r. has_status r "queued") (list_runs runs)),
    any-queued_runs id runs,
  ),
  launch_queued-in_order cap begin (queued_runs cap begin runs) c runs (
      Distinct-sort older (select (λ r. has_status r "queued") (list_runs runs)) (
        Distinct-select (λ r. has_status r "queued") (list_runs runs)
          (Distinct-sort newer runs (UniqueIds-Distinct runs u)))),
)
