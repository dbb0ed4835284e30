-- ===== src/RunStore/Items.antt =====
-- What the statements on the `items` table do to every lookup.
use beerengineer.Base.{ℕ, String, ◌≡◌, refl, false, Option, some, List, [], ◌∷◌, arith}
use beerengineer.Base.Lists.{find, find-holds}
use beerengineer.Base.Texts.{eq_text, eq_text_iff}
use beerengineer.RunStore.Rows.{ItemRow, BoardColumn, PhaseStatus}
use beerengineer.RunStore.Updates.{get_item, set_item_column, set_item_current_stage}

abbrev pub moved : ItemRow → BoardColumn → PhaseStatus → ℕ → ItemRow
moved i column phase now = record i {
  current_column = column;
  phase_status = phase;
  updated_at = now;
}

pub get_item-set_item_column_self :
    (id : String) (column : BoardColumn) (phase : PhaseStatus) (now : ℕ) (items : List ItemRow)
    (item : ItemRow)
    → get_item items id ≡ some item
    → get_item (set_item_column id column phase now items) id ≡ some (moved item column phase now)
unfolding get_item set_item_column find
get_item-set_item_column_self id column phase now [] item h = cc
get_item-set_item_column_self id column phase now (i ∷ items) item h =
    ground (arith, get_item-set_item_column_self id column phase now items item)

pub get_item-set_item_column_other :
    (id : String) (column : BoardColumn) (phase : PhaseStatus) (now : ℕ) (items : List ItemRow)
    (other : String)
    → eq_text id other ≡ false
    → get_item (set_item_column id column phase now items) other ≡ get_item items other
unfolding get_item set_item_column find
get_item-set_item_column_other id column phase now [] other h = refl
get_item-set_item_column_other id column phase now (i ∷ items) other h = ground (
  arith,
  get_item-set_item_column_other id column phase now items other h,
  eq_text_iff i.id id,
  eq_text_iff i.id other,
  eq_text_iff id other,
)

abbrev pub at_stage_key : ItemRow → Option String → ℕ → ItemRow
at_stage_key i stage now = record i { current_stage = stage; updated_at = now }

pub get_item-set_item_current_stage_self :
    (id : String) (stage : Option String) (now : ℕ) (items : List ItemRow) (item : ItemRow)
    → get_item items id ≡ some item
    → get_item (set_item_current_stage id stage now items) id ≡ some (at_stage_key item stage now)
unfolding get_item set_item_current_stage find
get_item-set_item_current_stage_self id stage now [] item h = cc
get_item-set_item_current_stage_self id stage now (i ∷ items) item h =
    ground (arith, get_item-set_item_current_stage_self id stage now items item)

pub get_item-set_item_current_stage_other :
    (id : String) (stage : Option String) (now : ℕ) (items : List ItemRow) (other : String)
    → eq_text id other ≡ false
    → get_item (set_item_current_stage id stage now items) other ≡ get_item items other
unfolding get_item set_item_current_stage find
get_item-set_item_current_stage_other id stage now [] other h = refl
get_item-set_item_current_stage_other id stage now (i ∷ items) other h = ground (
  arith,
  get_item-set_item_current_stage_other id stage now items other h,
  eq_text_iff i.id id,
  eq_text_iff i.id other,
  eq_text_iff id other,
)

-- The item that is found has the id that was asked for.
pub get_item-id :
    (items : List ItemRow) (k : String) {i : ItemRow} → get_item items k ≡ some i → i.id ≡ k
unfolding get_item
get_item-id items k {i} h = (eq_text_iff i.id k).0 (find-holds (λ x. eq_text x.id k) items h)
