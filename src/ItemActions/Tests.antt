-- ===== src/ItemActions/Tests.antt =====
-- The operator's actions on concrete items.
use beerengineer.Base.{String, ◌≡◌, refl, true, false, none, some, [], ◌∷◌, arith}
use beerengineer.Base.Lists.{All, find, select}
use beerengineer.Base.Sorting.{sort}
use beerengineer.Base.Texts.{eq_text, has}
use beerengineer.RunStore.Rows.{
  ItemRow, Db, BoardColumn, idea, brainstorm, implementation, merge, PhaseStatus, draft, running,
  review_required,
}
use beerengineer.RunStore.Updates.{get_item, get_run}
use beerengineer.RunStore.Queries.{get_open_prompt}
use beerengineer.RunStore.Samples.{two_runs}
use beerengineer.ItemActions.Matrix.{
  start_brainstorm, promote_to_base, start_run, lookup_transition,
}
use beerengineer.ItemActions.Visible.{
  Facts, visible_actions_for_item, visible_actions_for_item-IsAllowed, IsAllowed,
}
use beerengineer.ItemActions.Readiness.{
  Files, load_resume_readiness, is_ready, load_resume_readiness-is_resumable,
}
use beerengineer.ItemActions.Service.{State, Environment, perform, ok}
use beerengineer.ItemActions.Effects.{perform-failure}
use beerengineer.ItemActions.Moves.{IsMove, perform-IsMove}

abbrev item_at : String → BoardColumn → PhaseStatus → ItemRow
item_at id column phase = record {
  id = id;
  code = "ITEM-1";
  current_column = column;
  phase_status = phase;
  current_stage = none;
  updated_at = 3;
}

abbrev no_files : Files
no_files = record {
  infer_workspace_dir = λ r. some "/work";
  read_recovery_record = λ dir id scope. none;
}

abbrev test_env : Environment
test_env = record {
  now = 50;
  new_id = "rem-1";
  inflight = [];
  files = no_files;
  action_values = λ text. "promote" ∷ "cancel" ∷ [];
  answer_run_prompt = λ run_id prompt_id answer db. (db, true);
  names_conflict = λ s. true;
  workspace_root = λ db r. some "/work";
  validate = λ root. some ok;
}

abbrev test_db : Db
test_db = record {
  runs = two_runs;
  items = item_at "item" implementation review_required ∷ item_at "new" idea draft ∷ [];
  prompts = [];
}

abbrev test_state : State
test_state = record { db = test_db; remediations = []; events = [] }

abbrev merge_facts : Facts
merge_facts = record {
  current_stage = none;
  has_open_prompt = true;
  has_review_gate_waiting = true;
  has_blocked_run = false;
  has_merge_conflict_blocked_run = true;
}

visible_actions_for_item-IsAllowed_example :
    All
      (IsAllowed merge review_required)
      (visible_actions_for_item merge review_required merge_facts)
visible_actions_for_item-IsAllowed_example =
    visible_actions_for_item-IsAllowed merge review_required merge_facts (λ _. refl)

load_resume_readiness-is_resumable_example :
    is_ready (load_resume_readiness no_files [] test_db "r2") ≡ true
unfolding get_run get_open_prompt find has eq_text sort select
load_resume_readiness-is_resumable_example =
    load_resume_readiness-is_resumable no_files [] test_db "r2"

perform-failure_example : (perform test_env test_state "item" promote_to_base none).0 ≡ test_state
unfolding perform get_item find lookup_transition eq_text
perform-failure_example =
    perform-failure test_env (λ run_id prompt_id answer db h. ground arith) test_state "item"
      promote_to_base none refl

perform-IsMove_example :
    IsMove test_env test_state
      (item_at "new" idea draft)
      start_brainstorm
      brainstorm
      running
      "item"
      (start_run brainstorm)
      (perform test_env test_state "new" start_brainstorm none)
unfolding get_item find lookup_transition eq_text
perform-IsMove_example =
    perform-IsMove test_env test_state (item_at "new" idea draft) start_brainstorm none brainstorm
      running "item" refl refl refl
