-- ===== src/RunStore/Rows.antt =====
-- Row types of apps/engine/src/db/repositories/types.ts. `string | null` is `Option String`.
use beerengineer.Base.{ℕ, String, Bool, true, false, Option, some, List}
use beerengineer.Base.Texts.{eq_text, is_text}

pub data RunOwner : Type 0 where
  cli api : RunOwner

pub data RecoveryStatus : Type 0 where
  blocked failed : RecoveryStatus

pub data RecoveryScope : Type 0 where
  run stage story : RecoveryScope

-- `RunRow`. The columns that no modelled operation reads or writes (`workspace_id`, `title`,
-- `workspace_fs_id` and the `supabase_branch_*` columns) are left out.
pub record RunRow : Type 0 where
  pub id : String
  pub item_id : String
  pub status : String
  pub current_stage : Option String
  pub owner : RunOwner
  pub recovery_status : Option RecoveryStatus
  pub recovery_scope : Option RecoveryScope
  pub recovery_scope_ref : Option String
  pub recovery_summary : Option String
  pub recovery_payload_json : Option String
  pub worker_instance_id : Option String
  pub worker_owner_kind : Option RunOwner
  pub worker_started_at : Option ℕ
  pub worker_heartbeat_at : Option ℕ
  pub created_at : ℕ
  pub updated_at : ℕ

pub data BoardColumn : Type 0 where
  idea brainstorm frontend requirements implementation merge done : BoardColumn

pub data PhaseStatus : Type 0 where
  draft running review_required completed failed : PhaseStatus

-- `ItemRow`, without its `workspace_id`, `title`, `description` and `created_at` columns.
pub record ItemRow : Type 0 where
  pub id : String
  pub code : String
  pub current_column : BoardColumn
  pub phase_status : PhaseStatus
  pub current_stage : Option String
  pub updated_at : ℕ

-- `PendingPromptRow` with the stage key that `getOpenPrompt` joins to it.
pub record PromptRow : Type 0 where
  pub id : String
  pub run_id : String
  pub answered_at : Option ℕ
  pub prompt_stage_key : Option String
  pub actions_json : Option String
  pub created_at : ℕ

-- The tables that the modelled operations read and write.
pub record Db : Type 0 where
  pub runs : List RunRow
  pub items : List ItemRow
  pub prompts : List PromptRow

abbrev pub eq_owner : RunOwner → RunOwner → Bool
eq_owner cli cli = true
eq_owner api api = true
eq_owner _ _ = false

abbrev pub is_owner : Option RunOwner → RunOwner → Bool
is_owner (some a) b = eq_owner a b
is_owner _ _ = false

abbrev pub is_status : Option RecoveryStatus → RecoveryStatus → Bool
is_status (some RecoveryStatus.blocked) RecoveryStatus.blocked = true
is_status (some RecoveryStatus.failed) RecoveryStatus.failed = true
is_status _ _ = false

abbrev pub is_scope : Option RecoveryScope → RecoveryScope → Bool
is_scope (some RecoveryScope.run) RecoveryScope.run = true
is_scope (some RecoveryScope.stage) RecoveryScope.stage = true
is_scope (some RecoveryScope.story) RecoveryScope.story = true
is_scope _ _ = false

-- `status = ?`.
abbrev pub has_status : RunRow → String → Bool
has_status r s = eq_text r.status s

abbrev pub at_stage : RunRow → String → Bool
at_stage r s = is_text r.current_stage s
