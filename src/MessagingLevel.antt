-- ===== src/MessagingLevel.antt =====
-- The messaging level of a workflow event (apps/engine/src/core/messagingLevel.ts).
use beerengineer.Base.{ℕ, String, Bool, true, false, ◌&&◌, ◌||◌, Option, none, some, List}
use beerengineer.Base.Tests.{leb, ◌==◌, if◌then◌else◌, split_option}
use beerengineer.Base.Texts.{eq_text, is_text}
pub mod Delivery

pub data MessagingLevel : Type 0 where
  l0 l1 l2 : MessagingLevel

pub data CanonicalMessageType : Type 0 where
  run_started run_finished run_failed run_blocked dirty_master_allowlist_restore startup_recovery
        run_resumed run_recovery_action plan_regenerated phase_started phase_completed phase_failed
        prompt_requested prompt_answered agent_message user_message loop_iteration review_feedback
        tool_called tool_result llm_thinking llm_tokens artifact_written log project_created
        wireframes_ready design_ready external_remediation_recorded item_column_changed presentation
        wave_serialized merge_gate_open merge_gate_cancelled merge_completed worktree_port_assigned
        supabase_branch_provisioning_started supabase_branch_ready supabase_branch_migration_started
        supabase_branch_migration_passed supabase_branch_seed_started supabase_branch_seed_passed
        supabase_branch_db_tests_started supabase_branch_db_tests_passed supabase_branch_failed
        supabase_branch_retained supabase_branch_destroying supabase_branch_destroyed
        supabase_operator_action :
      CanonicalMessageType

pub record LevelInfo : Type 0 where
  pub level : MessagingLevel
  pub force : Bool
  pub type : CanonicalMessageType

-- `SIMPLE_EVENT_TYPES`: the events whose level depends on nothing but their type.
pub data SimpleEventType : Type 0 where
  run_started run_finished run_failed run_blocked dirty_master_allowlist_restore run_resumed
        run_recovery_action plan_regenerated external_remediation_recorded stage_started
        prompt_requested prompt_answered review_feedback tool_called tool_result llm_thinking
        llm_tokens item_column_changed project_created wireframes_ready design_ready
        artifact_written presentation wave_serialized merge_gate_open merge_gate_cancelled
        merge_completed worktree_port_assigned supabase_operator_action :
      SimpleEventType

pub data CompletionStatus : Type 0 where
  completed failed : CompletionStatus

pub data LoopPhase : Type 0 where
  begin user_message_phase review_feedback_phase review : LoopPhase

pub data Source : Type 0 where
  stage_agent reviewer system cli api webhook : Source

pub data LogLevel : Type 0 where
  info warn error : LogLevel

pub data Step : Type 0 where
  branch_creation migrations seed db_tests cleanup : Step

pub data StepStatus : Type 0 where
  idle in_progress passed failed retained : StepStatus

-- `WorkflowEvent`, with the fields that the levels read. A startup recovery carries whether its
-- outcome is `failed`.
pub data WorkflowEvent : Type 0 where
  simple : SimpleEventType → WorkflowEvent
  startup_recovery_event : (is_failed : Bool) → WorkflowEvent
  stage_completed : CompletionStatus → WorkflowEvent
  loop_iteration_event : (n : ℕ) → LoopPhase → WorkflowEvent
  chat_message : (role : String) → Source → (requires_response : Bool) → WorkflowEvent
  log_event : Option LogLevel → WorkflowEvent
  supabase_branch_lifecycle : Step → StepStatus → WorkflowEvent

abbrev info_of : MessagingLevel → Bool → CanonicalMessageType → LevelInfo
info_of l f t = record { level = l; force = f; type = t }

unfoldable pub simple_levels_by_event : SimpleEventType → LevelInfo
simple_levels_by_event SimpleEventType.run_started =
    info_of l2 false CanonicalMessageType.run_started
simple_levels_by_event SimpleEventType.run_finished =
    info_of l2 false CanonicalMessageType.run_finished
simple_levels_by_event SimpleEventType.run_failed = info_of l2 true CanonicalMessageType.run_failed
simple_levels_by_event SimpleEventType.run_blocked =
    info_of l2 true CanonicalMessageType.run_blocked
simple_levels_by_event SimpleEventType.dirty_master_allowlist_restore =
    info_of l1 false CanonicalMessageType.dirty_master_allowlist_restore
simple_levels_by_event SimpleEventType.run_resumed =
    info_of l2 false CanonicalMessageType.run_resumed
simple_levels_by_event SimpleEventType.run_recovery_action =
    info_of l1 false CanonicalMessageType.run_recovery_action
simple_levels_by_event SimpleEventType.plan_regenerated =
    info_of l2 false CanonicalMessageType.plan_regenerated
simple_levels_by_event SimpleEventType.external_remediation_recorded =
    info_of l2 false CanonicalMessageType.external_remediation_recorded
simple_levels_by_event stage_started = info_of l1 false phase_started
simple_levels_by_event SimpleEventType.prompt_requested =
    info_of l2 false CanonicalMessageType.prompt_requested
simple_levels_by_event SimpleEventType.prompt_answered =
    info_of l1 false CanonicalMessageType.prompt_answered
simple_levels_by_event SimpleEventType.review_feedback =
    info_of l1 false CanonicalMessageType.review_feedback
simple_levels_by_event SimpleEventType.tool_called =
    info_of l0 false CanonicalMessageType.tool_called
simple_levels_by_event SimpleEventType.tool_result =
    info_of l0 false CanonicalMessageType.tool_result
simple_levels_by_event SimpleEventType.llm_thinking =
    info_of l0 false CanonicalMessageType.llm_thinking
simple_levels_by_event SimpleEventType.llm_tokens = info_of l0 false CanonicalMessageType.llm_tokens
simple_levels_by_event SimpleEventType.item_column_changed =
    info_of l1 false CanonicalMessageType.item_column_changed
simple_levels_by_event SimpleEventType.project_created =
    info_of l2 false CanonicalMessageType.project_created
simple_levels_by_event SimpleEventType.wireframes_ready =
    info_of l2 false CanonicalMessageType.wireframes_ready
simple_levels_by_event SimpleEventType.design_ready =
    info_of l2 false CanonicalMessageType.design_ready
simple_levels_by_event SimpleEventType.artifact_written =
    info_of l0 false CanonicalMessageType.artifact_written
simple_levels_by_event SimpleEventType.presentation =
    info_of l0 false CanonicalMessageType.presentation
simple_levels_by_event SimpleEventType.wave_serialized =
    info_of l1 false CanonicalMessageType.wave_serialized
simple_levels_by_event SimpleEventType.merge_gate_open =
    info_of l1 false CanonicalMessageType.merge_gate_open
simple_levels_by_event SimpleEventType.merge_gate_cancelled =
    info_of l1 false CanonicalMessageType.merge_gate_cancelled
simple_levels_by_event SimpleEventType.merge_completed =
    info_of l1 false CanonicalMessageType.merge_completed
simple_levels_by_event SimpleEventType.worktree_port_assigned =
    info_of l1 false CanonicalMessageType.worktree_port_assigned
simple_levels_by_event SimpleEventType.supabase_operator_action =
    info_of l1 false CanonicalMessageType.supabase_operator_action

abbrev is_final_facing_agent_message : Source → Bool → Bool
is_final_facing_agent_message reviewer requires_response = true
is_final_facing_agent_message _ requires_response = requires_response

abbrev startup_recovery_level : Bool → LevelInfo
startup_recovery_level is_failed = info_of l2 is_failed startup_recovery

abbrev stage_completed_level : CompletionStatus → LevelInfo
stage_completed_level completed = info_of l2 false phase_completed
stage_completed_level CompletionStatus.failed = info_of l2 true phase_failed

abbrev loop_iteration_level : ℕ → LoopPhase → LevelInfo
loop_iteration_level n review = info_of (if n == 1 then l2 else l1) false loop_iteration
loop_iteration_level n _ = info_of l1 false loop_iteration

unfoldable pub chat_message_level : String → Source → Bool → LevelInfo
chat_message_level role source requires_response =
    if eq_text role "user"
    then info_of l1 false user_message
    else info_of (if is_final_facing_agent_message source requires_response then l1 else l0) false
        agent_message

abbrev log_level : Option LogLevel → LevelInfo
log_level (some warn) = info_of l1 false log
log_level (some error) = info_of l1 false log
log_level _ = info_of l0 false log

unfoldable pub supabase_lifecycle_message_type : Step → StepStatus → CanonicalMessageType
supabase_lifecycle_message_type step StepStatus.failed = supabase_branch_failed
supabase_lifecycle_message_type step retained = supabase_branch_retained
supabase_lifecycle_message_type branch_creation in_progress = supabase_branch_provisioning_started
supabase_lifecycle_message_type branch_creation passed = supabase_branch_ready
supabase_lifecycle_message_type migrations in_progress = supabase_branch_migration_started
supabase_lifecycle_message_type migrations passed = supabase_branch_migration_passed
supabase_lifecycle_message_type seed in_progress = supabase_branch_seed_started
supabase_lifecycle_message_type seed passed = supabase_branch_seed_passed
supabase_lifecycle_message_type db_tests in_progress = supabase_branch_db_tests_started
supabase_lifecycle_message_type db_tests passed = supabase_branch_db_tests_passed
supabase_lifecycle_message_type cleanup in_progress = supabase_branch_destroying
supabase_lifecycle_message_type cleanup passed = supabase_branch_destroyed
supabase_lifecycle_message_type step _ = supabase_branch_retained

abbrev is_alarming : StepStatus → Bool
is_alarming StepStatus.failed = true
is_alarming retained = true
is_alarming _ = false

abbrev supabase_branch_lifecycle_level : Step → StepStatus → LevelInfo
supabase_branch_lifecycle_level step status =
    info_of l1 (is_alarming status) (supabase_lifecycle_message_type step status)

unfoldable pub level_of : WorkflowEvent → LevelInfo
level_of (simple t) = simple_levels_by_event t
level_of (startup_recovery_event is_failed) = startup_recovery_level is_failed
level_of (stage_completed status) = stage_completed_level status
level_of (loop_iteration_event n phase) = loop_iteration_level n phase
level_of (chat_message role source requires_response) =
    chat_message_level role source requires_response
level_of (log_event level) = log_level level
level_of (supabase_branch_lifecycle step status) = supabase_branch_lifecycle_level step status

abbrev named_level : String → MessagingLevel → MessagingLevel
named_level text default =
    if eq_text text "L0" || eq_text text "0"
    then l0
    else if eq_text text "L1" || eq_text text "1"
    then l1
    else if eq_text text "L2" || eq_text text "2"
    then l2
    else default

-- `normalize` is `input.trim().toUpperCase()`.
unfoldable pub messaging_level_from_query :
    (normalize : String → String) → Option String → MessagingLevel → MessagingLevel
messaging_level_from_query normalize input default =
    split_option default
      (λ text. if eq_text text "" then default else named_level (normalize text) default) input

abbrev pub rank : MessagingLevel → ℕ
rank l0 = 0
rank l1 = 1
rank l2 = 2

unfoldable pub should_deliver_at_level : LevelInfo → MessagingLevel → Bool
should_deliver_at_level entry subscribed = entry.force || leb (rank subscribed) (rank entry.level)
