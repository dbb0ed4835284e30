-- ===== src/RunStore/Queries.antt =====
-- Queries of apps/engine/src/db/repositories/repos.ts over the `runs` and `pending_prompts` tables.
-- Rows with equal sort keys keep the table's order.
use beerengineer.Base.{String, Bool, true, not, ◌&&◌, Option, none, some, List}
use beerengineer.Base.Tests.{leb, ltb, ◌==◌, if◌then◌else◌, is_some, is_none}
use beerengineer.Base.Lists.{select, find}
use beerengineer.Base.Sorting.{sort}
use beerengineer.Base.Texts.{eq_text, is_text}
use beerengineer.RunStore.Rows.{
  RunRow, PromptRow, Db, RecoveryStatus, stage, is_status, is_scope, has_status, at_stage,
}
use beerengineer.RunStore.Updates.{get_run}

abbrev pub older : RunRow → RunRow → Bool
older a b = leb a.created_at b.created_at

abbrev pub newer : RunRow → RunRow → Bool
newer a b = leb b.created_at a.created_at

unfoldable pub list_runs : List RunRow → List RunRow
list_runs runs = sort newer runs

unfoldable pub list_running_runs : List RunRow → List RunRow
list_running_runs runs = sort older (select (λ r. has_status r "running") runs)

unfoldable pub list_runs_for_item : List RunRow → String → List RunRow
list_runs_for_item runs item = sort newer (select (λ r. eq_text r.item_id item) runs)

-- `LIMIT 1`.
abbrev first : List RunRow → Option RunRow
first List.[] = none
first (List.◌∷◌ r _) = some r

unfoldable pub latest_active_run_for_item : List RunRow → String → Option RunRow
latest_active_run_for_item runs item =
    first (sort newer (select (λ r. eq_text r.item_id item && has_status r "running") runs))

-- `ORDER BY updated_at DESC, created_at DESC`.
abbrev pub fresher : RunRow → RunRow → Bool
fresher a b =
    if ltb b.updated_at a.updated_at
    then true
    else (a.updated_at == b.updated_at && leb b.created_at a.created_at)

unfoldable pub latest_recoverable_run_for_item : List RunRow → String → Option RunRow
latest_recoverable_run_for_item runs item =
    first (sort fresher (select (λ r. eq_text r.item_id item && is_some r.recovery_status) runs))

abbrev pub merge_gate_prompt_still_actionable : RunRow → Bool
merge_gate_prompt_still_actionable r =
    if is_status r.recovery_status RecoveryStatus.blocked
    then is_scope r.recovery_scope stage && is_text r.recovery_scope_ref "merge-gate"
    else has_status r "running" && at_stage r "merge-gate"

abbrev pub prompt_is_obsolete_for_run : RunRow → Option String → Bool
prompt_is_obsolete_for_run r stage_key =
    is_text stage_key "merge-gate" && not (merge_gate_prompt_still_actionable r)

abbrev pub newer_prompt : PromptRow → PromptRow → Bool
newer_prompt a b = leb b.created_at a.created_at

unfoldable pub select_active_prompt : RunRow → List PromptRow → Option PromptRow
select_active_prompt r prompts =
    find (λ p. not (prompt_is_obsolete_for_run r p.prompt_stage_key)) prompts

abbrev open_prompt_of : List PromptRow → String → Option RunRow → Option PromptRow
open_prompt_of prompts id none = none
open_prompt_of prompts id (some r) =
    select_active_prompt r
      (sort newer_prompt (select (λ p. eq_text p.run_id id && is_none p.answered_at) prompts))

unfoldable pub get_open_prompt : Db → String → Option PromptRow
unfolding get_run select_active_prompt
get_open_prompt db id = open_prompt_of db.prompts id (get_run db.runs id)
