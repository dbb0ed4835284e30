-- ===== src/DbSync/Writes.antt =====
-- What a handler of dbSync.ts may write, and the properties of the state that its single writes keep.
use beerengineer.Base.{
  String, ◌≡◌, refl, sym, Bool, true, ◌||◌, Option, none, some, List, arith, ◌&&◌, ℕ, ◌<>◌, subst,
}
use beerengineer.Base.Tests.{if_ind, split_option, split_option_ind}
use beerengineer.Base.Texts.{eq_text, has}
use beerengineer.Base.Effects.{Result, ok, err, Effect, then_at}
use beerengineer.RunStore.Rows.{BoardColumn, PhaseStatus, RecoveryStatus}
use beerengineer.RunStore.Updates.{
  RunPatch, no_patch, update_run, set_item_column, set_item_current_stage, get_run,
}
use beerengineer.RunStore.Journal.{
  Journal, DbError, insert_when, create_stage_run, complete_stage_run, append_log, record_artifact,
  create_project, set_run_recovery, clear_run_recovery, recovery_patch, ProjectRow,
}
use beerengineer.BoardColumns.{map_stage_to_column, is_running}
use beerengineer.DbSync.{
  Handler, set_runs, set_items, on_journal, log, change_run, was_sole_live_run, is_authoritative,
  update_authoritative_item_column, clear_stage_if, persist_run_started_event,
  persist_stage_started_event, persist_stage_completed_event, persist_artifact_written_event,
  persist_run_finished_event, persist_project_created_event, persist_run_recovery_event,
  persist_run_resumed_event, should_delay_recovery_clear_for_resume, persist, on_event,
  complete_stage, stage_run_of, persisted_project, enter_stage, remember_stage_run,
  remember_project, with_status, recovery_text, event_recovery_scope, recovery_scope_ref,
}
use beerengineer.DbSync.Events.{
  RecoveryEventScope, EndStatus, WorkflowEvent, Sync, SyncContext, ItemColumnChange, status_text,
  outcome_of, run_started, stage_started, stage_completed, prompt_answered, artifact_written,
  run_finished, item_column_changed, project_created, run_blocked, run_failed, run_resumed,
  presentation, log_only,
}
use beerengineer.Base.Lists.{find}

-- The event is of the subscriber's run, and not a move of an item that somebody else decided.
abbrev pub IsOfRun : SyncContext → WorkflowEvent → Type 0
IsOfRun ctx (run_started id title) = id ≡ ctx.run_id
IsOfRun ctx (stage_started id stage_run_id key project) = id ≡ ctx.run_id
IsOfRun ctx (stage_completed id stage_run_id key status error) = id ≡ ctx.run_id
IsOfRun ctx (prompt_answered id answer from_bridge) = id ≡ ctx.run_id
IsOfRun ctx (artifact_written id stage_run_id label kind path) = id ≡ ctx.run_id
IsOfRun ctx (run_finished id status) = id ≡ ctx.run_id
IsOfRun ctx (item_column_changed item column phase) = ⊥
IsOfRun ctx (project_created id item project fresh code name summary position) = id ≡ ctx.run_id
IsOfRun ctx (run_blocked id scope summary) = id ≡ ctx.run_id
IsOfRun ctx (run_failed id scope summary) = id ≡ ctx.run_id
IsOfRun ctx (run_resumed id scope) = id ≡ ctx.run_id
IsOfRun ctx (presentation none stage_run_id text) = Unit
IsOfRun ctx (presentation (some id) stage_run_id text) = id ≡ ctx.run_id
IsOfRun ctx (log_only id stage_run_id event_type message) = id ≡ ctx.run_id

-- The property is kept by each kind of write: rows that only record, the subscriber's maps, the row of
-- the run, and the item and what is published of it, where the run is the only live one.
pub record Closed (ctx : SyncContext) (P : Sync → Type 0) : Type 0 where
  pub records : (s : Sync) (j : Journal) → P s → j.db ≡ s.journal.db → P (record s { journal = j })
  pub maps :
      (s : Sync) (stage_ids : List (String × String)) (persisted : List String)
      (projects : List (String × String))
      → P s
      → P (record s {
        stage_run_ids = stage_ids;
        persisted_stage_ids = persisted;
        persisted_project_ids = projects;
      })
  pub run_row :
      (s : Sync) (patch : RunPatch)
      → P s
      → P (set_runs (update_run ctx.run_id patch ctx.now s.journal.db.runs) s)
  pub item_column :
      (start s : Sync) (column : BoardColumn) (phase : PhaseStatus)
      (published : List ItemColumnChange)
      → P start
      → was_sole_live_run ctx start ≡ true
      → P s
      → P
          (record (set_items
            (set_item_column ctx.item_id column phase ctx.now s.journal.db.items)
            s) { published = published })
  pub item_stage :
      (start s : Sync) (stage : Option String)
      → P start
      → was_sole_live_run ctx start ≡ true
      → P s
      → P (set_items (set_item_current_stage ctx.item_id stage ctx.now s.journal.db.items) s)

module _ (ctx : SyncContext) (P : Sync → Type 0) (closed : Closed ctx P) where
  -- The property holds of the state that a call leaves, whether it throws or not.
  Holds : {A : Type 0} → Result DbError A × Sync → Type 0
  Holds r = P r.1

  abbrev Keeps : {A : Type 0} → Effect Sync DbError A → Type 0
  Keeps m = (s : Sync) → P s → Holds (m s)

  Holds-of : {A : Type 0} (r : Result DbError A × Sync) → P r.1 → Holds r
  unfolding Holds
  Holds-of r h = h

  Holds-then :
      {A B : Type 0} (r : Result DbError A × Sync) (f : A → Effect Sync DbError B)
      → Holds r
      → ((a : A) (s : Sync) → P s → Holds (f a s))
      → Holds (then_at r f)
  unfolding Holds
  Holds-then (ok a, s) f h k = k a s h
  Holds-then (err e, s) f h k = h

  Holds-insert :
      {A : Type 0} (allowed : Bool) (row : A) (inserted : Journal) (s : Sync)
      → P s
      → P (record s { journal = inserted })
      → P (record s { journal = (insert_when allowed row inserted s.journal).1 })
  Holds-insert {A} allowed row inserted s h k =
      if_ind (λ (r : Result DbError A × Journal). P (record s { journal = r.1 })) allowed (λ _. k)
        (λ _. h)

  Holds-log :
      (stage_run_id : Option String) (event_type message : String) (s : Sync)
      → P s
      → Holds (log ctx ctx.run_id stage_run_id event_type message s)
  unfolding Holds append_log
  Holds-log stage_run_id event_type message s h =
      Holds-insert _ tt _ s h
        (closed.run_row (record s { journal = _ }) no_patch (closed.records s _ h refl))

  Holds-change_run : (patch : RunPatch) (s : Sync) → P s → Holds (change_run ctx ctx.run_id patch s)
  unfolding Holds
  Holds-change_run patch s h = closed.run_row s patch h

  -- The item is written where the run was the only live one at a state with the property.
  update_column_keeps :
      (start s : Sync) (target : BoardColumn × PhaseStatus) (can_write : Bool)
      → P start
      → (can_write ≡ true → was_sole_live_run ctx start ≡ true)
      → P s
      → P (update_authoritative_item_column ctx target can_write s)
  unfolding update_authoritative_item_column
  update_column_keeps start s target can_write h sole k =
      if_ind P can_write
        (λ e.
          if_ind P ctx.notifies (λ _. closed.item_column start s target.0 target.1 _ h (sole e) k)
            (λ _. closed.item_column start s target.0 target.1 s.published h (sole e) k))
        (λ _. k)

  clear_stage_keeps :
      (start s : Sync) (sole : Bool)
      → P start
      → (sole ≡ true → was_sole_live_run ctx start ≡ true)
      → P s
      → P (clear_stage_if ctx sole s).1
  clear_stage_keeps start s sole h e k =
      if_ind P sole (λ t. closed.item_stage start s none h (e t) k) (λ _. k)

  authoritative_sole :
      (status : Option EndStatus) (s : Sync)
      → is_authoritative ctx status s ≡ true
      → was_sole_live_run ctx s ≡ true
  unfolding is_authoritative
  authoritative_sole status s h = ground arith

  run_started-Keeps : (title : String) → Keeps (persist_run_started_event ctx ctx.run_id title)
  unfolding persist_run_started_event
  run_started-Keeps title s h = Holds-log none "run_started" title _ (closed.run_row s _ h)

  -- The item is moved and gets the stage under one test of authority.
  enter_stage-Keeps :
      (stage_run_id stage_key : String) → Keeps (enter_stage ctx ctx.run_id stage_run_id stage_key)
  unfolding enter_stage
  enter_stage-Keeps stage_run_id stage_key s h =
      let patch : RunPatch = record no_patch { current_stage = some (some stage_key) } in
      let u : Sync = set_runs (update_run ctx.run_id patch ctx.now s.journal.db.runs) s in
      let k : P u = closed.run_row s patch h in
      let target = map_stage_to_column (some stage_key) is_running in
      let moved =
        update_column_keeps u u target (is_authoritative ctx none u) k (authoritative_sole none u)
          k in
      Holds-log (some stage_run_id) "stage_started" ("stage " <> stage_key <> " started") _ (
        if_ind P (is_authoritative ctx none u)
          (λ e.
            closed.item_stage u
              (update_authoritative_item_column ctx target (is_authoritative ctx none u) u)
              (some stage_key) k (authoritative_sole none u e) moved)
          (λ _. moved))

  stage_started-Keeps :
      (stage_run_id stage_key : String) (project : Option String)
      → Keeps (persist_stage_started_event ctx ctx.run_id stage_run_id stage_key project)
  unfolding persist_stage_started_event
  stage_started-Keeps stage_run_id stage_key project s h =
      if_ind Holds (has s.persisted_stage_ids stage_run_id) (λ _. Holds-of _ h)
        (λ _.
          Holds-then
            (on_journal
              (create_stage_run stage_run_id ctx.run_id stage_key (persisted_project ctx project s)
                ctx.now)
              s)
            (λ _ t.
              enter_stage ctx ctx.run_id stage_run_id stage_key
                (remember_stage_run ctx stage_run_id stage_key t).1)
            (Holds-of _ created)
            (λ _ t k.
              enter_stage-Keeps stage_run_id stage_key _
                (closed.maps t _ _ t.persisted_project_ids k)))
    where
      created :
          P
            (on_journal
              (create_stage_run stage_run_id ctx.run_id stage_key
                (persisted_project ctx project s)
                ctx.now)
              s).1
      created = unfold create_stage_run in Holds-insert _ _ _ s h (closed.records s _ h refl)

  stage_completed-Keeps :
      (stage_run_id : Option String) (stage_key : String) (status : EndStatus)
      (error : Option String)
      → Keeps (persist_stage_completed_event ctx ctx.run_id stage_run_id stage_key status error)
  unfolding persist_stage_completed_event complete_stage_run
  stage_completed-Keeps stage_run_id stage_key status error s h =
      finish (stage_run_of ctx stage_run_id stage_key s)
    where
      logged :
          (id : Option String) (t : Sync)
          → P t
          → Holds (
              log ctx ctx.run_id id "stage_completed"
                ("stage " <> stage_key <> " " <> status_text status)
                (update_authoritative_item_column ctx
                  (map_stage_to_column (some stage_key) (outcome_of status))
                  (is_authoritative ctx none t)
                  t))
      logged id t k =
          Holds-log id "stage_completed" _ _
            (update_column_keeps t t _ _ k (authoritative_sole none t) k)

      finish :
          (id : Option String)
          → Holds (
              then_at (complete_stage ctx id status error s) (λ _ t.
                log ctx ctx.run_id id "stage_completed"
                  ("stage " <> stage_key <> " " <> status_text status)
                  (update_authoritative_item_column ctx
                    (map_stage_to_column (some stage_key) (outcome_of status))
                    (is_authoritative ctx none t)
                    t)))
      finish none = logged none s h
      finish (some id) =
          logged (some id) _ (if_ind P (eq_text id "") (λ _. h) (λ _. closed.records s _ h refl))

  artifact_written-Keeps :
      (stage_run_id : Option String) (label kind path : String)
      → Keeps (persist_artifact_written_event ctx ctx.run_id stage_run_id label kind path)
  unfolding persist_artifact_written_event
  artifact_written-Keeps stage_run_id label kind path s h =
      Holds-then {A = Unit {0}} _ _ (Holds-of _ recorded)
        (λ _ t k. Holds-log stage_run_id "artifact_written" label t k)
    where
      recorded : P (on_journal (record_artifact ctx.run_id stage_run_id label kind path) s).1
      recorded = unfold record_artifact in Holds-insert _ _ _ s h (closed.records s _ h refl)

  run_finished-Keeps :
      (status : EndStatus) → Keeps (persist_run_finished_event ctx ctx.run_id status)
  unfolding persist_run_finished_event
  run_finished-Keeps status s h = Holds-log none "run_finished" _ _ (
      clear_stage_keeps s _ (was_sole_live_run ctx s) h (λ e. e)
        (update_column_keeps s _ _ _ h (authoritative_sole (some status) s) (closed.run_row s _ h)))

  project_created-Keeps :
      (item_id project_id fresh code name summary : String) (position : ℕ)
      → Keeps (
          persist_project_created_event ctx ctx.run_id item_id project_id fresh code name summary
            position)
  unfolding persist_project_created_event
  project_created-Keeps item_id project_id fresh code name summary position s h =
      Holds-then (on_journal (create_project fresh project_id item_id code name summary position) s)
        (λ project t.
          log ctx ctx.run_id none "project_created" name
            (remember_project ctx project_id project t).1)
        (Holds-of _ created)
        (λ _ t k.
          Holds-log none "project_created" name _
            (closed.maps t t.stage_run_ids t.persisted_stage_ids _ k))
    where
      created :
          P (on_journal (create_project fresh project_id item_id code name summary position) s).1
      created =
          unfold create_project in
          split_option_ind
            (λ (r : Result DbError ProjectRow × Journal). P (record s { journal = r.1 }))
            (find (λ (p : ProjectRow). eq_text p.item_id item_id && eq_text p.code code)
              s.journal.projects)
            (λ _. Holds-insert _ _ _ s h (closed.records s _ h refl)) (λ _ _. h)

  run_recovery-Keeps :
      (status : RecoveryStatus) (scope : RecoveryEventScope) (summary : String)
      → Keeps (persist_run_recovery_event ctx ctx.run_id status scope summary)
  unfolding persist_run_recovery_event set_run_recovery
  run_recovery-Keeps status scope summary s h =
      let patch = with_status ctx (recovery_text ctx status) in
      let started : Sync = set_runs (update_run ctx.run_id patch ctx.now s.journal.db.runs) s in
      let sole = was_sole_live_run ctx s in
      Holds-log none _ summary _ (
        closed.run_row (clear_stage_if ctx sole started).1
          (recovery_patch (some status) (some (event_recovery_scope ctx scope))
            (recovery_scope_ref ctx scope) (some summary)
            (split_option none (λ r. r.recovery_payload_json)
              (get_run s.journal.db.runs ctx.run_id)))
          (clear_stage_keeps s started sole h (λ e. e) (closed.run_row s patch h)))

  run_resumed-Keeps :
      (scope : RecoveryEventScope) → Keeps (persist_run_resumed_event ctx ctx.run_id scope)
  unfolding persist_run_resumed_event clear_run_recovery set_run_recovery
  run_resumed-Keeps scope s h = Holds-log none "run_resumed" _ _ (
      if_ind P (should_delay_recovery_clear_for_resume ctx ctx.run_id s) (λ _. h)
        (λ _. closed.run_row s (recovery_patch none none none none none) h))

  of_run :
      {A : Type 0} (m : String → Effect Sync DbError A) (id : String)
      → id ≡ ctx.run_id
      → Keeps (m ctx.run_id)
      → Keeps (m id)
  of_run m id e k = subst (λ x. Keeps (m x)) (sym e) k

  persist-Keeps : (e : WorkflowEvent) → IsOfRun ctx e → Keeps (persist ctx e)
  unfolding persist
  persist-Keeps (run_started id title) o =
      of_run (λ x. persist_run_started_event ctx x title) id o (run_started-Keeps title)
  persist-Keeps (stage_started id stage_run_id key project) o =
      of_run (λ x. persist_stage_started_event ctx x stage_run_id key project) id o
        (stage_started-Keeps stage_run_id key project)
  persist-Keeps (stage_completed id stage_run_id key status error) o =
      of_run (λ x. persist_stage_completed_event ctx x stage_run_id key status error) id o
        (stage_completed-Keeps stage_run_id key status error)
  persist-Keeps (prompt_answered id answer from_bridge) o = λ s h.
      if_ind (λ (m : Handler). Holds (m s)) (eq_text answer ctx.no_answer_sentinel || from_bridge)
        (λ _. Holds-of _ h)
        (λ _.
          of_run (λ x. log ctx x none "prompt_answered" answer) id o
            (Holds-log none "prompt_answered" answer) s h)
  persist-Keeps (artifact_written id stage_run_id label kind path) o =
      of_run (λ x. persist_artifact_written_event ctx x stage_run_id label kind path) id o
        (artifact_written-Keeps stage_run_id label kind path)
  persist-Keeps (run_finished id status) o =
      of_run (λ x. persist_run_finished_event ctx x status) id o (run_finished-Keeps status)
  persist-Keeps (item_column_changed item column phase) o = absurd o
  persist-Keeps (project_created id item project fresh code name summary position) o =
      of_run
        (λ x. persist_project_created_event ctx x item project fresh code name summary position) id
        o (project_created-Keeps item project fresh code name summary position)
  persist-Keeps (run_blocked id scope summary) o =
      of_run (λ x. persist_run_recovery_event ctx x RecoveryStatus.blocked scope summary) id o
        (run_recovery-Keeps RecoveryStatus.blocked scope summary)
  persist-Keeps (run_failed id scope summary) o =
      of_run (λ x. persist_run_recovery_event ctx x RecoveryStatus.failed scope summary) id o
        (run_recovery-Keeps RecoveryStatus.failed scope summary)
  persist-Keeps (run_resumed id scope) o =
      of_run (λ x. persist_run_resumed_event ctx x scope) id o (run_resumed-Keeps scope)
  persist-Keeps (presentation none stage_run_id text) o = λ s h. Holds-of _ h
  persist-Keeps (presentation (some id) stage_run_id text) o = λ s h.
      if_ind (λ (m : Handler). Holds (m s)) (eq_text id "") (λ _. Holds-of _ h)
        (λ _.
          of_run (λ x. log ctx x stage_run_id "presentation" text) id o
            (Holds-log stage_run_id "presentation" text) s h)
  persist-Keeps (log_only id stage_run_id event_type message) o =
      of_run (λ x. log ctx x stage_run_id event_type message) id o
        (Holds-log stage_run_id event_type message)

  -- What every single write keeps holds after an event of the run, whatever its handler throws.
  pub on_event_keeps : (e : WorkflowEvent) (s : Sync) → IsOfRun ctx e → P s → P (on_event ctx e s)
  unfolding on_event Holds
  on_event_keeps e s o h = persist-Keeps e o s h
