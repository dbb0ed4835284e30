-- ===== src/Lib.antt =====
-- Verification library of the beerengineer engine, the program that takes an item from an idea to
-- a merged implementation.
--
-- The engine keeps items, runs and prompts in a database. A run passes through stages; in each a
-- stage agent works, the user answers and a reviewer judges (the stage runtime). Execution
-- follows a plan of waves of stories, which the plan validator makes safe to run in parallel; each
-- story is implemented in a bounded loop of review cycles, and the wave coordinator tells stories
-- that run in parallel when to rebase. A worker process holds a lease on its run and renews it by
-- heartbeats; queued runs are admitted to workers up to a cap; runs whose worker is gone are marked
-- when the API starts or stops, and may be resumed. The operator acts on items, whose column and
-- phase the board shows. Worktrees get ports from a pool, and events reach subscribers by level.
--
-- Which file models which part (paths below apps/engine/src):
--   Base and its children: lists, texts, maps and sorting shared by all modules, and the lemmas on
--     them.
--   RunStore: the tables runs, items and pending_prompts as lists of rows and the statements of
--     db/repositories/repos.ts on them (getRun, claimRunWorkerLease, claimBlockedExecutionHandoff,
--     restoreBlockedExecutionHandoffClaim, refreshRunWorkerHeartbeat, updateRun, setItemColumn,
--     listRuns and so on), with the rows of db/repositories/types.ts. RunStore.Laws and
--     RunStore.Items say what a statement does to every lookup.
--   WorkerLease: core/workerLease.ts (claim, refresh, workerStillOwnsLease, the heartbeat's tick) and
--     the candidate test of core/executionOwnershipHandoff.ts.
--   Plan, PlanValidator: the plan of types/domain.ts and core/planValidator.ts.
--   ItemActions: core/itemActions.ts (ITEM_ACTION_MATRIX, visibleActionsForItem, perform) and the
--     readiness test of core/resume.ts.
--   WorkerAdmission: core/workerAdmission.ts (the cap, enqueue, launch, drain).
--   PortAllocator: core/portAllocator.ts (assignPort, releasePort, lookupPort).
--   MessagingLevel: core/messagingLevel.ts.
--   BoardColumns, OrphanRecovery: core/boardColumns.ts and core/orphanRecovery.ts (marking of lost
--     runs, the startup pass, the recovery at shutdown).
--   StageRuntime: core/stageRuntime.ts (runStage and its loop).
--   IterationLoop, LoopConfig: core/iterationLoop.ts and core/loopConfig.ts.
--   RunStore.Journal: the tables of stage runs, stage logs, artifact files and projects, with the
--     statements on them (createStageRun, appendLog, setRunRecovery and so on).
--   DbSync: core/dbSync.ts, the subscriber that writes the events of a run to the store (attachDbSync,
--     with one handler per event, and persistWorkflowEvent).
--   ResumeRun: performResume of core/resume.ts, over the worker lease and DbSync.
--   ProjectPipeline: core/projectStageRegistry.ts, runProjectStages of workflow.ts and
--     withStageLifecycle of core/runContext.ts: the stages of a project, in order.
--   ResumePlan, ItemWorkflow: workflow.ts, where a workflow starts again (normalizeProjectResume,
--     normalizeItemResume, buildDesignPrepPlan) and runWorkflow, which drives the projects through
--     ProjectPipeline and then enters the merge gate.
--   ScreenOwners: core/screenOwners.ts.
--   WaveExecution: stages/execution/waveExecution.ts, dbWaveScheduler.ts and the summary of
--     ralphRuntime.ts: the waves of a plan, in order.
--   RalphStoryLoop: stages/execution/ralphStoryLoop.ts (runRalphLoop over the iteration loop).
--   WaveCoordinator: stages/execution/waveCoordinator.ts.
--
-- How the code is modelled. A state is a record, and an operation that changes it returns the new
-- one. A call that may throw returns an option, a sum, or (Base.Effects) a result beside the state
-- that it leaves, so that what was done before the throw is kept. What a workflow has reached (the
-- merged waves, the finished projects, the gate) is kept in its state beside the outside. Whatever is
-- outside the engine is a parameter: the clock, the agents, reviewers and users of a stage, the start functions of queued
-- runs, the files of a run, and git. Where the source awaits such a call, its effect on the state is
-- the parameter's. Texts are compared as wholes; a few searches in texts are parameters. Times are
-- natural numbers, and a subtraction that would be negative in the source is noted where it is made.
--
-- Bounds and fuel. Loops over rows, stories, ports and cycles are structural. The loop of a stage may
-- go on for as long as its agent asks new questions, so it takes fuel; a bound on the agent's
-- questions and `maxReviews` give the fuel that is enough. The drain of the worker admission and
-- the loop over ports are bounded by their lists.
--
-- Not modelled: the user interface, the routes of the API, the command line, the adapters of
-- language models, git, Supabase, notifications, setup checks, installation and updates, which are
-- input and output or calls of other programs; the stages of an item before its
-- projects; the interleaving of the steps of stories that run in parallel; and in the modelled files
-- the texts of logs and warnings, sessions, and the files written beside the database.
pub mod Base
pub mod RunStore
pub mod WorkerLease
pub mod Plan
pub mod PlanValidator
pub mod ItemActions
pub mod WorkerAdmission
pub mod PortAllocator
pub mod MessagingLevel
pub mod BoardColumns
pub mod OrphanRecovery
pub mod StageRuntime
pub mod IterationLoop
pub mod LoopConfig
pub mod WaveCoordinator
pub mod RalphStoryLoop
pub mod ProjectPipeline
pub mod DbSync
pub mod ResumeRun
pub mod WaveExecution
pub mod ResumePlan
pub mod ItemWorkflow
pub mod ScreenOwners
