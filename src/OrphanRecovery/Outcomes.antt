-- ===== src/OrphanRecovery/Outcomes.antt =====
-- What the startup pass reports of a run, and the entry it appends to the log
-- (apps/engine/src/core/orphanRecovery.ts).
use beerengineer.Base.{◌/◌, ◌%◌, ◌<>◌, ℕ, zero, suc, String, Option, none, some, List, [], ◌∷◌}
use beerengineer.Base.Tests.{ltb, if◌then◌else◌, get_or, split_option}
use beerengineer.Base.Lists.{length}
use beerengineer.Base.Texts.{eq_text}
use beerengineer.Base.Effects.{Effect}
use beerengineer.RunStore.Journal.{Journal, DbError, append_log}

pub data OutcomeKind : Type 0 where
  auto_resumed skipped failed : OutcomeKind

pub data Reason : Type 0 where
  open_prompt worker_lease_not_orphaned auto_resume_disabled auto_resume_failed
        recovery_threshold_exceeded :
      Reason

pub record StartupRecoveryOutcome : Type 0 where
  pub run_id : String
  pub outcome : OutcomeKind
  pub reason : Option Reason
  pub held_back_run_ids : Option (List String)

abbrev pub skipped_startup_recovery_outcome : String → Reason → StartupRecoveryOutcome
skipped_startup_recovery_outcome id why = record {
  run_id = id;
  outcome = skipped;
  reason = some why;
  held_back_run_ids = none;
}

abbrev pub failed_startup_recovery_outcome : String → StartupRecoveryOutcome
failed_startup_recovery_outcome id = record {
  run_id = id;
  outcome = failed;
  reason = some auto_resume_failed;
  held_back_run_ids = none;
}

abbrev pub resumed_startup_recovery_outcome : String → StartupRecoveryOutcome
resumed_startup_recovery_outcome id = record {
  run_id = id;
  outcome = auto_resumed;
  reason = none;
  held_back_run_ids = none;
}

abbrev pub threshold_held_back_startup_recovery_outcome :
    String → List String → StartupRecoveryOutcome
threshold_held_back_startup_recovery_outcome first_id ids = record {
  run_id = first_id;
  outcome = skipped;
  reason = some recovery_threshold_exceeded;
  held_back_run_ids = some ids;
}

abbrev text_at : List String → ℕ → String
text_at [] n = ""
text_at (x ∷ xs) zero = x
text_at (x ∷ xs) (suc n) = text_at xs n

abbrev digit : ℕ → String
digit n = text_at ("0" ∷ "1" ∷ "2" ∷ "3" ∷ "4" ∷ "5" ∷ "6" ∷ "7" ∷ "8" ∷ "9" ∷ []) n

-- A number in decimals, with `fuel` at least its number of digits.
abbrev decimal : (fuel : ℕ) → ℕ → String
decimal zero n = ""
decimal (suc fuel) n =
    let rest = decimal fuel (n / 10) in if ltb n 10 then digit n else rest <> digit (n % 10)

abbrev join : String → List String → String
join by [] = ""
join by (x ∷ []) = x
join by (x ∷ y ∷ ys) = x <> by <> join by (y ∷ ys)

abbrev failure_message : Option String → String
failure_message error =
    let base : String =
      "Startup recovery auto-resume failed; the run remains on manual recovery." in
    split_option base (λ m. if eq_text m "" then base else base <> " " <> m) error

abbrev message_for : Option Reason → Option String → List String → String
message_for (some recovery_threshold_exceeded) error held =
    "Startup recovery held back "
    <> decimal (suc (length held)) (length held)
    <> " stale run(s) because the recovery set exceeded the threshold: "
    <> join ", " held
message_for (some open_prompt) error held =
    "Startup recovery left the stale run on manual recovery because a prompt is still open."
message_for (some worker_lease_not_orphaned) error held =
    "Startup recovery left the stale run on manual recovery because the worker lease is not orphaned."
message_for (some auto_resume_disabled) error held =
    "Startup recovery left the stale run on manual recovery because auto-resume is disabled."
message_for (some auto_resume_failed) error held = failure_message error
message_for none error held = failure_message error

unfoldable pub startup_recovery_message : StartupRecoveryOutcome → Option String → String
startup_recovery_message o error = elim o.outcome [
  | auto_resumed ↦ "Startup recovery auto-resumed the stale run."
  | _ ↦ message_for o.reason error (get_or o.held_back_run_ids [])
]

abbrev pub Act : Type 0 → Type 0
Act A = Effect Journal DbError A

-- `now` is the time of the writes.
unfoldable pub append_startup_recovery_log :
    ℕ → StartupRecoveryOutcome → Option String → Act (Unit {0})
unfolding append_log startup_recovery_message
append_startup_recovery_log now o error =
    append_log o.run_id none "startup_recovery" (startup_recovery_message o error) now
