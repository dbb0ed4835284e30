-- ===== src/MessagingLevel/Delivery.antt =====
-- Which events reach a subscriber (apps/engine/src/core/messagingLevel.ts).
use beerengineer.Base.{◌≤◌, ◌≡◌, refl, ◌⊎◌, ◌↔◌, true, false, arith, inl, inr}
use beerengineer.MessagingLevel.{
  MessagingLevel, l0, l2, LevelInfo, StepStatus, retained, supabase_branch_lifecycle, level_of,
  rank, should_deliver_at_level, supabase_lifecycle_message_type, Step, branch_creation, migrations,
  seed, db_tests, cleanup, idle, in_progress, passed, supabase_branch_retained,
}

-- A subscriber to a lower level gets every event that a subscriber to a higher one gets, and a
-- subscriber to level 0 gets every event.
pub should_deliver_monotone :
    (entry : LevelInfo) (low high : MessagingLevel)
    → rank low ≤ rank high
    → should_deliver_at_level entry high ≡ true
    → (should_deliver_at_level entry low ≡ true) × (should_deliver_at_level entry l0 ≡ true)
unfolding should_deliver_at_level
should_deliver_monotone entry low high h k = ground arith

-- A Supabase step is announced as retained exactly if its status is `retained` or `idle`, though of
-- these two only `retained` reaches every subscriber.
pub supabase_lifecycle_message_type-retained :
    (step : Step) (status : StepStatus)
    → ((supabase_lifecycle_message_type step status ≡ supabase_branch_retained)
        ↔ ((status ≡ retained) ⊎ (status ≡ idle)))
      × (should_deliver_at_level (level_of (supabase_branch_lifecycle step idle)) l2 ≡ false)
unfolding supabase_lifecycle_message_type should_deliver_at_level level_of
supabase_lifecycle_message_type-retained branch_creation idle = ((λ _. inr refl, λ _. refl), refl)
supabase_lifecycle_message_type-retained branch_creation in_progress =
    ((λ h. ground arith, λ h. ground arith), refl)
supabase_lifecycle_message_type-retained branch_creation passed =
    ((λ h. ground arith, λ h. ground arith), refl)
supabase_lifecycle_message_type-retained branch_creation StepStatus.failed =
    ((λ h. ground arith, λ h. ground arith), refl)
supabase_lifecycle_message_type-retained branch_creation retained =
    ((λ _. inl refl, λ _. refl), refl)
supabase_lifecycle_message_type-retained migrations idle = ((λ _. inr refl, λ _. refl), refl)
supabase_lifecycle_message_type-retained migrations in_progress =
    ((λ h. ground arith, λ h. ground arith), refl)
supabase_lifecycle_message_type-retained migrations passed =
    ((λ h. ground arith, λ h. ground arith), refl)
supabase_lifecycle_message_type-retained migrations StepStatus.failed =
    ((λ h. ground arith, λ h. ground arith), refl)
supabase_lifecycle_message_type-retained migrations retained = ((λ _. inl refl, λ _. refl), refl)
supabase_lifecycle_message_type-retained seed idle = ((λ _. inr refl, λ _. refl), refl)
supabase_lifecycle_message_type-retained seed in_progress =
    ((λ h. ground arith, λ h. ground arith), refl)
supabase_lifecycle_message_type-retained seed passed =
    ((λ h. ground arith, λ h. ground arith), refl)
supabase_lifecycle_message_type-retained seed StepStatus.failed =
    ((λ h. ground arith, λ h. ground arith), refl)
supabase_lifecycle_message_type-retained seed retained = ((λ _. inl refl, λ _. refl), refl)
supabase_lifecycle_message_type-retained db_tests idle = ((λ _. inr refl, λ _. refl), refl)
supabase_lifecycle_message_type-retained db_tests in_progress =
    ((λ h. ground arith, λ h. ground arith), refl)
supabase_lifecycle_message_type-retained db_tests passed =
    ((λ h. ground arith, λ h. ground arith), refl)
supabase_lifecycle_message_type-retained db_tests StepStatus.failed =
    ((λ h. ground arith, λ h. ground arith), refl)
supabase_lifecycle_message_type-retained db_tests retained = ((λ _. inl refl, λ _. refl), refl)
supabase_lifecycle_message_type-retained cleanup idle = ((λ _. inr refl, λ _. refl), refl)
supabase_lifecycle_message_type-retained cleanup in_progress =
    ((λ h. ground arith, λ h. ground arith), refl)
supabase_lifecycle_message_type-retained cleanup passed =
    ((λ h. ground arith, λ h. ground arith), refl)
supabase_lifecycle_message_type-retained cleanup StepStatus.failed =
    ((λ h. ground arith, λ h. ground arith), refl)
supabase_lifecycle_message_type-retained cleanup retained = ((λ _. inl refl, λ _. refl), refl)
