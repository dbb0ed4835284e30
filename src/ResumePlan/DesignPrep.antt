-- ===== src/ResumePlan/DesignPrep.antt =====
-- Which of the two design stages a resume runs (`buildDesignPrepPlan` of workflow.ts).
use beerengineer.Base.{◌≡◌, refl, Bool, true, not, ◌||◌, none, some, arith}
use beerengineer.ResumePlan.{
  ManualStage, manual_visual_companion, manual_frontend_design, ItemResumePlan, is_manual_visual,
  is_manual_frontend, build_design_prep_plan,
}

-- Outside of the manual mode a design stage is left out only when its file is there, and the design is
-- made again whenever the wireframes are.
pub build_design_prep_plan_sound :
    (wireframes design : Bool) (plan : ItemResumePlan)
    → plan.manual_stage ≡ none
    → let p = build_design_prep_plan wireframes design plan in
      ((p.should_run_visual_companion || wireframes) ≡ true)
      × ((p.should_run_frontend_design || design) ≡ true)
      × ((p.should_run_frontend_design || not p.should_run_visual_companion) ≡ true)
unfolding build_design_prep_plan
build_design_prep_plan_sound wireframes design plan h =
    rw h (ground arith, ground arith, ground arith)

-- In the manual mode exactly the named stage runs, whatever files there are.
pub build_design_prep_plan-manual :
    (wireframes design : Bool) (plan : ItemResumePlan) (m : ManualStage)
    → plan.manual_stage ≡ some m
    → let p = build_design_prep_plan wireframes design plan in
      (p.should_run_visual_companion ≡ is_manual_visual (some m))
      × (p.should_run_frontend_design ≡ is_manual_frontend (some m))
unfolding build_design_prep_plan
build_design_prep_plan-manual wireframes design plan manual_visual_companion h = rw h (refl, refl)
build_design_prep_plan-manual wireframes design plan manual_frontend_design h = rw h (refl, refl)
