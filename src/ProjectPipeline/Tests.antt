-- ===== src/ProjectPipeline/Tests.antt =====
-- Runs of the pipeline whose artifacts are numbers kept in a list.
use beerengineer.Base.{ℕ, ◌≡◌, ◌≢◌, refl, false, Option, none, some, [], arith}
use beerengineer.Base.Tests.{if◌then◌else◌}
use beerengineer.Base.Effects.{Result, ok, err}
use beerengineer.ProjectPipeline.{
  ProjectStageId, architecture, planning, execution, ProjectResumePlan, ProjectContext,
  plan_missing, prd_missing, StageError, other_error, invariant_violated, stage_failed, Stages,
  Pipeline, eq_stage, run_project_stages,
}
use beerengineer.ProjectPipeline.Violations.{run_project_stages-ne-violated}

-- The files: for each stage, what it wrote last.
abbrev Disk : Type 0
Disk = ProjectStageId → Option ℕ

abbrev write : ProjectStageId → ℕ → Disk → Disk
write id a disk other = if eq_stage id other then some a else disk other

abbrev read : Option ℕ → Result StageError (Option ℕ)
read none = err (other_error "ENOENT")
read (some a) = ok (some a)

abbrev stages : Stages Disk ℕ
stages = record {
  stage = λ id o c disk. (ok 7, write id 7 disk);
  load = λ id c disk. read (disk id);
  supabase_readiness = none;
  is_cancelled = λ disk. false;
}

abbrev start_at : ProjectStageId → ProjectResumePlan
start_at id = record { start_stage = id; execution = none; project_start_stages = none }

read_ne_none : (o : Option ℕ) → read o ≢ ok none
read_ne_none none h = cc
read_ne_none (some a) h = ground arith

abbrev empty : ProjectContext ℕ
empty = record {
  prd = none;
  architecture = none;
  plan = none;
  execution_summaries = none;
  project_review = none;
  documentation = none;
}

abbrev fresh : Pipeline Disk
fresh = record { outside = λ id. none; events = [] }

planned :
    (run_project_stages stages none (some planning) empty fresh).0
    ≡ ok (record empty { prd = some 7; architecture = some 7; plan = some 7 })
unfolding run_project_stages
planned = refl

-- Without the files, a resume fails on the file and not on an invariant.
lost_files :
    (run_project_stages stages (some (start_at execution)) none empty fresh).0
    ≡ err (stage_failed (other_error "ENOENT"))
unfolding run_project_stages
lost_files = refl

-- A requirements file without the field that is read leaves the context without a PRD.
field_lost :
    (run_project_stages
      (record stages { load = λ id c disk. ok none })
      (some (start_at architecture))
      none
      empty
      fresh).0
    ≡ err (invariant_violated prd_missing)
unfolding run_project_stages
field_lost = refl

run_project_stages-ne-violated_example :
    (run_project_stages stages (some (start_at execution)) none empty fresh).0
    ≢ err (invariant_violated plan_missing)
run_project_stages-ne-violated_example =
    run_project_stages-ne-violated stages (some (start_at execution)) none empty fresh plan_missing
      (λ id c s. read_ne_none (s id))
