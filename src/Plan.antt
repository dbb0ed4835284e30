-- ===== src/Plan.antt =====
-- The implementation plan (apps/engine/src/types/domain.ts): waves of stories. Fields that no
-- modelled function reads are left out; an optional field is an `Option`.
use beerengineer.Base.{ℕ, String, Bool, true, false, Option, List}

pub data WaveKind : Type 0 where
  setup feature : WaveKind

pub record Story : Type 0 where
  pub id : String
  pub title : String
  pub db_relevant : Option Bool
  pub screen_ids : Option (List String)
  pub shared_files : Option (List String)

pub record WaveTask : Type 0 where
  pub id : String
  pub title : String

pub record WaveDefinition : Type 0 where
  pub id : String
  pub number : ℕ
  pub goal : String
  pub kind : Option WaveKind
  pub stories : Option (List Story)
  pub db_relevant_story_count : Option ℕ
  pub db_relevant_wave : Option Bool
  pub tasks : Option (List WaveTask)
  pub internally_parallelizable : Bool
  pub dependencies : Option (List String)
  pub exit_criteria : Option (List String)

-- `wave.kind === "setup"`: a wave with no kind is a feature wave.
abbrev pub is_setup : Option WaveKind → Bool
is_setup (Option.some setup) = true
is_setup _ = false
