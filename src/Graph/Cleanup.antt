-- ===== src/Graph/Cleanup.antt =====
-- mobility_agent/graph/stage_contracts.py: the artifacts that a resume invalidates. The file
-- system (`os.path`, `glob`) is a parameter.
use Prim.Native.Char.{code}
use Prim.Native.Nat.{Ordering}
use Prim.Native.String.{compare}
use d_mobility.Prelude.{
  String, Bool, true, false, ◌||◌, not, ◌&&◌, eqb, List, [], ◌∷◌, ◌++◌, map, is_empty, filter_by,
  sort_by, dedupe_texts, if◌then◌else◌,
}
use d_mobility.Graph.Stages.{Stage, get_stage_contract}
use d_mobility.Graph.Resume.{CleanupPolicyName, invalidated_stages_for}

pub record FileSystem : Type 0 where
  pub join : String → String → String
  pub glob : String → List String
  pub exists : String → Bool
  pub abspath : String → String

-- `sorted` on texts: by code points, as the bytes of UTF-8 order them
abbrev text_le : String → String → Bool
text_le a b = elim (compare a b) [ Ordering.gt ↦ false | _ ↦ true ]

-- `"*" in pattern`
has_star : String → Bool
has_star String.[] = false
has_star (String.◌∷◌ c s) = eqb (code c) b'*' || has_star s

pub record CleanupPreview : Type 0 where
  pub cleanup_policy : CleanupPolicyName
  pub resume_stage : Stage
  pub invalidated_stages : List Stage
  pub invalidated_artifacts : List String
  pub warnings : List String

module _ (fs : FileSystem) (workdir : String) where
  -- The candidates of one pattern.
  candidates : List String → List String
  unfolding has_star
  candidates [] = []
  candidates (pattern ∷ rest) =
      let candidate = fs.join workdir pattern in
      (if has_star pattern then sort_by text_le (fs.glob candidate) else candidate ∷ [])
      ++ candidates rest

  pub collect_stage_artifacts : Stage → List String
  unfolding candidates
  collect_stage_artifacts s =
      map fs.abspath (filter_by fs.exists (candidates (get_stage_contract s).artifact_patterns))

  collect_all : List Stage → List String
  collect_all [] = []
  collect_all (s ∷ rest) = collect_stage_artifacts s ++ collect_all rest

  unfoldable pub build_cleanup_preview : Stage → CleanupPolicyName → CleanupPreview
  unfolding collect_all collect_stage_artifacts
  build_cleanup_preview resume_stage policy =
      let stages = invalidated_stages_for resume_stage policy in
      let artifacts = collect_all stages in
      record {
        cleanup_policy = policy;
        resume_stage = resume_stage;
        invalidated_stages = stages;
        invalidated_artifacts = sort_by text_le (dedupe_texts (map fs.abspath artifacts));
        warnings =
            (if is_empty stages then "no_stage_invalidation" ∷ [] else [])
            ++ (if not (is_empty stages) && is_empty artifacts
                then "no_matching_artifacts_found" ∷ []
                else []);
      }
