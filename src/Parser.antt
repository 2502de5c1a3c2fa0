-- ===== src/Parser.antt =====
-- engine/parser.py, `PipelineParser` on a dict: the checks of a pipeline and what they make of it.
-- The errors are the code's, without their lines and texts. Python's `float()` is an argument.
mod Values
mod Texts
mod Outputs
mod Rules
pub mod Needs
pub mod Constraints
pub mod Accepts
pub mod Schema
pub mod Tests
use forge_ci_cd_platform.Base.{
  ℕ, List, [], ◌∷◌, ◌++◌, Option, none, some, Bool, true, false, not, ◌&&◌, ◌||◌, Str, ◌==◌,
  if◌then◌else◌, all, any, map, codes, contains,
}
use forge_ci_cd_platform.Base.Dict.{Dict, keys, values, insert}
use forge_ci_cd_platform.Base.Result.{Result, ok, err, ◌>>=◌, ◌>>◌}
use forge_ci_cd_platform.Text.{is_nil, strip, starts_with, has_substring, split_on}
use forge_ci_cd_platform.Pipeline.{
  PipelineStep, Resources, PipelineJob, PipelineDependency, PipelineArtifact, Pipeline,
  PipelineConfig, to_dict,
}
pub use forge_ci_cd_platform.Parser.Values.{
  Data, text, list, dict, null, scalar, Items, end, item, Entries, end_dict, entry, Fields, is_key,
  field, is_among,
}
unfoldable pub use forge_ci_cd_platform.Parser.Values.{items, entries}
unfoldable pub use forge_ci_cd_platform.Parser.Texts.{
  is_valid_semver_version, parse_comparator_tokens, is_valid_semver_constraint, is_package_name,
  is_image_ref, is_memory, path_parts,
}
pub use forge_ci_cd_platform.Parser.Texts.{has_drive}
unfoldable pub use forge_ci_cd_platform.Parser.Outputs.{lstrip_dots, step_output_hints}
unfoldable pub use forge_ci_cd_platform.Parser.Rules.{check_fields}
pub use forge_ci_cd_platform.Parser.Rules.{
  Context, ParseError, Float, get, get_list, checked, is_named, as_text, as_dict, as_list, each,
  as_full_list, as_full_dict, pipeline, dependency, artifact, all_jobs, job, resources, step,
  not_a_mapping, not_a_sequence, not_a_text, missing_field, unknown_field, bad_name, bad_version,
  bad_constraint, bad_image, bad_cpu, cpu_not_positive, bad_memory, bad_run, bad_need,
  duplicate_step, unknown_need, self_need, empty_path, absolute_path, parent_path, not_produced,
}

-- The body of the loop of `_parse_dependencies`.
pub parse_dependency : Data → Result ParseError PipelineDependency
unfolding check_fields entries strip is_package_name is_valid_semver_constraint
parse_dependency value = do
  d ← as_dict (not_a_mapping dependency) value
  check_fields dependency (codes "name" ∷ codes "version" ∷ []) [] d
  name ← checked is_package_name (bad_name dependency) (get (codes "name") d)
  version ← checked is_valid_semver_constraint (bad_constraint dependency) (get (codes "version") d)
  ok (record { name = name; version = strip version })

-- `_parse_dependencies`
pub parse_dependencies : Data → Result ParseError (List PipelineDependency)
unfolding parse_dependency items
parse_dependencies value = do
  xs ← as_list (not_a_sequence dependency) value
  each parse_dependency xs

-- `_validate_relative_path`
pub validate_relative_path : Str → Result ParseError (Unit {0})
unfolding path_parts
validate_relative_path path =
    if is_nil path
    then err (empty_path path)
    else if starts_with path (codes "/") || has_drive path
    then err (absolute_path path)
    else if contains (codes "..") (path_parts path)
    then err (parent_path path)
    else ok tt

-- The body of the loop of `_parse_artifacts`.
pub parse_artifact : Data → Result ParseError PipelineArtifact
unfolding check_fields entries strip is_package_name is_valid_semver_version validate_relative_path
parse_artifact value = do
  d ← as_dict (not_a_mapping artifact) value
  check_fields artifact (codes "name" ∷ codes "version" ∷ codes "path" ∷ []) [] d
  name ← checked is_package_name (bad_name artifact) (get (codes "name") d)
  version ← checked is_valid_semver_version (bad_version artifact) (get (codes "version") d)
  path ← as_text (not_a_text artifact) (get (codes "path") d)
  validate_relative_path path
  ok (record { name = name; version = strip version; path = strip path })

-- `_parse_artifacts`
pub parse_artifacts : Data → Result ParseError (List PipelineArtifact)
unfolding parse_artifact items
parse_artifacts value = do xs ← as_list (not_a_sequence artifact) value; each parse_artifact xs

-- The body of the loop of `_parse_steps`, with the names of the steps before.
pub parse_step : Str → List Str → Data → Result ParseError (Str × PipelineStep)
unfolding check_fields entries strip
parse_step job_name step_names value = do
  d ← as_dict (not_a_mapping (step job_name)) value
  check_fields (step job_name) (codes "name" ∷ codes "run" ∷ []) [] d
  step_name ← checked is_named (bad_name (step job_name)) (get (codes "name") d)
  (if contains step_name step_names then err (duplicate_step job_name step_name) else ok tt)
  step_run ← checked is_named (bad_run job_name) (get (codes "run") d)
  ok (step_name, record { name = strip step_name; run = step_run })

pub parse_step_list : Str → List Str → List Data → Result ParseError (List PipelineStep)
unfolding parse_step
parse_step_list job_name step_names [] = ok []
parse_step_list job_name step_names (x ∷ xs) = do
  (step_name, parsed) ← parse_step job_name step_names x
  steps ← parse_step_list job_name (step_name ∷ step_names) xs
  ok (parsed ∷ steps)

-- `_parse_steps`
pub parse_steps : Str → Data → Result ParseError (List PipelineStep)
unfolding parse_step_list items
parse_steps job_name value = do
  xs ← as_full_list (not_a_sequence (step job_name)) value
  parse_step_list job_name [] xs

-- The field `needs`, which may be missing; None is no list.
pub parse_needs : Str → Fields → Result ParseError (List Str)
unfolding items strip
parse_needs job_name d = elim (field (codes "needs") d) [
  | none ↦ ok []
  | some (list xs) ↦
      each (λ x. checked is_named (bad_need job_name) x >>= λ need. ok (strip need)) (items xs)
  | some _ ↦ err (not_a_sequence (job job_name))
]

-- The loop over the needs of the jobs, at the end of `_parse_jobs`.
pub check_job_needs : List Str → Str → List Str → Result ParseError (Unit {0})
check_job_needs names job_name [] = ok tt
check_job_needs names job_name (need ∷ needs) =
    if not (contains need names)
    then err (unknown_need job_name need)
    else if need == job_name
    then err (self_need job_name)
    else check_job_needs names job_name needs

pub check_all_needs : List Str → Dict PipelineJob → Result ParseError (Unit {0})
unfolding check_job_needs
check_all_needs names [] = ok tt
check_all_needs names ((job_name, j) ∷ jobs) =
    check_job_needs names job_name j.needs >> check_all_needs names jobs

abbrev pub all_steps : Dict PipelineJob → List PipelineStep
all_steps [] = []
all_steps ((job_name, j) ∷ jobs) = j.steps ++ all_steps jobs

abbrev pub last_part : List Str → Str
last_part [] = []
last_part (p ∷ ps) = elim ps [ [] ↦ p | q ∷ qs ↦ last_part ps ]

-- `artifact.path.lstrip("./").split("/")[-1]`
pub basename : Str → Str
unfolding lstrip_dots split_on
basename path = last_part (split_on b'/' (lstrip_dots path))

-- The test of one artifact in `_validate_artifact_paths`. The hints come stripped, and stripping
-- them again changes nothing.
pub is_produced : List PipelineStep → Str → Bool
unfolding step_output_hints basename
is_produced steps path =
    contains (lstrip_dots path) (step_output_hints steps)
    || (contains (basename path) (step_output_hints steps)
        || any (λ (st : PipelineStep). has_substring (basename path) st.run) steps)

pub validate_artifact_paths :
    List PipelineArtifact → Dict PipelineJob → Result ParseError (Unit {0})
unfolding is_produced
validate_artifact_paths [] jobs = ok tt
validate_artifact_paths (a ∷ as') jobs =
    if is_produced (all_steps jobs) a.path
    then validate_artifact_paths as' jobs
    else err (not_produced a.path)

module _ (float : Data → Option Float) where
  -- `_validate_cpu`
  pub validate_cpu : Str → Data → Result ParseError ℕ
  validate_cpu job_name cpu = elim (float cpu) [
    | none ↦ err (bad_cpu job_name)
    | some value ↦ if value.is_positive then ok value.units else err (cpu_not_positive job_name)
  ]

  -- The field `resources` of a job.
  pub parse_resources : Str → Data → Result ParseError Resources
  unfolding check_fields entries validate_cpu is_memory
  parse_resources job_name value = do
    d ← as_dict (not_a_mapping (resources job_name)) value
    check_fields (resources job_name) (codes "cpu" ∷ codes "memory" ∷ []) [] d
    cpu ← validate_cpu job_name (get (codes "cpu") d)
    memory ← checked is_memory (bad_memory job_name) (get (codes "memory") d)
    ok (record { cpu = cpu; memory = memory })

  -- The body of the loop of `_parse_jobs`.
  pub parse_job : Str → Data → Result ParseError PipelineJob
  unfolding parse_resources parse_steps parse_needs is_image_ref
  parse_job job_name value = do
    d ← as_dict (not_a_mapping (job job_name)) value
    check_fields (job job_name) (codes "runtime" ∷ codes "resources" ∷ codes "steps" ∷ [])
        (codes "needs" ∷ []) d
    runtime ← checked is_image_ref (bad_image job_name) (get (codes "runtime") d)
    parsed ← parse_resources job_name (get (codes "resources") d)
    steps ← parse_steps job_name (get (codes "steps") d)
    needs ← parse_needs job_name d
    ok (record { runtime = runtime; resources = parsed; steps = steps; needs = needs })

  -- The loop of `_parse_jobs`, with the jobs so far.
  pub parse_job_list : Fields → Dict PipelineJob → Result ParseError (Dict PipelineJob)
  unfolding parse_job
  parse_job_list [] jobs = ok jobs
  parse_job_list ((key, value) ∷ d) jobs = do
    job_name ← checked is_named (bad_name all_jobs) key
    parsed ← parse_job job_name value
    parse_job_list d (insert job_name parsed jobs)

  -- `_parse_jobs`
  pub parse_jobs : Data → Result ParseError (Dict PipelineJob)
  unfolding parse_job_list check_all_needs entries
  parse_jobs value = do
    d ← as_full_dict (not_a_mapping all_jobs) value
    jobs ← parse_job_list d []
    check_all_needs (keys jobs) jobs
    ok jobs

  -- `_validate_root_dict`, on the entries of the dict
  pub validate_fields : Fields → Result ParseError Pipeline
  unfolding parse_dependencies parse_jobs parse_artifacts validate_artifact_paths
      is_valid_semver_version strip
  validate_fields d = do
    check_fields pipeline (codes "name" ∷ codes "version" ∷ codes "jobs" ∷ [])
        (codes "dependencies" ∷ codes "artifacts" ∷ []) d
    name ← checked is_named (bad_name pipeline) (get (codes "name") d)
    version ← checked is_valid_semver_version (bad_version pipeline) (get (codes "version") d)
    dependencies ← parse_dependencies (get_list (codes "dependencies") d)
    jobs ← parse_jobs (get (codes "jobs") d)
    artifacts ← parse_artifacts (get_list (codes "artifacts") d)
    validate_artifact_paths artifacts jobs
    ok (record {
      name = strip name;
      version = strip version;
      dependencies = dependencies;
      jobs = jobs;
      artifacts = artifacts;
    })

  -- `_validate_root_dict`
  pub validate_root_dict : Data → Result ParseError Pipeline
  unfolding validate_fields entries
  validate_root_dict value = as_dict (not_a_mapping pipeline) value >>= validate_fields

  -- `parse_and_validate`, on a dict
  unfoldable pub parse_and_validate : Data → Result ParseError PipelineConfig
  unfolding validate_root_dict to_dict
  parse_and_validate source = validate_root_dict source >>= λ p. ok (to_dict p)
