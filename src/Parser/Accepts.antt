-- ===== src/Parser/Accepts.antt =====
-- engine/parser.py: what holds of a pipeline that the validator accepts.
use forge_ci_cd_platform.Base.{
  ◌≡◌, ◌≢◌, refl, ◌∙◌, inl, inr, List, [], ◌∷◌, Option, Bool, true, false, arith, Str, codes,
  contains, All, Bool-cases, List-cases, if◌then◌else◌,
}
use forge_ci_cd_platform.Base.Result.{
  Result, ok, err, ◌>>=◌, Gives, Gives-ok, Gives-err, Gives->>=, Gives-skip, Gives-imp,
}
use forge_ci_cd_platform.Text.{is_nil, strip, starts_with}
use forge_ci_cd_platform.Text.Strip.{strip_again}
use forge_ci_cd_platform.Semver.{is_version}
use forge_ci_cd_platform.Semver.Accepts.{is_valid_semver-strip}
use forge_ci_cd_platform.Pipeline.{PipelineStep, PipelineJob, PipelineDependency, PipelineArtifact}
use forge_ci_cd_platform.Parser.{
  job, resources, validate_cpu, bad_memory, bad_image, parse_needs, as_list, as_text, as_full_list,
  not_a_sequence, not_a_text, step, items, duplicate_step, bad_run, not_a_mapping, dependency,
  artifact, bad_name, bad_constraint, bad_version, Data, text, list, dict, null, scalar, Float,
  ParseError, checked, is_named, each, as_dict, check_fields, get, is_package_name,
  is_valid_semver_version, is_valid_semver_constraint, is_image_ref, is_memory, parse_dependency,
  parse_dependencies, validate_relative_path, parse_artifact, parse_artifacts, parse_step,
  parse_step_list, parse_steps, parse_resources, parse_job, all_steps, has_drive, path_parts,
}

-- A name that is not blank, and a command that is not.
abbrev pub IsStep : PipelineStep → Type 0
IsStep st = (is_nil st.name ≡ false) × (is_named st.run ≡ true)

pub record IsJob (j : PipelineJob) : Type 0 where
  pub image : is_image_ref j.runtime ≡ true
  pub memory : is_memory j.resources.memory ≡ true
  pub some_step : j.steps ≢ []
  pub steps : All IsStep j.steps

pub record IsDependency (d : PipelineDependency) : Type 0 where
  pub name : is_package_name d.name ≡ true
  pub version : is_valid_semver_constraint d.version ≡ true

pub checked-Gives :
    (p : Str → Bool) (raised : ParseError) (value : Data)
    → Gives (λ s. p s ≡ true) (checked p raised value)
checked-Gives p raised (text t) = elim (Bool-cases (p t)) [
  | inl e ↦ rw e (Gives-ok e)
  | inr e ↦ rw e Gives-err
]
checked-Gives p raised (list xs) = Gives-err
checked-Gives p raised (dict d) = Gives-err
checked-Gives p raised null = Gives-err
checked-Gives p raised (scalar r) = Gives-err

-- A field that is checked, and what follows.
pub Gives-checked :
    {B : Type 0} {P : B → Type 0} (p : Str → Bool) (raised : ParseError) (value : Data)
    {next : Str → Result ParseError B}
    → ((s : Str) → p s ≡ true → Gives P (next s))
    → Gives P (checked p raised value >>= next)
Gives-checked p raised value rest =
    Gives->>= (checked p raised value) (checked-Gives p raised value) rest

each-All :
    {A B : Type 0} (f : A → Result ParseError B) (P : B → Type 0) (xs : List A)
    → ((x : A) → Gives P (f x))
    → Gives (All P) (each f xs)
each-All f P [] g = Gives-ok tt
each-All f P (x ∷ xs) g =
    Gives->>= (f x) (g x)
      (λ y h. Gives->>= (each f xs) (each-All f P xs g) (λ ys hs. Gives-ok (h, hs)))

constraint-strip : (s : Str) → is_valid_semver_constraint (strip s) ≡ is_valid_semver_constraint s
unfolding is_valid_semver_constraint
constraint-strip s = rw strip_again refl

pub version-strip : (s : Str) → is_valid_semver_version s ≡ true → is_version (strip s) ≡ true
unfolding is_valid_semver_version
version-strip s h = is_valid_semver-strip s h

parse_dependency-IsDependency : (value : Data) → Gives IsDependency (parse_dependency value)
unfolding parse_dependency
parse_dependency-IsDependency value = Gives-skip (as_dict (not_a_mapping dependency) value) (λ d.
    Gives-skip (check_fields dependency (codes "name" ∷ codes "version" ∷ []) [] d) (λ _.
      Gives-checked is_package_name (bad_name dependency) (get (codes "name") d) (λ name valid_name.
        Gives-checked is_valid_semver_constraint (bad_constraint dependency)
          (get (codes "version") d)
          (λ version valid.
            Gives-ok (record { name = valid_name; version = constraint-strip version ∙ valid })))))

pub parse_dependencies-All : (value : Data) → Gives (All IsDependency) (parse_dependencies value)
unfolding parse_dependencies
parse_dependencies-All value =
    Gives-skip (as_list (not_a_sequence dependency) value)
      (λ xs. each-All parse_dependency IsDependency xs parse_dependency-IsDependency)

-- A path that is relative and does not leave its directory.
pub record IsRelative (path : Str) : Type 0 where
  pub full : is_nil path ≡ false
  pub no_slash : starts_with path (codes "/") ≡ false
  pub no_drive : has_drive path ≡ false
  pub no_parent : contains (codes "..") (path_parts path) ≡ false

validate_relative_path-IsRelative :
    (path : Str) → Gives (λ _. IsRelative path) (validate_relative_path path)
unfolding validate_relative_path
validate_relative_path-IsRelative path = elim (Bool-cases (is_nil path)) [
  | inl e ↦ rw (e, validate_relative_path) Gives-err
  | inr e ↦ elim (Bool-cases (starts_with path (codes "/"))) [
    | inl s ↦ rw (e, s, validate_relative_path) Gives-err
    | inr s ↦ elim (Bool-cases (has_drive path)) [
      | inl d ↦ rw (e, s, d, validate_relative_path) Gives-err
      | inr d ↦ elim (Bool-cases (contains (codes "..") (path_parts path))) [
        | inl p ↦ rw (e, s, d, p, validate_relative_path) Gives-err
        | inr p ↦
            rw (e, s, d, p, validate_relative_path)
              (Gives-ok (record { full = e; no_slash = s; no_drive = d; no_parent = p }))
      ]
    ]
  ]
]

-- What holds of an artifact before its path is looked for.
pub record IsArtifactData (a : PipelineArtifact) : Type 0 where
  pub name : is_package_name a.name ≡ true
  pub version : is_version a.version ≡ true
  pub relative : (raw : Str) × (strip raw ≡ a.path) × IsRelative raw

parse_artifact-IsArtifactData : (value : Data) → Gives IsArtifactData (parse_artifact value)
unfolding parse_artifact
parse_artifact-IsArtifactData value = Gives-skip (as_dict (not_a_mapping artifact) value) (λ d.
    Gives-skip (check_fields artifact (codes "name" ∷ codes "version" ∷ codes "path" ∷ []) [] d)
      (λ _.
        Gives-checked is_package_name (bad_name artifact) (get (codes "name") d) (λ name valid_name.
          Gives-checked is_valid_semver_version (bad_version artifact) (get (codes "version") d)
            (λ version valid.
              Gives-skip (as_text (not_a_text artifact) (get (codes "path") d)) (λ path.
                Gives->>= (validate_relative_path path) (validate_relative_path-IsRelative path)
                  (λ _ relative. Gives-ok (record {
                    name = valid_name;
                    version = version-strip version valid;
                    relative = (path, refl, relative);
                  })))))))

pub parse_artifacts-All : (value : Data) → Gives (All IsArtifactData) (parse_artifacts value)
unfolding parse_artifacts
parse_artifacts-All value =
    Gives-skip (as_list (not_a_sequence artifact) value)
      (λ xs. each-All parse_artifact IsArtifactData xs parse_artifact-IsArtifactData)

parse_step-IsStep :
    (job_name : Str) (names : List Str) (value : Data)
    → Gives (λ (_, st). IsStep st) (parse_step job_name names value)
unfolding parse_step
parse_step-IsStep job_name names value =
    Gives-skip (as_dict (not_a_mapping (step job_name)) value) (λ d.
      Gives-skip (check_fields (step job_name) (codes "name" ∷ codes "run" ∷ []) [] d) (λ _.
        Gives-checked is_named (bad_name (step job_name)) (get (codes "name") d) (λ name named.
          Gives-skip (if contains name names then err (duplicate_step job_name name) else ok tt)
            (λ _.
              Gives-checked is_named (bad_run job_name) (get (codes "run") d)
                (λ run named_run. Gives-ok (ground (arith, named), named_run))))))

parse_step_list-All :
    (job_name : Str) (names : List Str) (xs : List Data)
    → Gives (λ steps. All IsStep steps × (xs ≢ [] → steps ≢ [])) (parse_step_list job_name names xs)
unfolding parse_step_list
parse_step_list-All job_name names [] = Gives-ok (tt, λ full e. full refl)
parse_step_list-All job_name names (x ∷ xs) =
    Gives->>= (parse_step job_name names x) (parse_step-IsStep job_name names x) (λ (name, st) h.
      Gives->>= (parse_step_list job_name (name ∷ names) xs)
        (parse_step_list-All job_name (name ∷ names) xs)
        (λ steps (hs, _). Gives-ok ((h, hs), λ _ e. cc)))

full_list-Gives :
    (raised : ParseError) (value : Data) → Gives (λ xs. xs ≢ []) (as_full_list raised value)
full_list-Gives raised (list xs) = elim (List-cases (items xs)) [
  | inl e ↦ rw (e, as_full_list) Gives-err
  | inr (y, ys, e) ↦ rw (e, as_full_list) (Gives-ok (λ z. cc))
]
full_list-Gives raised (text t) = Gives-err
full_list-Gives raised (dict d) = Gives-err
full_list-Gives raised null = Gives-err
full_list-Gives raised (scalar r) = Gives-err

pub parse_steps-All :
    (job_name : Str) (value : Data)
    → Gives (λ steps. All IsStep steps × (steps ≢ [])) (parse_steps job_name value)
unfolding parse_steps
parse_steps-All job_name value =
    Gives->>= (as_full_list (not_a_sequence (step job_name)) value) (full_list-Gives _ value)
      (λ xs full.
        Gives-imp (parse_step_list job_name [] xs) (parse_step_list-All job_name [] xs)
          (λ steps (h, f). (h, f full)))

module _ (float : Data → Option Float) where
  -- Every value of a memory limit and of an image was checked.
  parse_resources-Gives :
      (job_name : Str) (value : Data)
      → Gives (λ r. is_memory r.memory ≡ true) (parse_resources float job_name value)
  unfolding parse_resources
  parse_resources-Gives job_name value =
      Gives-skip (as_dict (not_a_mapping (resources job_name)) value) (λ d.
        Gives-skip (check_fields (resources job_name) (codes "cpu" ∷ codes "memory" ∷ []) [] d)
          (λ _. Gives-skip (validate_cpu float job_name (get (codes "cpu") d)) (λ cpu.
            Gives-checked is_memory (bad_memory job_name) (get (codes "memory") d)
              (λ memory valid. Gives-ok valid))))

  pub parse_job-IsJob :
      (job_name : Str) (value : Data) → Gives IsJob (parse_job float job_name value)
  unfolding parse_job
  parse_job-IsJob job_name value = Gives-skip (as_dict (not_a_mapping (job job_name)) value) (λ d.
      Gives-skip
        (check_fields (job job_name) (codes "runtime" ∷ codes "resources" ∷ codes "steps" ∷ [])
          (codes "needs" ∷ []) d)
        (λ _.
          Gives-checked is_image_ref (bad_image job_name) (get (codes "runtime") d)
            (λ runtime valid.
              Gives->>= (parse_resources float job_name (get (codes "resources") d))
                (parse_resources-Gives job_name (get (codes "resources") d))
                (λ r memory.
                  Gives->>= (parse_steps job_name (get (codes "steps") d))
                    (parse_steps-All job_name (get (codes "steps") d))
                    (λ steps (all_steps, full). Gives-skip (parse_needs job_name d) (λ needs.
                      Gives-ok (record {
                        image = valid;
                        memory = memory;
                        some_step = full;
                        steps = all_steps;
                      })))))))
