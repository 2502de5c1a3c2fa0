-- ===== src/Parser/Schema.antt =====
-- engine/parser.py with engine/scheduler.py: what holds of a pipeline that the validator accepts, and
-- what it means for the scheduler.
use forge_ci_cd_platform.Base.{
  Option, ℕ, ◌≡◌, ◌≢◌, refl, ◌↔◌, inl, inr, List, [], ◌∷◌, true, false, arith, Str, ◌==◌, codes,
  contains, Nodup, All, Bool-cases, List-cases,
}
use forge_ci_cd_platform.Base.Dict.{Dict, keys, values}
use forge_ci_cd_platform.Base.Result.{
  ok, Gives, Gives-ok, Gives-err, Gives->>=, Gives-skip, Gives-imp, >>=-eq-ok,
}
use forge_ci_cd_platform.Text.{is_nil}
use forge_ci_cd_platform.Semver.{is_version}
use forge_ci_cd_platform.Pipeline.{
  PipelineStep, PipelineJob, PipelineArtifact, Pipeline, PipelineConfig, to_dict,
}
use forge_ci_cd_platform.Scheduler.{DagScheduler, init}
use forge_ci_cd_platform.Scheduler.Graph.{IsClosed, job_needs}
use forge_ci_cd_platform.Scheduler.Order.{IsRanked}
use forge_ci_cd_platform.Scheduler.Construct.{init_iff}
use forge_ci_cd_platform.Parser.{
  pipeline, all_jobs, dict, text, list, null, scalar, entries, Data, Float, Fields, ParseError,
  not_a_mapping, bad_name, bad_version, is_named, is_valid_semver_version, check_fields, get,
  get_list, as_dict, as_full_dict, parse_dependencies, parse_artifacts, parse_job_list, parse_jobs,
  check_all_needs, validate_artifact_paths, is_produced, all_steps, validate_fields,
  validate_root_dict, parse_and_validate,
}
use forge_ci_cd_platform.Parser.Needs.{
  IsNamed, declared, check_all_needs-ok, parse_job_list-ok, jobs_to_dict, keys-jobs_to_dict,
  job_needs-jobs_to_dict,
}
use forge_ci_cd_platform.Parser.Accepts.{
  IsJob, IsDependency, IsArtifactData, Gives-checked, version-strip, parse_dependencies-All,
  parse_artifacts-All, parse_job-IsJob,
}

-- The jobs have their names once and no blank name, each is well formed, and each need is another job.
pub record IsJobs (jobs : Dict PipelineJob) : Type 0 where
  pub some_job : jobs ≢ []
  pub unique : Nodup (keys jobs)
  pub named : All IsNamed (keys jobs)
  pub each_job : All IsJob (values jobs)
  pub needs :
      (job n : Str)
      → contains n (declared jobs job) ≡ true
      → (contains n (keys jobs) ≡ true) × (n == job ≡ false)

-- An artifact that passes the test of output files.
abbrev pub IsArtifact : List PipelineStep → PipelineArtifact → Type 0
IsArtifact steps a = IsArtifactData a × (is_produced steps a.path ≡ true)

pub record IsValid (p : Pipeline) : Type 0 where
  pub name : is_nil p.name ≡ false
  pub version : is_version p.version ≡ true
  pub dependencies : All IsDependency p.dependencies
  pub jobs : IsJobs p.jobs
  pub artifacts : All (IsArtifact (all_steps p.jobs)) p.artifacts

full_dict-Gives :
    (raised : ParseError) (value : Data) → Gives (λ d. d ≢ []) (as_full_dict raised value)
full_dict-Gives raised (dict d) = elim (List-cases (entries d)) [
  | inl e ↦ rw (e, as_full_dict) Gives-err
  | inr (y, ys, e) ↦ rw (e, as_full_dict) (Gives-ok (λ z. cc))
]
full_dict-Gives raised (text t) = Gives-err
full_dict-Gives raised (list xs) = Gives-err
full_dict-Gives raised null = Gives-err
full_dict-Gives raised (scalar r) = Gives-err

produced-All :
    (artifacts : List PipelineArtifact) (jobs : Dict PipelineJob)
    → All IsArtifactData artifacts
    → Gives
        (λ _. All (IsArtifact (all_steps jobs)) artifacts)
        (validate_artifact_paths artifacts jobs)
unfolding validate_artifact_paths
produced-All [] jobs h = Gives-ok tt
produced-All (a ∷ as') jobs (h, hs) = elim (Bool-cases (is_produced (all_steps jobs) a.path)) [
  | inl e ↦
      rw (e, validate_artifact_paths)
        (Gives-imp (validate_artifact_paths as' jobs) (produced-All as' jobs hs)
          (λ _ rest. ((h, refl), rest)))
  | inr e ↦ rw (e, validate_artifact_paths) Gives-err
]

module _ (float : Data → Option Float) where
  parse_jobs-IsJobs : (value : Data) → Gives IsJobs (parse_jobs float value)
  unfolding parse_jobs
  parse_jobs-IsJobs value =
      Gives->>= (as_full_dict (not_a_mapping all_jobs) value)
        (full_dict-Gives (not_a_mapping all_jobs) value)
        (λ d full.
          Gives->>= (parse_job_list float d []) (record { of = λ jobs e. e })
            (λ jobs e.
              Gives->>= (check_all_needs (keys jobs) jobs) (record { of = λ _ q. q })
                (λ _ checked_needs.
                  let (unique, each_job, named, some_job) =
                    parse_job_list-ok float IsJob
                      (λ name v j q. (parse_job-IsJob float name v).of j q) d [] jobs e tt tt tt in
                  Gives-ok (record {
                    some_job = some_job (inl full);
                    unique = unique;
                    named = named;
                    each_job = each_job;
                    needs = λ job n m. check_all_needs-ok (keys jobs) jobs job n checked_needs m;
                  }))))

  validate_fields-IsValid : (d : Fields) → Gives IsValid (validate_fields float d)
  unfolding validate_fields
  validate_fields-IsValid d =
      Gives-skip
        (check_fields pipeline (codes "name" ∷ codes "version" ∷ codes "jobs" ∷ [])
          (codes "dependencies" ∷ codes "artifacts" ∷ []) d)
        (λ _. Gives-checked is_named (bad_name pipeline) (get (codes "name") d) (λ name named.
          Gives-checked is_valid_semver_version (bad_version pipeline) (get (codes "version") d)
            (λ version valid.
              Gives->>= (parse_dependencies (get_list (codes "dependencies") d))
                (parse_dependencies-All (get_list (codes "dependencies") d))
                (λ deps all_deps.
                  Gives->>= (parse_jobs float (get (codes "jobs") d))
                    (parse_jobs-IsJobs (get (codes "jobs") d))
                    (λ jobs is_jobs.
                      Gives->>= (parse_artifacts (get_list (codes "artifacts") d))
                        (parse_artifacts-All (get_list (codes "artifacts") d))
                        (λ artifacts all_artifacts.
                          Gives->>= (validate_artifact_paths artifacts jobs)
                            (produced-All artifacts jobs all_artifacts)
                            (λ _ produced. Gives-ok (record {
                              name = ground (arith, named);
                              version = version-strip version valid;
                              dependencies = all_deps;
                              jobs = is_jobs;
                              artifacts = produced;
                            }))))))))

  -- A pipeline that the validator accepts fits its schema: its name is not blank and its version is
  -- one; the names and constraints of dependencies match their patterns; there is a job, no name is
  -- blank or used twice, every job has an image and a memory limit that match their patterns and at
  -- least one step, with a name and a command that are not blank, and needs only other jobs of the
  -- pipeline; every artifact has a name and a version that match their patterns, a path that, before
  -- it was stripped, was not empty, started with neither a slash nor a drive, and had no part `..`, and
  -- it passes the code's test of output files, `is_produced`.
  pub validate_root_dict-IsValid :
      (value : Data) (p : Pipeline) → validate_root_dict float value ≡ ok p → IsValid p
  unfolding validate_root_dict
  validate_root_dict-IsValid value p h =
      (Gives-skip (as_dict (not_a_mapping pipeline) value) (λ d. validate_fields-IsValid d)).of p h

  parse_and_validate-inversion :
      (value : Data) (config : PipelineConfig)
      → parse_and_validate float value ≡ ok config
      → (p : Pipeline) × IsJobs p.jobs × (config.jobs ≡ jobs_to_dict p.jobs)
  unfolding parse_and_validate to_dict
  parse_and_validate-inversion value config h =
      let (p, e, h1) = >>=-eq-ok (validate_root_dict float value) _ h in
      (p, (validate_root_dict-IsValid value p e).jobs, ground (arith, h1))

  -- In a pipeline that the parser accepts every job is named once and every need is a job.
  pub parse_and_validate-IsClosed :
      (value : Data) (config : PipelineConfig)
      → parse_and_validate float value ≡ ok config
      → Nodup (keys config.jobs) × IsClosed config.jobs
  parse_and_validate-IsClosed value config h =
      let (p, jobs, same) = parse_and_validate-inversion value config h in
      rw same (
        rw keys-jobs_to_dict jobs.unique,
        λ j n m.
            let declares : contains n (declared p.jobs j) ≡ true = rw job_needs-jobs_to_dict at m in
            rw keys-jobs_to_dict (jobs.needs j n declares).0,
      )

  -- The scheduler takes a pipeline that the parser accepts, unless its jobs need one another in a
  -- ring: it is constructed just if the jobs can be ranked with every need below the job.
  pub parse_and_validate-init :
      (value : Data) (config : PipelineConfig) (limit : ℕ)
      → parse_and_validate float value ≡ ok config
      → ((s : DagScheduler) × (init config.jobs limit ≡ ok s))
        ↔ ((rank : Str → ℕ) × IsRanked rank (job_needs config.jobs))
  parse_and_validate-init value config limit h =
      let (unique, closed) = parse_and_validate-IsClosed value config h in
      let (there, back) = init_iff config.jobs limit unique in
      (λ s. (there s).1, λ ranked. back (closed, ranked))
