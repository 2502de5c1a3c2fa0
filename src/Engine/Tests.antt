-- ===== src/Engine/Tests.antt =====
-- engine/main.py on small pipelines, and the theorems at concrete inputs.
use forge_ci_cd_platform.Base.{
  ◌≡◌, refl, ◌↔◌, ◌⊎◌, inl, inr, List, [], ◌∷◌, none, some, Bool, true, false, arith, Str, ◌==◌,
  if◌then◌else◌, str_dec, codes, contains, is_some, Nodup, All, Bool-cases,
}
use forge_ci_cd_platform.Base.Dict.{Dict, keys, values, lookup}
use forge_ci_cd_platform.Base.Result.{Result, ok, err}
use forge_ci_cd_platform.Pipeline.{JobConfig, PipelineConfig}
use forge_ci_cd_platform.Scheduler.{succeeded, failed, DagScheduler, init}
use forge_ci_cd_platform.Scheduler.Construct.{init_iff}
use forge_ci_cd_platform.Resolver.{
  Dep, LockedPackage, RegistryClient, resolve, not_found, cycle, conflict,
}
use forge_ci_cd_platform.Resolver.Rings.{IsCalm, IsRing}
use forge_ci_cd_platform.Engine.{
  plain, cycle_failure, conflict_failure, JobDone, JobError, RunState, new_run, execute_pipeline,
  done_entry, skipped_entry,
}
use forge_ci_cd_platform.Engine.Completing.{IsResult}
use forge_ci_cd_platform.Engine.Levels.{IsAsCompleted}
use forge_ci_cd_platform.Engine.Report.{IsOrderly, has_succeeded}
use forge_ci_cd_platform.Engine.Outcomes.{
  IsAcyclic, IsFinal, after_run, execute_pipeline-IsOrderly, execute_pipeline-succeeded,
  execute_pipeline_ends,
}
use forge_ci_cd_platform.Engine.Success.{IsSuccess, execute_pipeline-success}
use forge_ci_cd_platform.Engine.Refusals.{
  execute_pipeline-cycle_failure_iff, execute_pipeline-conflict_failure_iff,
}

-- The futures in the order of their submission, with a result for each job.
abbrev pub in_order :
    (Str → Result JobError JobDone) → Dict JobConfig → Dict (Result JobError JobDone)
in_order f [] = []
in_order f ((job, config) ∷ rest) = (job, f job) ∷ in_order f rest

in_order-same :
    (f : Str → Result JobError JobDone) (futures : Dict JobConfig) (k : Str)
    → contains k (keys (in_order f futures)) ≡ contains k (keys futures)
in_order-same f [] k = refl
in_order-same f ((job, config) ∷ rest) k = ground (arith, in_order-same f rest k)

in_order-Nodup :
    (f : Str → Result JobError JobDone) (futures : Dict JobConfig)
    → Nodup (keys futures)
    → Nodup (keys (in_order f futures))
in_order-Nodup f [] u = tt
in_order-Nodup f ((job, config) ∷ rest) (fresh, u) =
    (ground (arith, in_order-same f rest job, fresh), in_order-Nodup f rest u)

in_order-All :
    (P : Result JobError JobDone → Type 0) (f : Str → Result JobError JobDone)
    → ((j : Str) → P (f j))
    → (futures : Dict JobConfig) → All P (values (in_order f futures))
in_order-All P f h [] = tt
in_order-All P f h ((job, config) ∷ rest) = (h job, in_order-All P f h rest)

in_order-IsAsCompleted :
    (calm : Bool) (f : Str → Result JobError JobDone)
    → ((j : Str) → IsResult calm (f j))
    → IsAsCompleted calm (in_order f)
in_order-IsAsCompleted calm f h = record {
  same = in_order-same f;
  unique = in_order-Nodup f;
  results = in_order-All (IsResult calm) f h;
}

abbrev job : List Str → JobConfig
job needs = record {
  runtime = codes "alpine:3.18";
  resources = record { cpu = 100000; memory = codes "512Mi" };
  steps = [];
  needs = some needs;
}

abbrev build : Str
build = codes "build"

abbrev lint : Str
lint = codes "lint"

abbrev deploy : Str
deploy = codes "deploy"

abbrev chain : Dict JobConfig
chain = (deploy, job (lint ∷ [])) ∷ (build, job []) ∷ (lint, job (build ∷ [])) ∷ []

abbrev config_of : Dict JobConfig → PipelineConfig
config_of jobs = record {
  name = codes "app";
  version = codes "1.0.0";
  dependencies = [];
  jobs = jobs;
  artifacts = [];
}

abbrev run_of : Dict JobConfig → RunState
run_of jobs = new_run (codes "r1") (config_of jobs) (codes "ci")

-- A registry without packages.
abbrev pub no_packages : RegistryClient
no_packages = record {
  list_versions = λ name. err (not_found name);
  get_metadata = λ name version. err (not_found name);
}

abbrev success : JobDone
success = record { exit_code = 0; status = succeeded; artifacts = [] }

abbrev failure : JobDone
failure = record { exit_code = 2; status = failed; artifacts = [] }

abbrev pub all_succeed : Str → Result JobError JobDone
all_succeed j = ok success

abbrev lint_fails : Str → Result JobError JobDone
lint_fails j = ok (if j == lint then failure else success)

program : Unit {0}
unfolding execute_pipeline new_run str_dec
program = tt

execute_chain :
    (execute_pipeline (in_order all_succeed) no_packages 1 4 (run_of chain)).0.jobs
    ≡ (build, done_entry success) ∷ (lint, done_entry success) ∷ (deploy, done_entry success) ∷ []
unfolding program
execute_chain = refl

execute_failing :
    (execute_pipeline (in_order lint_fails) no_packages 1 4 (run_of chain)).0.jobs
    ≡ (build, done_entry success) ∷ (lint, done_entry failure) ∷ (deploy, skipped_entry) ∷ []
unfolding program
execute_failing = refl

unique_chain : Nodup (keys chain)
unfolding str_dec
unique_chain = (refl, (refl, (refl, tt)))

pub all_complete : IsAsCompleted false (in_order all_succeed)
all_complete = in_order-IsAsCompleted false all_succeed (λ j. refl)

fails_complete : IsAsCompleted false (in_order lint_fails)
fails_complete = in_order-IsAsCompleted false lint_fails result
  where
    result : (j : Str) → IsResult false (lint_fails j)
    result j = elim (Bool-cases (j == lint)) [ inl e ↦ rw e refl | inr e ↦ rw e refl ]

no_lockfile : resolve no_packages 1 (config_of chain) ≡ ok []
unfolding program
no_lockfile = refl

execute_pipeline-IsOrderly_example :
    IsOrderly chain (after_run (in_order lint_fails) no_packages 1 4 (run_of chain)).jobs
unfolding new_run
execute_pipeline-IsOrderly_example =
    execute_pipeline-IsOrderly (in_order lint_fails) no_packages 1 4 fails_complete (run_of chain)
      unique_chain refl

chain_succeeds :
    (after_run (in_order all_succeed) no_packages 1 4 (run_of chain)).status ≡ plain succeeded
unfolding program
chain_succeeds = refl

known_deploy : contains deploy (keys chain) ≡ true
unfolding str_dec
known_deploy = refl

execute_pipeline-succeeded_example :
    has_succeeded
      (lookup deploy (after_run (in_order all_succeed) no_packages 1 4 (run_of chain)).jobs)
    ≡ true
unfolding new_run
execute_pipeline-succeeded_example =
    execute_pipeline-succeeded (in_order all_succeed) no_packages 1 4 all_complete (run_of chain)
      unique_chain chain_succeeds deploy known_deploy

scheduled : DagScheduler
unfolding program
scheduled = elim (init chain 4) [
  | ok s ↦ s
  | err e ↦ record {
    jobs_config = [];
    concurrency_limit = 0;
    graph = [];
    sorted_jobs = [];
    job_statuses = [];
  }
]

init-chain : init chain 4 ≡ ok scheduled
unfolding program scheduled
init-chain = refl

chain-IsAcyclic : IsAcyclic chain
chain-IsAcyclic = (init_iff chain 4 unique_chain).0 (scheduled, init-chain)

execute_pipeline_ends_example :
    let run = after_run (in_order all_succeed) no_packages 1 4 (run_of chain) in
    ((j : Str) → contains j (keys chain) ≡ true → is_some (lookup j run.jobs) ≡ true)
    × IsFinal run.status
    × (run.error ≡ none)
unfolding new_run
execute_pipeline_ends_example =
    execute_pipeline_ends (in_order all_succeed) no_packages 1 4 (run_of chain) []
      (in_order-IsAsCompleted true all_succeed (λ j. refl)) unique_chain no_lockfile chain-IsAcyclic

execute_pipeline-success_example :
    (after_run (in_order all_succeed) no_packages 1 4 (run_of chain)).status ≡ plain succeeded
unfolding new_run
execute_pipeline-success_example =
    execute_pipeline-success (in_order all_succeed)
      (in_order-All IsSuccess all_succeed (λ j. (success, refl, refl)))
      (in_order-IsAsCompleted true all_succeed (λ j. refl)) no_packages 1 4 (run_of chain) []
      unique_chain no_lockfile chain-IsAcyclic

-- A registry in which every package depends on the package `b`, which depends on itself.
abbrev ring_dep : Dep
ring_dep = record { name = codes "b"; version = codes "^1.0.0" }

abbrev ring_packages : RegistryClient
ring_packages = record {
  list_versions = λ name. ok (codes "1.0.0" ∷ []);
  get_metadata = λ name version. ok (record {
    name = name;
    version = version;
    sha256 = codes "s";
    size = 1;
    deps = ring_dep ∷ [];
  });
}

ring_calm : IsCalm ring_packages
ring_calm = record { lists = λ name path h. cc; fetches = λ name version path h. cc }

abbrev ring_config : PipelineConfig
ring_config = record (config_of chain) {
  dependencies = record { name = codes "a"; version = codes "^1.0.0" } ∷ [];
}

abbrev ring_run : RunState
ring_run = new_run (codes "r1") ring_config (codes "ci")

execute_pipeline-cycle_failure_iff_example :
    ((after_run (in_order all_succeed) ring_packages 4 4 ring_run).status ≡ cycle_failure) ↔ (
      ((path : List Str) × (resolve ring_packages 4 ring_config ≡ err (cycle path))
        × IsRing ring_packages path)
      ⊎ ((lockfile : List LockedPackage) × (resolve ring_packages 4 ring_config ≡ ok lockfile)
          × (¬ IsAcyclic chain)))
unfolding new_run
execute_pipeline-cycle_failure_iff_example =
    execute_pipeline-cycle_failure_iff (in_order all_succeed) all_complete ring_packages 4 4
      ring_calm ring_run unique_chain

execute_pipeline-conflict_failure_iff_example :
    ((after_run (in_order all_succeed) no_packages 1 4 (run_of chain)).status ≡ conflict_failure)
    ↔ ((name : Str) × ((resolve no_packages 1 (config_of chain) ≡ err (conflict name))
          ⊎ (resolve no_packages 1 (config_of chain) ≡ err (not_found name))))
unfolding new_run
execute_pipeline-conflict_failure_iff_example =
    execute_pipeline-conflict_failure_iff (in_order all_succeed) all_complete no_packages 1 4
      (run_of chain) unique_chain
