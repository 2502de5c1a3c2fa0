-- ===== src/Engine/Jobs/Tests.antt =====
-- engine/main.py, `execute_job` against a small registry, and the theorems at concrete inputs.
use forge_ci_cd_platform.Base.{
  ◌≡◌, refl, List, [], ◌∷◌, none, some, true, Str, ◌==◌, if◌then◌else◌, str_dec, codes,
}
use forge_ci_cd_platform.Base.Result.{ok, err}
use forge_ci_cd_platform.Pipeline.{JobConfig, PipelineConfig}
use forge_ci_cd_platform.Resolver.{LockedPackage, lockfile_as_deps_dict}
use forge_ci_cd_platform.Engine.{integrity_error}
use forge_ci_cd_platform.Engine.Jobs.{Host, JobWorld, pull_deps, execute_job}
use forge_ci_cd_platform.Engine.Jobs.Pulls.{Extracts, IsPull, pull_deps-IsPull}
use forge_ci_cd_platform.Engine.Jobs.Execution.{IsExecution, execute_job-IsExecution}

-- The world is what the registry answers.
abbrev host : Host Str
host = record {
  get = λ name version h. (record { status_code = 200; content = h }, h);
  post = λ upload h. (201, h);
  run_job = λ job config token h. (
    some (record {
      job_name = job;
      exit_code = 0;
      status = codes "succeeded";
      log_path = [];
      duration_seconds = 1;
    }),
    h,
  );
  open_file = λ path h. if path == codes "out/app.zip" then some (codes "PK app") else none;
  unpack = λ name archive h. (true, h);
  log = λ job line h. h;
}

-- A checksum that keeps the whole content.
abbrev digest : Str → Str
digest s = s

abbrev lockfile : List LockedPackage
lockfile = record { name = codes "core"; version = codes "1.0.0"; sha256 = codes "PK core" } ∷ []

abbrev job_config : JobConfig
job_config = record {
  runtime = codes "alpine:3.18";
  resources = record { cpu = 100000; memory = codes "512Mi" };
  steps = [];
  needs = none;
}

abbrev config : PipelineConfig
config = record {
  name = codes "app";
  version = codes "1.0.0";
  dependencies = [];
  jobs = [];
  artifacts =
      record { name = codes "app"; version = codes "1.0.0"; path = codes "./out/app.zip" } ∷ [];
}

abbrev world : Str → JobWorld Str
world answer = record { host = answer; pulled = []; uploads = [] }

program : Unit {0}
unfolding execute_job str_dec
program = tt

execute_good :
    (execute_job host digest
      (codes "build")
      job_config
      config
      lockfile
      none
      (world (codes "PK core"))).0
    ≡ ok (record {
      exit_code = 0;
      status = codes "succeeded";
      artifacts =
          record { name = codes "app"; version = codes "1.0.0"; sha256 = codes "PK app" } ∷ [];
    })
unfolding program
execute_good = refl

execute_corrupt :
    (execute_job host digest
      (codes "build")
      job_config
      config
      lockfile
      none
      (world (codes "PK bad"))).0
    ≡ err (
        integrity_error (record {
          name = codes "core";
          version = codes "1.0.0";
          expected = codes "PK core";
          actual = codes "PK bad";
        }))
unfolding program
execute_corrupt = refl

pull_deps-IsPull_example :
    let z = pull_deps host digest (codes "build") lockfile (world (codes "PK core")) in
    (ps : List (Str × Str)) × Extracts host digest (world (codes "PK core")) ps z.1
    × IsPull host digest (lockfile_as_deps_dict lockfile []) ps z.0
pull_deps-IsPull_example =
    pull_deps-IsPull host digest (codes "build") lockfile (world (codes "PK core"))

execute_job-IsExecution_example :
    IsExecution host digest (codes "build") job_config none lockfile (world (codes "PK core")) (
      execute_job host digest
        (codes "build")
        job_config
        config
        lockfile
        none
        (world (codes "PK core")))
execute_job-IsExecution_example =
    execute_job-IsExecution host digest (codes "build") job_config config lockfile none
      (world (codes "PK core"))
