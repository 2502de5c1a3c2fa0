-- ===== src/Runner/Tests.antt =====
-- engine/runner.py on a Docker client that counts its clock, and the theorem at a concrete input.
use forge_ci_cd_platform.Base.{
  ℕ, ◌+◌, ◌≡◌, refl, List, [], ◌∷◌, ◌++◌, Option, some, none, false, Str, str_dec, codes,
}
use forge_ci_cd_platform.Base.Result.{Result, ok, err}
use forge_ci_cd_platform.Pipeline.{JobConfig}
use forge_ci_cd_platform.Runner.{
  RunError, Call, executed, other_error, Docker, World, Runner, JobResult, run_job,
}
use forge_ci_cd_platform.Runner.Cleanup.{IsLife, run_job-IsLife}

-- Each reading of the clock takes a second, and removing a container raises.
abbrev docker : Docker ℕ
docker = record {
  now = λ s. (s, s + 1);
  has_image = λ image s. (false, s);
  pull = λ image s. (ok tt, s);
  create = λ c s. (ok tt, s);
  start = λ s. (ok tt, s);
  exec = λ command workdir s. (ok ((codes "line" ∷ []) ∷ []), s);
  kill = λ s. (ok tt, s);
  exit_code = λ s. (ok none, s);
  oom_killed = λ s. (ok false, s);
  stop = λ s. (ok tt, s);
  remove = λ s. (err other_error, s);
  log = λ line s. s;
}

abbrev runner : Runner
runner = record {
  registry_url = codes "http://registry:8081";
  storage_root = codes "/data";
  max_job_duration_sec = 1800;
  network_name = codes "forge_jobs";
  data_volume_name = codes "forge_data";
}

abbrev hurried : Runner
hurried = record runner { max_job_duration_sec = 4 }

abbrev job : JobConfig
job = record {
  runtime = codes "alpine:3.18";
  resources = record { cpu = 100000; memory = codes "512Mi" };
  steps =
      record { name = codes "build"; run = codes "make" }
      ∷ record { name = codes "test"; run = codes "make test" }
      ∷ [];
  needs = none;
}

abbrev scaled : Str → ℕ → Option ℕ
scaled text multiplier = some multiplier

abbrev world : World ℕ
world = record { docker = 0; calls = [] }

program : Unit {0}
unfolding run_job str_dec
program = tt

status_of : Result RunError JobResult → Str
status_of (ok result) = result.status
status_of (err e) = []

executions : List Call → List Str
executions [] = []
executions (executed command ∷ cs) = command ∷ executions cs
executions (c ∷ cs) = executions cs

runs_all :
    executions
      (run_job docker scaled runner
        (codes "ci")
        job
        (codes "/data/runs/1")
        (codes "t")
        world).1.calls
    ≡ codes "make" ∷ codes "make test" ∷ []
unfolding program executions
runs_all = refl

runs_in_time :
    status_of
      (run_job docker scaled hurried (codes "ci") job (codes "/data/runs/1") (codes "t") world).0
    ≡ codes "failed"
unfolding program status_of
runs_in_time = refl

run_job-IsLife_example :
    let z =
      run_job docker scaled runner (codes "ci") job (codes "/data/runs/1") (codes "t") world in
    (cs : List Call) × (z.1.calls ≡ [] ++ cs) × IsLife job.steps z.0 cs
run_job-IsLife_example =
    run_job-IsLife docker runner (codes "ci") scaled job (codes "/data/runs/1") (codes "t") world
