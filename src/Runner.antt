-- ===== src/Runner.antt =====
-- engine/runner.py, `DockerJobRunner.run_job`. The Docker client, the clock and the log callback are
-- an argument, as operations on a world; the calls that change the containers are recorded in order.
-- Times are whole seconds.
mod Client
pub mod Calls
pub mod Steps
pub mod Cleanup
mod Tests
use forge_ci_cd_platform.Base.{
  ℕ, ◌+◌, ◌-◌, ◌^◌, List, [], ◌∷◌, ◌++◌, Option, none, some, Bool, true, false, Str, eqb, ltb, leb,
  if◌then◌else◌, codes,
}
use forge_ci_cd_platform.Base.Result.{Result, ok, err}
use forge_ci_cd_platform.Text.{ends_with, drop_last, int, decimal}
use forge_ci_cd_platform.Pipeline.{PipelineStep, JobConfig}
pub use forge_ci_cd_platform.Runner.Client.*

-- `_parse_memory`: the units in the order of the dictionary. `scaled t m` is `int(float(t) * m)`, with
-- `none` for a ValueError.
pub parse_memory : (Str → ℕ → Option ℕ) → Str → Option ℕ
unfolding int
parse_memory scaled memory =
    if ends_with memory (codes "Ki")
    then scaled (drop_last 2 memory) 1024
    else if ends_with memory (codes "Mi")
    then scaled (drop_last 2 memory) (1024 ^ 2)
    else if ends_with memory (codes "Gi")
    then scaled (drop_last 2 memory) (1024 ^ 3)
    else if ends_with memory (codes "K")
    then scaled (drop_last 1 memory) 1000
    else if ends_with memory (codes "M")
    then scaled (drop_last 1 memory) (1000 ^ 2)
    else if ends_with memory (codes "G")
    then scaled (drop_last 1 memory) (1000 ^ 3)
    else int memory

abbrev pub code_of : Option ℕ → ℕ
code_of none = 0
code_of (some n) = n

-- `_create_container`'s settings
abbrev pub container : Runner → Str → Str → ℕ → ℕ → Str → Str → ℕ → Container
container runner image job_name cpu_quota memory_bytes workspace_path forge_token time = record {
  image = image;
  name = codes "forge-job-" ++ job_name ++ codes "-" ++ decimal time;
  command = codes "sleep" ∷ codes "infinity" ∷ [];
  mounts =
      record { target = codes "/data"; source = runner.data_volume_name; read_only = false } ∷ [];
  working_dir = workspace_path;
  user = codes "1000:1000";
  cap_drop = codes "ALL" ∷ [];
  security_opt = codes "no-new-privileges:true" ∷ [];
  pids_limit = 256;
  read_only = true;
  tmpfs = (codes "/tmp", codes "size=64m,mode=1777") ∷ [];
  network = runner.network_name;
  cpu_quota = cpu_quota;
  cpu_period = 100000;
  mem_limit = memory_bytes;
  memswap_limit = memory_bytes;
  environment =
      (codes "FORGE_TOKEN", forge_token)
      ∷ (codes "FORGE_URL", runner.registry_url)
      ∷ (codes "HOME", codes "/tmp")
      ∷ [];
}

abbrev pub exit_code_of : Outcome → ℕ
exit_code_of (exited code) = code
exit_code_of timed_out = 124
exit_code_of oom = 137

-- The result that is returned at a time.
abbrev pub result_at : Runner → Str → ℕ → ℕ → ℕ → JobResult
result_at runner job_name start_time exit_code time = record {
  job_name = job_name;
  exit_code = exit_code;
  status = if eqb exit_code 0 then codes "succeeded" else codes "failed";
  log_path = runner.storage_root ++ codes "/logs/" ++ job_name ++ codes ".log";
  duration_seconds = time - start_time;
}

module _ {S : Type 0} (docker : Docker S) where
  abbrev pub silent : {A : Type 0} → (S → A × S) → Run S A
  silent op w = let (a, s) = op w.docker in (ok a, record w { docker = s })

  abbrev pub raising : {A : Type 0} → (S → Result RunError A × S) → Run S A
  raising op w = let (a, s) = op w.docker in (a, record w { docker = s })

  -- A call that is recorded whether it raises or not.
  abbrev pub recorded : {A : Type 0} → Call → (S → Result RunError A × S) → Run S A
  recorded call op w =
      let (a, s) = op w.docker in (a, record { docker = s; calls = w.calls ++ call ∷ [] })

  abbrev pub log : Str → Run S (Unit {0})
  log line w = (ok tt, record w { docker = docker.log line w.docker })

  abbrev pub log_lines : Str → List Str → Run S (Unit {0})
  log_lines step_name [] = pure tt
  log_lines step_name (line ∷ lines) =
      log (codes "[" ++ step_name ++ codes "] " ++ line) >> log_lines step_name lines

  -- The loop over the chunks of a step's output; false if the deadline passed.
  pub read_output : Str → ℕ → List (List Str) → Run S Bool
  read_output step_name deadline [] = pure true
  read_output step_name deadline (lines ∷ chunks) = silent docker.now >>= λ time.
      if ltb deadline time
      then recorded killed docker.kill
        >> (log (codes "[" ++ step_name ++ codes "] Job timed out") >> pure false)
      else log_lines step_name lines >> read_output step_name deadline chunks

  -- The end of `_exec_step`: the exit code and whether the container ran out of memory.
  abbrev pub step_result : PipelineStep → Bool → Run S (ℕ × Bool)
  step_result step false = pure (124, false)
  step_result step true = raising docker.exit_code >>= λ code.
      raising docker.oom_killed >>= λ by_oom.
      (if by_oom
        then log (codes "[" ++ step.name ++ codes "] OOM killed — container exceeded memory limit")
        else pure tt)
      >> pure (code_of code, by_oom)

  -- `_exec_step`
  pub exec_step : Str → PipelineStep → ℕ → Run S (ℕ × Bool)
  unfolding read_output
  exec_step workdir step deadline =
      recorded (executed step.run) (docker.exec step.run workdir) >>= λ chunks.
      read_output step.name deadline chunks >>= λ in_time. step_result step in_time

  -- The loop over the steps.
  pub run_steps : ℕ → Str → Str → ℕ → List PipelineStep → Run S Outcome
  unfolding exec_step
  run_steps limit memory workdir deadline [] = pure (exited 0)
  run_steps limit memory workdir deadline (step ∷ steps) = silent docker.now >>= λ time.
      if leb deadline time
      then log
          (codes "[" ++ step.name ++ codes "] Job timed out after " ++ decimal limit ++ codes "s")
        >> pure timed_out
      else exec_step workdir step deadline >>= λ (code, killed_by_oom).
          if killed_by_oom
          then log (
              codes "["
              ++ step.name
              ++ codes "] OOM killed — memory limit "
              ++ memory
              ++ codes " exceeded")
            >> pure oom
          else if eqb code 0
          then run_steps limit memory workdir deadline steps
          else pure (exited code)

  abbrev pub job_result : Runner → Str → ℕ → ℕ → Run S JobResult
  job_result runner job_name start_time exit_code =
      silent docker.now >>= λ time. pure (result_at runner job_name start_time exit_code time)

  -- `except ContainerError`
  abbrev pub caught :
      Runner → Str → ℕ → Result RunError JobResult × World S → Result RunError JobResult × World S
  caught runner job_name start_time (ok result, w) = (ok result, w)
  caught runner job_name start_time (err other_error, w) = (err other_error, w)
  caught runner job_name start_time (err container_error, w) =
      job_result runner job_name start_time 1 w

  -- The `finally` clause: an exception of it is only logged.
  abbrev pub cleanup : Result RunError JobResult × World S → Result RunError JobResult × World S
  cleanup (r, w) = (r, ((recorded stopped docker.stop >> recorded removed docker.remove) w).1)

  abbrev pub run_started : Runner → Str → JobConfig → Str → ℕ → Run S JobResult
  run_started runner job_name job workspace_path start_time =
      recorded started docker.start
      >> (run_steps runner.max_job_duration_sec job.resources.memory workspace_path
            (start_time + runner.max_job_duration_sec) job.steps
          >>= λ outcome. job_result runner job_name start_time (exit_code_of outcome))

  abbrev pub ensure_image : Str → Run S (Unit {0})
  ensure_image image = silent (docker.has_image image) >>= λ present.
      if present then pure tt else raising (docker.pull image)

  -- The image is there, and the container is created.
  abbrev pub prepare : Runner → Str → JobConfig → Str → Str → ℕ → Run S (Unit {0})
  prepare runner job_name job workspace_path forge_token memory_bytes =
      ensure_image job.runtime
      >> (silent docker.now >>= λ time.
          let c =
            container runner job.runtime job_name job.resources.cpu memory_bytes workspace_path
              forge_token time in
          recorded (created c) (docker.create c))

  -- From the creation of the container on: only a container that exists is cleaned up.
  abbrev pub run_container :
      Runner
      → Str
      → JobConfig
      → Str
      → ℕ
      → Result RunError (Unit {0}) × World S
      → Result RunError JobResult × World S
  run_container runner job_name job workspace_path start_time (err e, w) =
      caught runner job_name start_time (err e, w)
  run_container runner job_name job workspace_path start_time (ok _, w) = cleanup (
      caught runner job_name start_time
        (run_started runner job_name job workspace_path start_time w))

  -- `run_job`, on a job that the parser accepted, so that the keys are there.
  pub run_job : (Str → ℕ → Option ℕ) → Runner → Str → JobConfig → Str → Str → Run S JobResult
  unfolding parse_memory run_steps
  run_job scaled runner job_name job workspace_path forge_token =
      silent docker.now >>= λ start_time. elim (parse_memory scaled job.resources.memory) [
        | none ↦ λ w. (err other_error, w)
        | some memory_bytes ↦ λ w.
            run_container runner job_name job workspace_path start_time
              (prepare runner job_name job workspace_path forge_token memory_bytes w)
      ]
