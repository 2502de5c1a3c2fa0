-- ===== src/Engine/Outcomes.antt =====
-- engine/main.py, `execute_pipeline`: the ways in which a run ends.
use forge_ci_cd_platform.Base.{
  ◌||◌, any, if◌then◌else◌, ℕ, ◌≡◌, ◌≢◌, refl, ◌∙◌, ◌⊎◌, inl, inr, List, [], some, Bool, true,
  false, Str, contains, is_some, Nodup,
}
use forge_ci_cd_platform.Base.Dict.{Dict, keys, values, lookup}
use forge_ci_cd_platform.Base.Result.{Result, ok, err, Result-cases}
use forge_ci_cd_platform.Pipeline.{JobConfig}
use forge_ci_cd_platform.Scheduler.{succeeded, failed, DagScheduler}
use forge_ci_cd_platform.Scheduler.Graph.{IsClosed, job_needs}
use forge_ci_cd_platform.Scheduler.Order.{IsRanked}
use forge_ci_cd_platform.Scheduler.Construct.{IsReady, init_iff}
use forge_ci_cd_platform.Resolver
use forge_ci_cd_platform.Resolver.{
  LockedPackage, RegistryClient, resolve, cycle, conflict, not_found,
}
use forge_ci_cd_platform.Engine.{
  Status, plain, integrity_failure, cycle_failure, conflict_failure, JobDone, JobError, RunState,
  Progress, Aborted, resolution_error, run_jobs, close_run, execute_pipeline, final_status,
  is_integrity_failure, is_failed_entry,
}
use forge_ci_cd_platform.Engine.Completing.{Ends}
use forge_ci_cd_platform.Engine.Levels.{IsAsCompleted}
use forge_ci_cd_platform.Engine.Loop.{IsRecorded}
use forge_ci_cd_platform.Engine.Report.{
  IsOrderly, has_succeeded, run_jobs_cases, run_jobs-IsOrderly, final_status-succeeded,
}

-- The status of a run whose packages cannot be resolved.
abbrev pub unresolved_status : Resolver.Error → Status
unresolved_status (cycle path) = cycle_failure
unresolved_status (conflict name) = conflict_failure
unresolved_status (not_found name) = conflict_failure
unresolved_status _ = plain failed

unresolved_status-refused : (e : Resolver.Error) → unresolved_status e ≢ plain succeeded
unresolved_status-refused (cycle path) h = cc
unresolved_status-refused (conflict name) h = cc
unresolved_status-refused (not_found name) h = cc
unresolved_status-refused Resolver.value_error h = cc
unresolved_status-refused Resolver.out_of_fuel h = cc

-- The statuses that the loop over the levels can leave.
abbrev pub IsFinal : Status → Type 0
IsFinal status =
    (status ≡ plain succeeded) ⊎ ((status ≡ plain failed) ⊎ (status ≡ integrity_failure))

pub final_status-IsFinal : (p : Progress) → IsFinal (final_status p)
final_status-IsFinal p =
    three (p.integrity_failed || any is_integrity_failure (values p.jobs))
      (any is_failed_entry (values p.jobs))
  where
    three :
        (b c : Bool)
        → IsFinal (if b then integrity_failure else if c then plain failed else plain succeeded)
    three true c = inr (inr refl)
    three false true = inr (inl refl)
    three false false = inl refl

-- Some order of the jobs has every need before the job, and every need is a job.
abbrev pub IsAcyclic : Dict JobConfig → Type 0
IsAcyclic jobs = IsClosed jobs × ((rank : Str → ℕ) × IsRanked rank (job_needs jobs))

module _ (as_completed : Dict JobConfig → Dict (Result JobError JobDone)) (client : RegistryClient)
    (fuel limit : ℕ) where
  abbrev pub after_run : RunState → RunState
  after_run run = (execute_pipeline as_completed client fuel limit run).0

  pub execute-resolved :
      (run : RunState) (lockfile : List LockedPackage)
      → resolve client fuel run.pipeline_config ≡ ok lockfile
      → after_run run ≡ (run_jobs as_completed limit (record run { lockfile = some lockfile })).0
  unfolding execute_pipeline
  execute-resolved run lockfile h = rw (h, execute_pipeline, after_run) refl

  pub execute-unresolved :
      (run : RunState) (e : Resolver.Error)
      → resolve client fuel run.pipeline_config ≡ err e
      → after_run run
        ≡ record run { status = unresolved_status e; error = some (resolution_error e) }
  unfolding execute_pipeline
  execute-unresolved run (cycle path) h = rw (h, execute_pipeline, after_run) refl
  execute-unresolved run (conflict name) h = rw (h, execute_pipeline, after_run) refl
  execute-unresolved run (not_found name) h = rw (h, execute_pipeline, after_run) refl
  execute-unresolved run Resolver.value_error h = rw (h, execute_pipeline, after_run) refl
  execute-unresolved run Resolver.out_of_fuel h = rw (h, execute_pipeline, after_run) refl

  close_run-succeeded :
      (config : Dict JobConfig) (s : DagScheduler) (run : RunState)
      (result : Result Aborted Progress)
      → IsReady config s
      → Ends s false (IsRecorded s) result
      → (close_run run result).0.status ≡ plain succeeded
      → (j : Str) → contains j (keys config) ≡ true
      → has_succeeded (lookup j (close_run run result).0.jobs) ≡ true
  close_run-succeeded config s run (ok p) ready ends h j m =
      final_status-succeeded config s ready p ends h j m
  close_run-succeeded config s run (err a) ready ends h j m = absurd (cc (h))

  close_run-Ends :
      (config : Dict JobConfig) (s : DagScheduler) (run : RunState)
      (result : Result Aborted Progress)
      → IsReady config s
      → Ends s true (IsRecorded s) result
      → ((j : Str)
          → contains j (keys config) ≡ true
          → is_some (lookup j (close_run run result).0.jobs) ≡ true)
        × IsFinal (close_run run result).0.status
        × ((close_run run result).0.error ≡ run.error)
  close_run-Ends config s run (ok p) ready ends =
      (λ j m. ends.entries j (ready.built.same_keys j ∙ m), final_status-IsFinal p, refl)
  close_run-Ends config s run (err a) ready (_, _, noisy, _) = absurd (cc (noisy))

  module _ (completes : IsAsCompleted false as_completed) where
    -- However a run ends, and in whatever order the jobs of a level complete, a job was started only
    -- if every job that it needs has succeeded: if a job of the record succeeded, failed or met a
    -- corrupt package, each of its needs is recorded as succeeded.
    pub execute_pipeline-IsOrderly :
        (run : RunState)
        → Nodup (keys run.pipeline_config.jobs)
        → run.jobs ≡ []
        → IsOrderly run.pipeline_config.jobs (after_run run).jobs
    execute_pipeline-IsOrderly run u empty =
        elim (Result-cases (resolve client fuel run.pipeline_config)) [
          | inl (lockfile, h) ↦ rw (execute-resolved run lockfile h) (
              run_jobs-IsOrderly as_completed false completes limit
                (record run { lockfile = some lockfile }) u empty)
          | inr (e, h) ↦ rw (execute-unresolved run e h, empty) (λ j x q. cc)
        ]

    -- A run is recorded as succeeded only if all jobs of its pipeline are: each of them has an entry,
    -- and the entry's status is `succeeded`.
    pub execute_pipeline-succeeded :
        (run : RunState)
        → Nodup (keys run.pipeline_config.jobs)
        → (after_run run).status ≡ plain succeeded
        → (j : Str) → contains j (keys run.pipeline_config.jobs) ≡ true
        → has_succeeded (lookup j (after_run run).jobs) ≡ true
    execute_pipeline-succeeded run u success j m =
        elim (Result-cases (resolve client fuel run.pipeline_config)) [
          | inr (e, h) ↦
              absurd (unresolved_status-refused e (rw (execute-unresolved run e h) at success))
          | inl (lockfile, h) ↦
              let run1 = record run { lockfile = some lockfile } in
              let q = execute-resolved run lockfile h in
              rw q (elim (run_jobs_cases as_completed false completes limit run1 u) [
                | inl (_, _, r) ↦ absurd (cc (rw (q, r) at success))
                | inr (s, ready, _, (result, r, ends, _)) ↦ rw r (
                    close_run-succeeded run.pipeline_config.jobs s run1 result ready ends
                      (rw (q, r) at success) j m)
              ])
        ]

  -- If the packages of a pipeline are resolved, its jobs need only jobs and can be ordered, and no
  -- job raises but for a corrupt package, then the run ends with an entry for every job and without
  -- an error, as succeeded, failed or with an integrity failure.
  pub execute_pipeline_ends :
      (run : RunState) (lockfile : List LockedPackage)
      → IsAsCompleted true as_completed
      → Nodup (keys run.pipeline_config.jobs)
      → resolve client fuel run.pipeline_config ≡ ok lockfile
      → IsAcyclic run.pipeline_config.jobs
      → ((j : Str)
          → contains j (keys run.pipeline_config.jobs) ≡ true
          → is_some (lookup j (after_run run).jobs) ≡ true)
        × IsFinal (after_run run).status
        × ((after_run run).error ≡ run.error)
  execute_pipeline_ends run lockfile completes u h acyclic =
      let run1 = record run { lockfile = some lockfile } in
      let config = run.pipeline_config.jobs in
      rw (execute-resolved run lockfile h)
        (elim (run_jobs_cases as_completed true completes limit run1 u) [
          | inl (e, q, _) ↦ let (s, q') = (init_iff config limit u).1 acyclic in absurd (cc (q, q'))
          | inr (s, ready, _, (result, r, ends, _)) ↦
              rw r (close_run-Ends config s run1 result ready ends)
        ])
