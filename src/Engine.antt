-- ===== src/Engine.antt =====
-- engine/main.py: the state of a run and `execute_pipeline`. The futures of a level are started
-- together and met in the order that `as_completed` gives, which is an argument with what each
-- future's `result()` returns or raises. Times and the texts of errors are left out.
mod State
pub mod Failing
pub mod Entries
pub mod Completing
pub mod Rounds
pub mod Submitting
pub mod Levels
pub mod Loop
pub mod Report
pub mod Outcomes
pub mod Refusals
pub mod Success
pub mod Jobs
pub mod Handlers
mod Tests
use forge_ci_cd_platform.Base.{
  ℕ, List, [], ◌∷◌, ◌++◌, Option, none, some, Bool, true, false, ◌||◌, Str, ◌==◌, if◌then◌else◌,
  any, codes, contains,
}
use forge_ci_cd_platform.Base.Dict.{Dict, keys, values, lookup, insert}
use forge_ci_cd_platform.Base.Result.{Result, ok, err, ◌>>=◌}
use forge_ci_cd_platform.Pipeline.{JobConfig}
use forge_ci_cd_platform.Scheduler
use forge_ci_cd_platform.Scheduler.{
  JobStatus, succeeded, failed, skipped, DagScheduler, init, get_execution_plan, mark_job_failed,
  update_job_status, get_job_status, get_all_statuses,
}
use forge_ci_cd_platform.Resolver
use forge_ci_cd_platform.Resolver.{RegistryClient, resolve, cycle, conflict, not_found}
unfoldable pub use forge_ci_cd_platform.Engine.State.*

-- `if job_name not in run_state.jobs: run_state.jobs[job_name] = …`, over names
pub skip_missing : List Str → Dict JobEntry → Dict JobEntry
skip_missing [] jobs = jobs
skip_missing (j ∷ js) jobs =
    skip_missing js (if contains j (keys jobs) then jobs else insert j skipped_entry jobs)

-- The loop over `get_all_statuses` at the end of a completed job.
pub record_skipped : Dict Str → Dict JobEntry → Dict JobEntry
record_skipped [] jobs = jobs
record_skipped ((j, status) ∷ rest) jobs = record_skipped rest (
    if status == codes "skipped"
    then (if contains j (keys jobs) then jobs else insert j skipped_entry jobs)
    else jobs)

abbrev pub abort : Progress → EngineError → Aborted
abort p e = record { jobs = p.jobs; error = e; notices = p.notices }

-- `scheduler.mark_job_failed(job_name)`
abbrev pub mark : Str → Progress → Result Aborted Progress
mark job p = elim (mark_job_failed job p.scheduler) [
  | none ↦ err (abort p endless)
  | some s ↦ ok (record p { scheduler = s })
]

-- The end of a completed job: the jobs that its failure skipped get their entries.
abbrev pub note_skipped : Progress → Progress
note_skipped p = record p { jobs = record_skipped (get_all_statuses p.scheduler) p.jobs }

abbrev pub finish : Str → JobStatus → Progress → Result Aborted Progress
finish job status p = if is_failed status then mark job p else ok p

-- The body of the loop over `as_completed`.
pub complete : Str → Result JobError JobDone → Progress → Result Aborted Progress
unfolding mark_job_failed record_skipped update_job_status get_all_statuses
complete job (err (integrity_error exc)) p = mark job (record p {
  jobs = insert job integrity_entry p.jobs;
  integrity_failed = true;
  notices = p.notices ++ integrity_failed exc ∷ [];
})
complete job (err other_error) p = err (abort p (job_error other_error))
complete job (ok done) p = do
  p' ← finish job done.status (record p {
    jobs = insert job (done_entry done) p.jobs;
    scheduler = update_job_status job done.status p.scheduler;
  })
  ok (note_skipped p')

pub complete_all : Dict (Result JobError JobDone) → Progress → Result Aborted Progress
complete_all [] p = ok p
complete_all ((job, result) ∷ rest) p = complete job result p >>= complete_all rest

-- The loop that submits a level: a skipped job gets its entry, any other job a future.
pub submit_jobs : Dict JobConfig → List Str → Progress → Result Aborted (Dict JobConfig × Progress)
unfolding get_job_status
submit_jobs jobs_config [] p = ok ([], p)
submit_jobs jobs_config (job ∷ rest) p = elim (get_job_status job p.scheduler) [
  | none ↦ err (abort p (key_error job))
  | some status ↦
      if is_skipped status
      then submit_jobs jobs_config rest (record p { jobs = insert job skipped_entry p.jobs })
      else elim (lookup job jobs_config) [
        | none ↦ err (abort p (key_error job))
        | some job_config ↦ (do
          (futures, p') ← submit_jobs jobs_config rest p
          ok ((job, job_config) ∷ futures, p'))
      ]
]

abbrev pub first_failing : Dict JobEntry → Option Str
first_failing [] = none
first_failing ((job, entry) ∷ rest) = elim entry.status [
  | plain failed ↦ some job
  | integrity_failure ↦ some job
  | _ ↦ first_failing rest
]

abbrev pub is_integrity_failure : JobEntry → Bool
is_integrity_failure entry = elim entry.status [ integrity_failure ↦ true | _ ↦ false ]

abbrev pub is_failed_entry : JobEntry → Bool
is_failed_entry entry = elim entry.status [ plain status ↦ is_failed status | _ ↦ false ]

-- The status of a run whose levels are done.
abbrev pub final_status : Progress → Status
final_status p =
    if p.integrity_failed || any is_integrity_failure (values p.jobs)
    then integrity_failure
    else if any is_failed_entry (values p.jobs)
    then plain failed
    else plain succeeded

-- The notice of a run whose levels are done.
abbrev pub final_notice : Progress → Notice
final_notice p = elim (final_status p) [
  | plain succeeded ↦ pipeline_succeeded
  | _ ↦ pipeline_failed (first_failing p.jobs)
]

abbrev pub start : DagScheduler → Progress
start s = record { jobs = []; scheduler = s; integrity_failed = false; notices = [] }

-- `except Exception`, and the end of the run without one.
abbrev pub close_run : RunState → Result Aborted Progress → RunState × List Notice
close_run run (err a) =
    (record run { jobs = a.jobs; status = plain failed; error = some a.error }, a.notices)
close_run run (ok p) =
    (record run { jobs = p.jobs; status = final_status p }, p.notices ++ final_notice p ∷ [])

-- The run ends before any job is run.
abbrev pub refuse : RunState → Status → EngineError → RunState × List Notice
refuse run status e = (record run { status = status; error = some e }, resolution_failed ∷ [])

module _ (as_completed : Dict JobConfig → Dict (Result JobError JobDone)) where
  -- The body of the loop over the levels.
  pub run_level : Dict JobConfig → List Str → Progress → Result Aborted Progress
  unfolding skip_missing complete complete_all submit_jobs
  run_level jobs_config level p =
      if p.integrity_failed then ok (record p { jobs = skip_missing level p.jobs }) else (do
        (futures, p') ← submit_jobs jobs_config level p
        complete_all (as_completed futures) p')

  pub run_levels : Dict JobConfig → List (List Str) → Progress → Result Aborted Progress
  unfolding run_level
  run_levels jobs_config [] p = ok p
  run_levels jobs_config (level ∷ levels) p =
      run_level jobs_config level p >>= run_levels jobs_config levels

  -- From the construction of the scheduler on.
  pub run_jobs : ℕ → RunState → RunState × List Notice
  unfolding init get_execution_plan run_levels
  run_jobs limit run = elim (init run.pipeline_config.jobs limit) [
    | err e ↦ refuse run cycle_failure (scheduler_error e)
    | ok s ↦ elim (get_execution_plan s) [
      | err e ↦ (record run { status = plain failed; error = some (scheduler_error e) }, [])
      | ok levels ↦ close_run run (run_levels run.pipeline_config.jobs levels (start s))
    ]
  ]

  -- `execute_pipeline`, with the fuel of the resolver's recursion.
  pub execute_pipeline : RegistryClient → ℕ → ℕ → RunState → RunState × List Notice
  unfolding resolve run_jobs
  execute_pipeline client fuel limit run = elim (resolve client fuel run.pipeline_config) [
    | ok lockfile ↦ run_jobs limit (record run { lockfile = some lockfile })
    | err (cycle path) ↦ refuse run cycle_failure (resolution_error (cycle path))
    | err (conflict name) ↦ refuse run conflict_failure (resolution_error (conflict name))
    | err (not_found name) ↦ refuse run conflict_failure (resolution_error (not_found name))
    | err e ↦ (record run { status = plain failed; error = some (resolution_error e) }, [])
  ]
