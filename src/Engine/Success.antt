-- ===== src/Engine/Success.antt =====
-- engine/main.py: a run in which every job succeeds.
use mathlib.Core.Path.{subst}
use forge_ci_cd_platform.Base.{
  ◌≡◌, refl, sym, if_false, inl, inr, List, [], ◌∷◌, some, Bool, true, false, ◌||◌, arith, Str,
  ◌==◌, if◌then◌else◌, any, codes, contains, All, Nodup, ℕ, Bool-cases, Option-cases,
}
use forge_ci_cd_platform.Base.Dict.{Dict, keys, values, lookup, insert}
use forge_ci_cd_platform.Base.Result.{Result, ok, err, ◌>>=◌, Gives, Gives-ok, Gives-err, Gives->>=}
use forge_ci_cd_platform.Pipeline.{JobConfig}
use forge_ci_cd_platform.Scheduler.{
  JobStatus, succeeded, DagScheduler, get_job_status, update_job_status, get_all_statuses,
}
use forge_ci_cd_platform.Scheduler.Construct.{init_iff}
use forge_ci_cd_platform.Resolver.{LockedPackage, RegistryClient, resolve}
use forge_ci_cd_platform.Engine.{
  plain, JobError, JobDone, JobEntry, Aborted, Progress, RunState, skip_missing, skipped_entry,
  done_entry, finish, record_skipped, complete, complete_all, submit_jobs, is_skipped, run_level,
  run_levels, start, is_integrity_failure, is_failed_entry, final_status, close_run,
}
use forge_ci_cd_platform.Engine.Levels.{IsAsCompleted}
use forge_ci_cd_platform.Engine.Completing.{Ends}
use forge_ci_cd_platform.Engine.Loop.{IsRecorded}
use forge_ci_cd_platform.Engine.Report.{run_jobs_cases}
use forge_ci_cd_platform.Engine.Outcomes.{IsAcyclic, after_run, execute-resolved}

-- An entry for which a run does not succeed.
abbrev is_bad : JobEntry → Bool
is_bad e = is_integrity_failure e || is_failed_entry e

-- Nothing has gone wrong so far.
record IsFine (p : Progress) : Type 0 where
  pub clean : p.integrity_failed ≡ false
  pub entries : any is_bad (values p.jobs) ≡ false

-- The future of a job that succeeds.
abbrev pub IsSuccess : Result JobError JobDone → Type 0
IsSuccess r = (done : JobDone) × (r ≡ ok done) × (done.status ≡ succeeded)

any-insert :
    (k : Str) (e : JobEntry) (jobs : Dict JobEntry)
    → any is_bad (values jobs) ≡ false
    → is_bad e ≡ false
    → any is_bad (values (insert k e jobs)) ≡ false
any-insert k e [] h b = ground (arith, b)
any-insert k e ((j, x) ∷ jobs) h b = ground (arith, any-insert k e jobs, h, b)

any-record_skipped :
    (statuses : Dict Str) (jobs : Dict JobEntry)
    → any is_bad (values jobs) ≡ false
    → any is_bad (values (record_skipped statuses jobs)) ≡ false
unfolding record_skipped
any-record_skipped [] jobs h = h
any-record_skipped ((j, status) ∷ rest) jobs h =
    any-record_skipped rest
      (if status == codes "skipped"
        then (if contains j (keys jobs) then jobs else insert j skipped_entry jobs)
        else jobs)
      (ground (arith, any-insert j skipped_entry jobs, h))

any-is_bad :
    (es : List JobEntry)
    → any is_bad es ≡ false
    → (any is_integrity_failure es ≡ false) × (any is_failed_entry es ≡ false)
any-is_bad [] h = (refl, refl)
any-is_bad (e ∷ es) h = ground (arith, any-is_bad es, h)

IsFine-final_status : (p : Progress) → IsFine p → final_status p ≡ plain succeeded
IsFine-final_status p fine =
    let (whole, unfailed) = any-is_bad (values p.jobs) fine.entries in
    rw (fine.clean, whole, unfailed) refl

submit_jobs-IsFine :
    (config : Dict JobConfig) (js : List Str) (p : Progress)
    → IsFine p
    → Gives (λ z. IsFine z.1) (submit_jobs config js p)
unfolding submit_jobs
submit_jobs-IsFine config [] p fine = Gives-ok fine
submit_jobs-IsFine config (job ∷ js) p fine = elim (Option-cases (get_job_status job p.scheduler)) [
  | inl e ↦ rw (e, submit_jobs) Gives-err
  | inr (status, e) ↦ elim (Bool-cases (is_skipped status)) [
    | inl s ↦
        rw (e, submit_jobs, s)
          (submit_jobs-IsFine config js (record p { jobs = insert job skipped_entry p.jobs })
            (record {
              clean = fine.clean;
              entries = any-insert job skipped_entry p.jobs fine.entries refl;
            }))
    | inr s ↦ elim (Option-cases (lookup job config)) [
      | inl f ↦ rw (e, submit_jobs, s, f) Gives-err
      | inr (c, f) ↦
          rw (e, submit_jobs, s, f)
            (Gives->>= (submit_jobs config js p) (submit_jobs-IsFine config js p fine)
              (λ z fine'. Gives-ok fine'))
    ]
  ]
]

finish-IsFine :
    (job : Str) (status : JobStatus) (p : Progress)
    → status ≡ succeeded
    → IsFine p
    → Gives IsFine (finish job status p)
finish-IsFine job status p h fine = rw h (Gives-ok fine)

done_entry-fine : (done : JobDone) → done.status ≡ succeeded → is_bad (done_entry done) ≡ false
done_entry-fine done h = rw h refl

complete-IsFine :
    (job : Str) (r : Result JobError JobDone) (p : Progress)
    → IsSuccess r
    → IsFine p
    → Gives IsFine (complete job r p)
unfolding complete
complete-IsFine job (err e) p (done, h, _) fine = absurd (cc (h))
complete-IsFine job (ok d) p (done, h, success) fine =
    let same : d ≡ done = ground (arith, h) in
    let won : d.status ≡ succeeded = rw same success in
    let p' : Progress = record p {
      jobs = insert job (done_entry d) p.jobs;
      scheduler = update_job_status job d.status p.scheduler;
    } in
    Gives->>= (finish job d.status p')
      (finish-IsFine job d.status p' won (record {
        clean = fine.clean;
        entries = any-insert job (done_entry d) p.jobs fine.entries (done_entry-fine d won);
      }))
      (λ q fine'. Gives-ok (record {
        clean = fine'.clean;
        entries = any-record_skipped (get_all_statuses q.scheduler) q.jobs fine'.entries;
      }))

complete_all-IsFine :
    (results : Dict (Result JobError JobDone)) (p : Progress)
    → All IsSuccess (values results)
    → IsFine p
    → Gives IsFine (complete_all results p)
unfolding complete_all
complete_all-IsFine [] p h fine = Gives-ok fine
complete_all-IsFine ((job, r) ∷ rest) p (success, h) fine =
    Gives->>= (complete job r p) (complete-IsFine job r p success fine)
      (λ q fine'. complete_all-IsFine rest q h fine')

module _ (as_completed : Dict JobConfig → Dict (Result JobError JobDone))
    (successes : (futures : Dict JobConfig) → All IsSuccess (values (as_completed futures))) where
  run_level-IsFine :
      (config : Dict JobConfig) (level : List Str) (p : Progress)
      → IsFine p
      → Gives IsFine (run_level as_completed config level p)
  unfolding run_level
  run_level-IsFine config level p fine =
      subst (Gives IsFine)
        (sym (
          if_false p.integrity_failed (ok (record p { jobs = skip_missing level p.jobs }))
            (submit_jobs config level p >>= λ z. complete_all (as_completed z.0) z.1) fine.clean))
        (Gives->>= (submit_jobs config level p) (submit_jobs-IsFine config level p fine)
          (λ z fine'. complete_all-IsFine (as_completed z.0) z.1 (successes z.0) fine'))

  run_levels-IsFine :
      (config : Dict JobConfig) (levels : List (List Str)) (p : Progress)
      → IsFine p
      → Gives IsFine (run_levels as_completed config levels p)
  unfolding run_levels
  run_levels-IsFine config [] p fine = Gives-ok fine
  run_levels-IsFine config (level ∷ levels) p fine =
      Gives->>= (run_level as_completed config level p) (run_level-IsFine config level p fine)
        (λ q fine'. run_levels-IsFine config levels q fine')

  close_run-fine :
      (s : DagScheduler) (run : RunState) (result : Result Aborted Progress)
      → Ends s true (IsRecorded s) result
      → Gives IsFine result
      → (close_run run result).0.status ≡ plain succeeded
  close_run-fine s run (ok p) ends fine = IsFine-final_status p (fine.of p refl)
  close_run-fine s run (err a) (_, _, noisy, _) fine = absurd (cc (noisy))

  -- If the packages of a pipeline are resolved, its jobs have their names once, need only jobs and
  -- can be ordered, and the futures of a level come once each and all return success, then the run is
  -- recorded as succeeded.
  pub execute_pipeline-success :
      IsAsCompleted true as_completed
      → (client : RegistryClient) (fuel limit : ℕ) (run : RunState) (lockfile : List LockedPackage)
      → Nodup (keys run.pipeline_config.jobs)
      → resolve client fuel run.pipeline_config ≡ ok lockfile
      → IsAcyclic run.pipeline_config.jobs
      → (after_run as_completed client fuel limit run).status ≡ plain succeeded
  execute_pipeline-success completes client fuel limit run lockfile u h acyclic =
      let run1 = record run { lockfile = some lockfile } in
      let config = run.pipeline_config.jobs in
      rw (execute-resolved as_completed client fuel limit run lockfile h)
        (elim (run_jobs_cases as_completed true completes limit run1 u) [
          | inl (e, q, _) ↦ let (s, q') = (init_iff config limit u).1 acyclic in absurd (cc (q, q'))
          | inr (s, ready, _, (result, r, ends, (levels, same))) ↦
              let fine : Gives IsFine result = rw same (
                run_levels-IsFine config levels (start s)
                  (record { clean = refl; entries = refl })) in
              rw r (close_run-fine s run1 result ends fine)
        ])
