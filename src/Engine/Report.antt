-- ===== src/Engine/Report.antt =====
-- engine/main.py, `execute_pipeline`: what the record of a run says when the run is over.
use forge_ci_cd_platform.Base.{
  ℕ, ◌≡◌, ◌≢◌, ◌==◌, refl, ◌∙◌, ap, ◌⊎◌, inl, inr, List, [], ◌∷◌, none, some, Option, Bool, true,
  false, arith, Str, contains, Nodup, Bool-cases, Option-cases, any,
}
use forge_ci_cd_platform.Base.Dict.{Dict, keys, values, lookup}
use forge_ci_cd_platform.Base.Result.{Result, ok, err, Result-cases}
use forge_ci_cd_platform.Pipeline.{JobConfig}
use forge_ci_cd_platform.Scheduler
use forge_ci_cd_platform.Scheduler.{
  JobStatus, succeeded, failed, skipped, queued, is_succeeded, DagScheduler, init,
  get_execution_plan,
}
use forge_ci_cd_platform.Scheduler.Graph.{job_needs}
use forge_ci_cd_platform.Scheduler.Construct.{IsReady, init-IsReady}
use forge_ci_cd_platform.Scheduler.Plan.{get_execution_plan-IsPlan}
use forge_ci_cd_platform.Scheduler.Statuses.{statuses-Nodup}
use forge_ci_cd_platform.Engine.{
  Status, plain, integrity_failure, cycle_failure, JobDone, JobError, JobEntry, RunState, Progress,
  Aborted, scheduler_error, run_levels, run_jobs, close_run, refuse, start, final_status,
  is_failed_entry, is_failed,
}
use forge_ci_cd_platform.Engine.Failing.{is_done}
use forge_ci_cd_platform.Engine.Completing.{IsProgress, Ends, agrees, matches}
use forge_ci_cd_platform.Engine.Levels.{IsAsCompleted}
use forge_ci_cd_platform.Engine.Loop.{IsRecorded, run_levels-IsRecorded}

-- The status of an entry says that the job was started.
abbrev pub was_run : Status → Bool
was_run (plain succeeded) = true
was_run (plain failed) = true
was_run integrity_failure = true
was_run _ = false

abbrev pub has_succeeded : Option JobEntry → Bool
has_succeeded none = false
has_succeeded (some e) = elim e.status [ plain status ↦ is_succeeded (some status) | _ ↦ false ]

-- A job that was started had all its needs succeed.
abbrev pub IsOrderly : Dict JobConfig → Dict JobEntry → Type 0
IsOrderly config jobs =
    (j : Str) (e : JobEntry)
    → lookup j jobs ≡ some e
    → was_run e.status ≡ true
    → (d : Str) → contains d (job_needs config j) ≡ true
    → has_succeeded (lookup d jobs) ≡ true

matches_run :
    (b : Bool) (s : Status) (o : Option JobStatus)
    → matches b s o ≡ true
    → was_run s ≡ true
    → is_done o ≡ true
matches_run b s o h r = ground (arith, h, r)

matches_success :
    (b : Bool) (e : Option JobEntry) (o : Option JobStatus)
    → agrees b e o ≡ true
    → is_succeeded o ≡ true
    → has_succeeded e ≡ true
matches_success b none o h u = ground (arith, h, u)
matches_success b (some e) o h u = status_case e.status h
  where
    status_case :
        (s : Status)
        → matches b s o ≡ true
        → elim s [ plain status ↦ is_succeeded (some status) | _ ↦ false ] ≡ true
    status_case s m = ground (arith, m, u)

module _ (config : Dict JobConfig) (s : DagScheduler) (ready : IsReady config s) where
  IsProgress-IsOrderly : (p : Progress) → IsProgress s p → IsOrderly config p.jobs
  IsProgress-IsOrderly p inv j e h ran d m =
      let agreed : agrees p.integrity_failed (some e) (lookup j p.scheduler.job_statuses) ≡ true =
        rw h at (inv.recorded j) in
      let done =
        matches_run p.integrity_failed e.status (lookup j p.scheduler.job_statuses) agreed ran in
      let success = inv.sound.executed j done d (rw ready.built.same_needs m) in
      matches_success p.integrity_failed (lookup d p.jobs) (lookup d p.scheduler.job_statuses)
        (inv.recorded d) success

  any-lookup :
      (f : JobEntry → Bool) (jobs : Dict JobEntry) (k : Str) (e : JobEntry)
      → any f (values jobs) ≡ false
      → lookup k jobs ≡ some e
      → f e ≡ false
  any-lookup f [] k e h m = cc
  any-lookup f ((j, x) ∷ jobs) k e h m = elim (Bool-cases (k == j)) [
    | inl q ↦
        let same : x ≡ e = ground (arith, q, m) in
        let here : f x ≡ false = ground (arith, h) in rw same at here
    | inr q ↦ any-lookup f jobs k e (ground (arith, h)) (rw q at m)
  ]

  -- Without a corrupt package and a failed entry, no job has failed.
  none_failed :
      (p : Progress) (f : Str)
      → IsProgress s p
      → p.integrity_failed ≡ false
      → any is_failed_entry (values p.jobs) ≡ false
      → lookup f p.scheduler.job_statuses ≢ some failed
  none_failed p f inv clean fine h = elim (Option-cases (lookup f p.jobs)) [
    | inl e ↦ let a = inv.recorded f in absurd (cc (rw (e, h) at a))
    | inr (entry, e) ↦
        let agreed : matches p.integrity_failed entry.status (some failed) ≡ true =
          rw (e, h) at (inv.recorded f) in
        status_case entry.status (rw clean at agreed)
          (any-lookup is_failed_entry p.jobs f entry fine e)
  ]
    where
      status_case :
          (t : Status)
          → matches false t (some failed) ≡ true
          → elim t [ plain status ↦ is_failed status | _ ↦ false ] ≡ false
          → ⊥
      status_case t m q = ground (arith, m, q)

  -- A run is recorded as succeeded only if every job's entry is.
  pub final_status-succeeded :
      (p : Progress)
      → IsRecorded s p
      → final_status p ≡ plain succeeded
      → (j : Str) → contains j (keys config) ≡ true
      → has_succeeded (lookup j p.jobs) ≡ true
  final_status-succeeded p rec h j m =
      let clean : p.integrity_failed ≡ false = ground (arith, h) in
      let fine : any is_failed_entry (values p.jobs) ≡ false = ground (arith, h) in
      let st = p.scheduler.job_statuses in
      let unfailed : (f : Str) → lookup f st ≢ some failed =
        λ f. none_failed p f rec.progress clean fine in
      elim (Option-cases (lookup j p.jobs)) [
        | inl e ↦
            let entry = rec.entries j (ready.built.same_keys j ∙ m) in absurd (cc (rw e at entry))
        | inr (entry, e) ↦
            let agreed : matches false entry.status (lookup j st) ≡ true =
              rw (e, clean) at (rec.progress.recorded j) in
            rw e (
              status_case entry.status (lookup j st) agreed (unfailed j)
                (λ q. let (f, r) = rec.progress.sound.caused j q in unfailed f r))
      ]
    where
      status_case :
          (t : Status) (o : Option JobStatus)
          → matches false t o ≡ true
          → o ≢ some failed
          → o ≢ some skipped
          → elim t [ plain status ↦ is_succeeded (some status) | _ ↦ false ] ≡ true
      status_case t o agreed unfailed unskipped = ground (arith, agreed, unfailed, unskipped)

-- How a run ends once its packages are resolved: without a scheduler, or after the loop over the
-- levels of one.
abbrev pub RunCases :
    Bool → (Dict JobConfig → Dict (Result JobError JobDone)) → ℕ → RunState → Type 0
RunCases calm as_completed limit run =
    let config = run.pipeline_config.jobs in
    ((e : Scheduler.Error) × (init config limit ≡ err e)
      × (run_jobs as_completed limit run ≡ refuse run cycle_failure (scheduler_error e)))
    ⊎ ((s : DagScheduler) × IsReady config s
        × (init config limit ≡ ok s)
        × ((result : Result Aborted Progress) × (run_jobs as_completed limit run
              ≡ close_run run result)
            × Ends s calm (IsRecorded s) result
            × ((levels : List (List Str)) × (result
                  ≡ run_levels as_completed config levels (start s)))))

module _ (as_completed : Dict JobConfig → Dict (Result JobError JobDone)) (calm : Bool)
    (completes : IsAsCompleted calm as_completed) where
  run_jobs_planned :
      (limit : ℕ) (run : RunState) (s : DagScheduler) (levels : List (List Str))
      → init run.pipeline_config.jobs limit ≡ ok s
      → get_execution_plan s ≡ ok levels
      → run_jobs as_completed limit run
        ≡ close_run run (run_levels as_completed run.pipeline_config.jobs levels (start s))
  unfolding run_jobs
  run_jobs_planned limit run s levels h plan = rw (h, plan, run_jobs) refl

  pub run_jobs_cases :
      (limit : ℕ) (run : RunState)
      → Nodup (keys run.pipeline_config.jobs)
      → RunCases calm as_completed limit run
  unfolding run_jobs
  run_jobs_cases limit run u =
      let config = run.pipeline_config.jobs in
      elim (Result-cases (init config limit)) [
        | inr (e, h) ↦ inl (e, h, rw (h, run_jobs) refl)
        | inl (s, h) ↦
            let ready = init-IsReady config limit s u h in
            let (levels, plan, is_plan) =
              get_execution_plan-IsPlan s ready.built.is_graph.unique ready.sorted in
            inr (
              s,
              ready,
              h,
              (
                run_levels as_completed config levels (start s),
                run_jobs_planned limit run s levels h plan,
                run_levels-IsRecorded s as_completed calm completes ready.built.is_graph
                    ready.sorted config ready.built.same_keys levels is_plan
                    (statuses-Nodup config limit s h) ready.all_queued,
                (levels, refl),
              ),
            )
      ]

  close_run-IsOrderly :
      (config : Dict JobConfig) (s : DagScheduler) (run : RunState)
      (result : Result Aborted Progress)
      → IsReady config s
      → Ends s calm (IsRecorded s) result
      → IsOrderly config (close_run run result).0.jobs
  close_run-IsOrderly config s run (ok p) ready ends =
      IsProgress-IsOrderly config s ready p ends.progress
  close_run-IsOrderly config s run (err a) ready (p, inv, _, same) =
      let jobs : a.jobs ≡ p.jobs = ap (λ (x : Aborted). x.jobs) same in
      rw jobs (IsProgress-IsOrderly config s ready p inv)

  pub run_jobs-IsOrderly :
      (limit : ℕ) (run : RunState)
      → Nodup (keys run.pipeline_config.jobs)
      → run.jobs ≡ []
      → IsOrderly run.pipeline_config.jobs (run_jobs as_completed limit run).0.jobs
  run_jobs-IsOrderly limit run u empty = elim (run_jobs_cases limit run u) [
    | inl (e, _, q) ↦ rw (q, empty) (λ j x h. cc)
    | inr (s, ready, _, (result, q, ends, _)) ↦
        rw q (close_run-IsOrderly run.pipeline_config.jobs s run result ready ends)
  ]
