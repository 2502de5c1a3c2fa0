-- ===== src/Engine/Levels.antt =====
-- engine/main.py, `execute_pipeline`: the loop over the levels of the plan.
use forge_ci_cd_platform.Base.{
  if_false, ap, ◌≡◌, refl, ◌∙◌, sym, inl, inr, List, Bool, true, false, not, ◌&&◌, ◌||◌, arith, Str,
  contains, is_some, Nodup, All, Bool-cases,
}
use forge_ci_cd_platform.Base.Dict.{Dict, keys, values, lookup}
use forge_ci_cd_platform.Base.Result.{Result}
use forge_ci_cd_platform.Pipeline.{JobConfig}
use forge_ci_cd_platform.Scheduler.{DagScheduler}
use forge_ci_cd_platform.Scheduler.Graph.{IsGraph}
use forge_ci_cd_platform.Scheduler.Order.{IsSorted}
use forge_ci_cd_platform.Engine.{JobDone, JobError, Progress, complete_all, run_level}
use forge_ci_cd_platform.Engine.Failing.{is_done, IsPending}
use forge_ci_cd_platform.Engine.Entries.{was_skipped}
use forge_ci_cd_platform.Engine.Completing.{IsProgress, Keeps, Ends, Ends-imp, IsResult}
use forge_ci_cd_platform.Engine.Rounds.{Drifts, IsAfter, complete_all_lem}
use forge_ci_cd_platform.Engine.Submitting.{IsSubmitted, IsWaiting, submit_jobs_lem}

-- `concurrent.futures.as_completed`, with the futures' results: each future once, in some order, and
-- what a job returns is that it succeeded or failed. If the run is calm, the only exceptions are
-- those of corrupt packages.
pub record IsAsCompleted (calm : Bool)
    (as_completed : Dict JobConfig → Dict (Result JobError JobDone)) : Type 0 where
  pub same :
      (futures : Dict JobConfig) (k : Str)
      → contains k (keys (as_completed futures)) ≡ contains k (keys futures)
  pub unique :
      (futures : Dict JobConfig) → Nodup (keys futures) → Nodup (keys (as_completed futures))
  pub results : (futures : Dict JobConfig) → All (IsResult calm) (values (as_completed futures))

module _ (s : DagScheduler) where
  -- A level that was gone through.
  pub record IsRound (level : List Str) (p p' : Progress) : Type 0 where
    pub progress : IsProgress s p'
    pub entries : (j : Str) → contains j level ≡ true → is_some (lookup j p'.jobs) ≡ true
    pub settled :
        (j : Str)
        → contains j level ≡ true
        → (is_done (lookup j p'.scheduler.job_statuses)
            || was_skipped (lookup j p'.scheduler.job_statuses))
          ≡ true
    pub others :
        (k : Str)
        → contains k level ≡ false
        → Drifts p.scheduler.job_statuses p'.scheduler.job_statuses k
    pub keeps : Keeps s p p'

  module _ (as_completed : Dict JobConfig → Dict (Result JobError JobDone)) (calm : Bool)
      (completes : IsAsCompleted calm as_completed) (graph : IsGraph s.graph)
      (order : IsSorted s.graph s.sorted_jobs) (jobs_config : Dict JobConfig) where
    -- The level's jobs that are not run are skipped, and stay so.
    IsRound-after :
        (level : List Str) (p p1 p' : Progress) (futures : Dict JobConfig)
        → IsSubmitted s level p futures p1
        → IsAfter s (keys (as_completed futures)) p1 p'
        → IsRound level p p'
    IsRound-after level p p1 p' futures sub after =
        let st_same : p1.scheduler.job_statuses ≡ p.scheduler.job_statuses =
          ap (λ (x : Progress). x.scheduler.job_statuses) sub.same in
        let in_results : (k : Str)
            → contains k (keys (as_completed futures))
              ≡ (contains k level && not (was_skipped (lookup k p.scheduler.job_statuses))) =
          λ k. completes.same futures k ∙ sub.futures_of k in
        let drift : (k : Str)
            → contains k (keys (as_completed futures)) ≡ false
            → Drifts p.scheduler.job_statuses p'.scheduler.job_statuses k =
          λ k m. rw st_same at (after.others k m) in
        record {
          progress = after.progress;
          entries = λ j m. elim (Bool-cases (was_skipped (lookup j p.scheduler.job_statuses))) [
            | inl e ↦ after.keeps j (sub.noted j m e)
            | inr e ↦ (after.ran j (ground (arith, in_results j, m, e))).1
          ];
          settled = λ j m. elim (Bool-cases (was_skipped (lookup j p.scheduler.job_statuses))) [
            | inl e ↦ elim (drift j (ground (arith, in_results j, e))) [
              | inl same ↦ rw same (ground (arith, e))
              | inr (_, now) ↦ rw now refl
            ]
            | inr e ↦
                let done = (after.ran j (ground (arith, in_results j, m, e))).0 in
                ground (arith, done)
          ];
          others = λ k m. drift k (ground (arith, in_results k, m));
          keeps = λ k h. after.keeps k (sub.keeps k h);
        }

    pub run_level_lem :
        (level : List Str) (p : Progress)
        → IsProgress s p
        → p.integrity_failed ≡ false
        → Nodup level
        → ((j : Str) → contains j level ≡ true → contains j (keys s.graph) ≡ true)
        → ((j : Str) → contains j level ≡ true → IsWaiting s jobs_config p.scheduler.job_statuses j)
        → Ends s calm (IsRound level p) (run_level as_completed jobs_config level p)
    unfolding run_level
    run_level_lem level p inv clean u known waits =
        let (futures, p1, q, sub) = submit_jobs_lem s jobs_config level p inv u waits in
        let st_same : p1.scheduler.job_statuses ≡ p.scheduler.job_statuses =
          ap (λ (x : Progress). x.scheduler.job_statuses) sub.same in
        let run =
          complete_all_lem s graph order calm (as_completed futures) p1 sub.progress
            (completes.unique futures sub.unique)
            (λ j m.
              let listed : (contains j level
                    && not (was_skipped (lookup j p.scheduler.job_statuses)))
                  ≡ true =
                sym (sub.futures_of j) ∙ sym (completes.same futures j) ∙ m in
              (
                rw st_same
                    (pending_of j (waits j (ground (arith, listed))) (ground (arith, listed))),
                known j (ground (arith, listed)),
              ))
            (completes.results futures) in
        let opened : run_level as_completed jobs_config level p
            ≡ complete_all (as_completed futures) p1 =
          if_false p.integrity_failed _ _ clean ∙ rw q refl in
        rw opened (
          Ends-imp s calm (IsAfter s (keys (as_completed futures)) p1) (IsRound level p)
            (complete_all (as_completed futures) p1) run
            (λ p' after. IsRound-after level p p1 p' futures sub after))
      where
        pending_of :
            (j : Str)
            → IsWaiting s jobs_config p.scheduler.job_statuses j
            → was_skipped (lookup j p.scheduler.job_statuses) ≡ false
            → IsPending s.graph p.scheduler.job_statuses j
        pending_of j (_, inl pending) e = pending
        pending_of j (_, inr skip) e = absurd (cc (rw skip at e))
