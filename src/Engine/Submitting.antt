-- ===== src/Engine/Submitting.antt =====
-- engine/main.py, `execute_pipeline`: the loop that submits a level's jobs.
use forge_ci_cd_platform.Base.{
  ◌≡◌, refl, ◌⊎◌, inl, inr, List, [], ◌∷◌, some, true, false, not, ◌&&◌, arith, Str, ◌==◌, contains,
  is_some, Nodup, Bool-cases,
}
use forge_ci_cd_platform.Base.Dict.{Dict, keys, lookup, insert, lookup-insert, lookup-ne-none}
use forge_ci_cd_platform.Base.Result.{ok}
use forge_ci_cd_platform.Pipeline.{JobConfig}
use forge_ci_cd_platform.Scheduler.{queued, skipped, DagScheduler, get_job_status}
use forge_ci_cd_platform.Engine.{Progress, skipped_entry, submit_jobs}
use forge_ci_cd_platform.Engine.Failing.{Statuses, IsPending}
use forge_ci_cd_platform.Engine.Entries.{was_skipped}
use forge_ci_cd_platform.Engine.Completing.{IsProgress, Keeps}

module _ (s : DagScheduler) where
  -- The futures of the jobs of a level that are not skipped, and the entries of those that are.
  pub record IsSubmitted (js : List Str) (p : Progress) (futures : Dict JobConfig) (p' : Progress)
      : Type 0 where
    pub same : p' ≡ record p { jobs = p'.jobs }
    pub progress : IsProgress s p'
    pub futures_of :
        (k : Str)
        → contains k (keys futures)
          ≡ (contains k js && not (was_skipped (lookup k p.scheduler.job_statuses)))
    pub unique : Nodup (keys futures)
    pub noted :
        (k : Str)
        → contains k js ≡ true
        → was_skipped (lookup k p.scheduler.job_statuses) ≡ true
        → is_some (lookup k p'.jobs) ≡ true
    pub keeps : Keeps s p p'

  -- What the loop that submits needs of a job: it is known, and queued with its needs met or skipped.
  abbrev pub IsWaiting : Dict JobConfig → Statuses → Str → Type 0
  IsWaiting jobs_config st j =
      (contains j (keys jobs_config) ≡ true)
      × (IsPending s.graph st j ⊎ (lookup j st ≡ some skipped))

  skipped-IsProgress :
      (job : Str) (p : Progress)
      → IsProgress s p
      → lookup job p.scheduler.job_statuses ≡ some skipped
      → IsProgress s (record p { jobs = insert job skipped_entry p.jobs })
  skipped-IsProgress job p inv e = record {
    steady = inv.steady;
    keyed = inv.keyed;
    sound = inv.sound;
    recorded = λ j. elim (Bool-cases (j == job)) [
      | inl same ↦
          let here : lookup j p.scheduler.job_statuses ≡ some skipped = ground (arith, same, e) in
          rw (lookup-insert j job skipped_entry p.jobs, same, here) (ground arith)
      | inr other ↦ rw (lookup-insert j job skipped_entry p.jobs, other) (inv.recorded j)
    ];
  }

  IsSubmitted-skip :
      (job : Str) (js : List Str) (p : Progress) (futures : Dict JobConfig) (p' : Progress)
      → contains job js ≡ false
      → lookup job p.scheduler.job_statuses ≡ some skipped
      → IsSubmitted js (record p { jobs = insert job skipped_entry p.jobs }) futures p'
      → IsSubmitted (job ∷ js) p futures p'
  IsSubmitted-skip job js p futures p' fresh e sub =
      let inserted = λ (k : Str). lookup-insert k job skipped_entry p.jobs in
      record {
        same = sub.same;
        progress = sub.progress;
        futures_of = λ k. elim (Bool-cases (k == job)) [
          | inl q ↦ ground (arith, sub.futures_of k, q, e, fresh)
          | inr q ↦ ground (arith, sub.futures_of k, q)
        ];
        unique = sub.unique;
        noted = λ k m h. elim (Bool-cases (k == job)) [
          | inl q ↦ sub.keeps k (ground (arith, inserted k, q))
          | inr q ↦ sub.noted k (ground (arith, m, q)) h
        ];
        keeps = λ k h. sub.keeps k (ground (arith, inserted k, h));
      }

  IsSubmitted-cons :
      (job : Str) (config : JobConfig) (js : List Str) (p : Progress) (futures : Dict JobConfig)
      (p' : Progress)
      → contains job js ≡ false
      → lookup job p.scheduler.job_statuses ≡ some queued
      → IsSubmitted js p futures p'
      → IsSubmitted (job ∷ js) p ((job, config) ∷ futures) p'
  IsSubmitted-cons job config js p futures p' fresh e sub = record {
    same = sub.same;
    progress = sub.progress;
    futures_of = λ k. elim (Bool-cases (k == job)) [
      | inl q ↦ ground (arith, q, e)
      | inr q ↦ ground (arith, sub.futures_of k, q)
    ];
    unique = (ground (arith, sub.futures_of job, fresh), sub.unique);
    noted = λ k m h. elim (Bool-cases (k == job)) [
      | inl q ↦ absurd (ground (arith, q, e, h))
      | inr q ↦ sub.noted k (ground (arith, m, q)) h
    ];
    keeps = sub.keeps;
  }

  submit_jobs-cons :
      (jobs_config : Dict JobConfig) (job : Str) (js : List Str) (p : Progress) (config : JobConfig)
      (futures : Dict JobConfig) (p' : Progress)
      → lookup job p.scheduler.job_statuses ≡ some queued
      → lookup job jobs_config ≡ some config
      → submit_jobs jobs_config js p ≡ ok (futures, p')
      → submit_jobs jobs_config (job ∷ js) p ≡ ok ((job, config) ∷ futures, p')
  unfolding submit_jobs get_job_status
  submit_jobs-cons jobs_config job js p config futures p' e c q = rw (e, c, q, submit_jobs) refl

  pub submit_jobs_lem :
      (jobs_config : Dict JobConfig) (js : List Str) (p : Progress)
      → IsProgress s p
      → Nodup js
      → ((j : Str) → contains j js ≡ true → IsWaiting jobs_config p.scheduler.job_statuses j)
      → (futures : Dict JobConfig) × (p' : Progress) × (submit_jobs jobs_config js p
          ≡ ok (futures, p'))
        × IsSubmitted js p futures p'
  unfolding submit_jobs get_job_status
  submit_jobs_lem jobs_config [] p inv u waits = (
    [],
    p,
    refl,
    record {
      same = refl;
      progress = inv;
      futures_of = λ k. refl;
      unique = tt;
      noted = λ k m. cc;
      keeps = λ k h. h;
    },
  )
  submit_jobs_lem jobs_config (job ∷ js) p inv (fresh, u) waits =
      let (known, state) = waits job (ground arith) in
      let later = λ (j : Str) (m : contains j js ≡ true). waits j (ground (arith, m)) in
      elim state [
        | inr e ↦
            let (futures, p', q, sub) =
              submit_jobs_lem jobs_config js (record p { jobs = insert job skipped_entry p.jobs })
                (skipped-IsProgress job p inv e) u later in
            (futures, p', rw (e, submit_jobs) q, IsSubmitted-skip job js p futures p' fresh e sub)
        | inl (e, _) ↦
            let (config, c) = lookup-ne-none job jobs_config known in
            let (futures, p', q, sub) = submit_jobs_lem jobs_config js p inv u later in
            (
              (job, config) ∷ futures,
              p',
              submit_jobs-cons jobs_config job js p config futures p' e c q,
              IsSubmitted-cons job config js p futures p' fresh e sub,
            )
      ]
