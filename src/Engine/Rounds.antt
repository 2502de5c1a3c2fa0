-- ===== src/Engine/Rounds.antt =====
-- engine/main.py, `execute_pipeline`: one level of the plan, submitted and completed.
use forge_ci_cd_platform.Base.{
  ◌≡◌, refl, ◌∙◌, ◌⊎◌, inl, inr, List, [], ◌∷◌, some, Bool, true, false, arith, Str, ◌==◌, contains,
  is_some, Nodup, All, Bool-cases,
}
use forge_ci_cd_platform.Base.Dict.{Dict, keys, values, lookup}
use forge_ci_cd_platform.Base.Result.{Result}
use forge_ci_cd_platform.Scheduler.{Graph, JobStatus, skipped, DagScheduler, is_succeeded}
use forge_ci_cd_platform.Scheduler.Graph.{IsGraph}
use forge_ci_cd_platform.Scheduler.Order.{IsSorted}
use forge_ci_cd_platform.Engine.{JobDone, JobError, Progress, complete, complete_all}
use forge_ci_cd_platform.Engine.Failing.{Statuses, is_done, IsPending, IsStep}
use forge_ci_cd_platform.Engine.Completing.{
  IsProgress, IsCompleted, Keeps, Ends, Ends->>=, Ends-imp, IsResult, complete_lem,
}

-- A status stays, or becomes `skipped` for a job that was not run.
abbrev pub Drifts : Statuses → Statuses → Str → Type 0
Drifts st st' k =
    (lookup k st' ≡ lookup k st) ⊎ ((is_done (lookup k st) ≡ false) × (lookup k st' ≡ some skipped))

Drifts-trans :
    (st st1 st' : Statuses) (k : Str) → Drifts st st1 k → Drifts st1 st' k → Drifts st st' k
Drifts-trans st st1 st' k (inl e) (inl e') = inl (e' ∙ e)
Drifts-trans st st1 st' k (inl e) (inr (u, e')) = inr (rw e at u, e')
Drifts-trans st st1 st' k (inr (u, e)) (inl e') = inr (u, e' ∙ e)
Drifts-trans st st1 st' k (inr (u, e)) (inr (_, e')) = inr (u, e')

-- A job that was run stays so.
Drifts-done :
    (st st' : Statuses) (k : Str)
    → Drifts st st' k
    → is_done (lookup k st) ≡ true
    → is_done (lookup k st') ≡ true
Drifts-done st st' k (inl e) h = rw e h
Drifts-done st st' k (inr (u, e)) h = cc

-- A pending job stays pending when another one is completed.
IsPending-step :
    (g : Graph) (st st' : Statuses) (job k : Str) (status : JobStatus)
    → IsStep g job status st st'
    → IsPending g st job
    → IsPending g st k
    → k == job ≡ false
    → IsPending g st' k
IsPending-step g st st' job k status step running pending ne = elim (step.others k ne) [
  | inr (_, _, unmet) ↦ absurd (unmet pending.1)
  | inl same ↦ (same ∙ pending.0, λ d m. still d (pending.1 d m))
]
  where
    still : (d : Str) → is_succeeded (lookup d st) ≡ true → is_succeeded (lookup d st') ≡ true
    still d h = elim (Bool-cases (d == job)) [
      | inl e ↦ let e' : d ≡ job = ground (arith, e) in absurd (cc (rw e' at h, running.0))
      | inr e ↦ elim (step.others d e) [
        | inl same ↦ rw same h
        | inr (undone, _, _) ↦ absurd (ground (arith, undone, h))
      ]
    ]

module _ (s : DagScheduler) where
  -- All jobs of a list were run and have their entries.
  pub record IsAfter (js : List Str) (p p' : Progress) : Type 0 where
    pub progress : IsProgress s p'
    pub ran :
        (j : Str)
        → contains j js ≡ true
        → (is_done (lookup j p'.scheduler.job_statuses) ≡ true)
          × (is_some (lookup j p'.jobs) ≡ true)
    pub others :
        (k : Str)
        → contains k js ≡ false
        → Drifts p.scheduler.job_statuses p'.scheduler.job_statuses k
    pub keeps : Keeps s p p'

  module _ (graph : IsGraph s.graph) (order : IsSorted s.graph s.sorted_jobs) where
    IsAfter-cons :
        (job : Str) (js : List Str) (p p1 p' : Progress)
        → contains job js ≡ false
        → IsCompleted s job p p1
        → IsAfter js p1 p'
        → IsAfter (job ∷ js) p p'
    IsAfter-cons job js p p1 p' fresh first rest =
        let done1 = first.step.self in
        let still = rest.others job fresh in
        record {
          progress = rest.progress;
          ran = λ j m. elim (Bool-cases (j == job)) [
            | inl e ↦
                let e' : j ≡ job = ground (arith, e) in
                (
                  rw e' (
                      Drifts-done p1.scheduler.job_statuses p'.scheduler.job_statuses job still
                        (rw done1 first.ran)),
                  rw e' (rest.keeps job first.entry),
                )
            | inr e ↦ rest.ran j (ground (arith, m, e))
          ];
          others = λ k m.
              Drifts-trans p.scheduler.job_statuses p1.scheduler.job_statuses
                p'.scheduler.job_statuses k
                (elim (first.step.others k (ground (arith, m))) [
                  | inl e ↦ inl e
                  | inr (u, e, _) ↦ inr (u, e)
                ])
                (rest.others k (ground (arith, m)));
          keeps = λ k h. rest.keeps k (first.keeps k h);
        }

    pub complete_all_lem :
        (calm : Bool) (results : Dict (Result JobError JobDone)) (p : Progress)
        → IsProgress s p
        → Nodup (keys results)
        → ((j : Str)
            → contains j (keys results) ≡ true
            → IsPending s.graph p.scheduler.job_statuses j × (contains j (keys s.graph) ≡ true))
        → All (IsResult calm) (values results)
        → Ends s calm (IsAfter (keys results) p) (complete_all results p)
    unfolding complete_all
    complete_all_lem calm [] p inv u pending ran = record {
      progress = inv;
      ran = λ j m. cc;
      others = λ k m. inl refl;
      keeps = λ k h. h;
    }
    complete_all_lem calm ((job, result) ∷ rest) p inv (fresh, u) pending (ran, rans) =
        let (here, known) = pending job (ground arith) in
        Ends->>= s calm (IsCompleted s job p) (IsAfter (job ∷ keys rest) p) (complete job result p)
          (complete_all rest) (complete_lem s calm graph order job result p inv here known ran)
          (λ p1 first.
            Ends-imp s calm (IsAfter (keys rest) p1) (IsAfter (job ∷ keys rest) p)
              (complete_all rest p1)
              (complete_all_lem calm rest p1 first.progress u
                (λ j m.
                  let (there, known') = pending j (ground (arith, m)) in
                  (
                    IsPending-step s.graph p.scheduler.job_statuses p1.scheduler.job_statuses job j
                        first.status first.step here there (ground (arith, m, fresh)),
                    known',
                  ))
                rans)
              (λ p' after. IsAfter-cons job (keys rest) p p1 p' fresh first after))
