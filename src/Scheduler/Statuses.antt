-- ===== src/Scheduler/Statuses.antt =====
-- engine/scheduler.py, `job_statuses`: no job has two statuses.
use forge_ci_cd_platform.Base.{
  ◌≡◌, inl, inr, List, [], ◌∷◌, some, arith, Str, Nodup, Bool-cases, Option-cases, ℕ, zero, suc,
  Option, length,
}
use forge_ci_cd_platform.Base.Dict.{Dict, keys, lookup, insert, insert-Nodup}
use forge_ci_cd_platform.Base.Result.{ok, >>=-eq-ok}
use forge_ci_cd_platform.Pipeline.{JobConfig}
use forge_ci_cd_platform.Scheduler.{
  Graph, JobStatus, queued, failed, skipped, is_succeeded, config_needs, check_needs, dependents_of,
  build_graph_from, build_graph, skip_each, skip_dependents, DagScheduler, init, mark_job_failed,
}
use forge_ci_cd_platform.Scheduler.Construct.{init-inversion}

built-Nodup :
    (jobs rest : Dict JobConfig) (g : Graph) (st : Dict JobStatus) {g' : Graph}
    {st' : Dict JobStatus}
    → build_graph_from jobs rest g st ≡ ok (g', st')
    → Nodup (keys st)
    → Nodup (keys st')
unfolding build_graph_from
built-Nodup jobs [] g st h u = ground arith
built-Nodup jobs ((job, config) ∷ rest) g st h u =
    let (_, _, h') = >>=-eq-ok (check_needs jobs job (config_needs config)) _ h in
    built-Nodup jobs rest _ _ h' (insert-Nodup job queued st u)

pub statuses-Nodup :
    (jobs : Dict JobConfig) (limit : ℕ) (s : DagScheduler)
    → init jobs limit ≡ ok s
    → Nodup (keys s.job_statuses)
unfolding build_graph
statuses-Nodup jobs limit s h =
    let (g, st, e, _, _, same) = init-inversion jobs limit h in
    rw same (built-Nodup jobs jobs [] [] e tt)

abbrev Keyed : Option (Dict JobStatus) → Type 0
Keyed r = (st : Dict JobStatus) → r ≡ some st → Nodup (keys st)

skip_each-Keyed :
    (skip : Str → Dict JobStatus → Option (Dict JobStatus)) (ds : List Str) (st : Dict JobStatus)
    → ((d : Str) (st : Dict JobStatus) → Nodup (keys st) → Keyed (skip d st))
    → Nodup (keys st)
    → Keyed (skip_each skip ds st)
unfolding skip_each
skip_each-Keyed skip [] st f u st' h = ground arith
skip_each-Keyed skip (d ∷ ds) st f u st' h = elim (Bool-cases (is_succeeded (lookup d st))) [
  | inl e ↦ skip_each-Keyed skip ds st f u st' (rw e at h)
  | inr e ↦ elim (Option-cases (skip d (insert d skipped st))) [
    | inl p ↦ absurd (cc (rw (e, p) at h))
    | inr (st1, p) ↦
        skip_each-Keyed skip ds st1 f
          (f d (insert d skipped st) (insert-Nodup d skipped st u) st1 p) st' (rw (e, p) at h)
  ]
]

skip_dependents-Keyed :
    (fuel : ℕ) (g : Graph) (job : Str) (st : Dict JobStatus)
    → Nodup (keys st)
    → Keyed (skip_dependents fuel g job st)
unfolding skip_dependents
skip_dependents-Keyed zero g job st u st' h = absurd (cc (h))
skip_dependents-Keyed (suc fuel) g job st u st' h =
    skip_each-Keyed (skip_dependents fuel g) (dependents_of g job) st
      (λ d t. skip_dependents-Keyed fuel g d t) u st' h

pub mark_job_failed-Nodup :
    (job : Str) (s s' : DagScheduler)
    → Nodup (keys s.job_statuses)
    → mark_job_failed job s ≡ some s'
    → Nodup (keys s'.job_statuses)
unfolding mark_job_failed
mark_job_failed-Nodup job s s' u h =
    elim (Option-cases
      (skip_dependents (length s.graph) s.graph job (insert job failed s.job_statuses))) [
        | inl p ↦ absurd (cc (rw (p, mark_job_failed) at h))
        | inr (st, p) ↦
            let same : st ≡ s'.job_statuses = ground (arith, rw (p, mark_job_failed) at h) in
            rw (← same) (
              skip_dependents-Keyed (length s.graph) s.graph job (insert job failed s.job_statuses)
                (insert-Nodup job failed s.job_statuses u) st p)
      ]
