-- ===== src/Scheduler/Failure.antt =====
-- engine/scheduler.py, `mark_job_failed`: exactly the dependents that a failure reaches are skipped.
mod Reach
use forge_ci_cd_platform.Base.{
  ℕ, zero, suc, ◌+◌, ◌<◌, ◌≤◌, ◌≡◌, refl, ◌∙◌, sym, inl, inr, List, [], ◌∷◌, some, Bool, true,
  arith, Str, length, contains, Bool-cases, length-le_of_Subset,
}
use forge_ci_cd_platform.Base.Dict.{
  Dict, keys, lookup, insert, lookup-insert, lookup-none_of_absent,
}
use forge_ci_cd_platform.Scheduler.{
  Graph, JobStatus, failed, needs_of, dependents_of, skip_dependents, DagScheduler, mark_job_failed,
}
use forge_ci_cd_platform.Scheduler.Graph.{IsGraph, count-ne_zero, contains_of_count}
use forge_ci_cd_platform.Scheduler.Order.{IsSorted, length-keys}
use forge_ci_cd_platform.Scheduler.Construct.{index, index-need}
use forge_ci_cd_platform.Scheduler.Failure.Reach.{Skips-Reached, Skipping, skip_each_lem}
pub use forge_ci_cd_platform.Scheduler.Failure.Reach.{
  Reached, direct, through, is_live, Skips, Reached-live,
}

index-lt : (x : Str) (xs : List Str) → contains x xs ≡ true → index x xs < length xs
index-lt x [] m = cc
index-lt x (y ∷ ys) m = ground (arith, index-lt x ys)

module _ (g : Graph) (sorted : List Str) (graph : IsGraph g) (order : IsSorted g sorted)
    (live : Str → Bool) where
  -- A dependent comes later in the order.
  index-dependent :
      (job d : Str)
      → contains d (dependents_of g job) ≡ true
      → (contains d sorted ≡ true) × (index job sorted < index d sorted)
  index-dependent job d m =
      let need =
        contains_of_count job (needs_of g d)
          (λ z. count-ne_zero d (dependents_of g job) m (graph.linked d job ∙ z)) in
      let known : contains d sorted ≡ true = elim (Bool-cases (contains d (keys g))) [
        | inl e ↦ order.same d ∙ e
        | inr e ↦ ground (arith, lookup-none_of_absent d g e, need)
      ] in
      (known, index-need g [] sorted d job order.ordered known need refl)

  Reached-index : (job k : Str) → Reached g live job k → index job sorted < index k sorted
  Reached-index job k (direct m l) = (index-dependent job k m).1
  Reached-index job k (through {d = d} m l r) =
      omega (arith, (index-dependent job d m).1, Reached-index d k r)

  skip_dependents_lem :
      (fuel : ℕ) (job : Str) (st : Dict JobStatus)
      → length sorted ≤ fuel + index job sorted
      → index job sorted < length sorted
      → ((k : Str) → is_live st k ≡ live k)
      → Skipping g live job st (skip_dependents fuel g job st)
  unfolding skip_dependents
  skip_dependents_lem zero job st room known agree = absurd (omega (arith, room, known))
  skip_dependents_lem (suc fuel) job st room known agree =
      let (st', p, s) =
        skip_each_lem g live (skip_dependents fuel g) (dependents_of g job) st
          (λ d t m agree'.
            let (there, later) = index-dependent job d m in
            skip_dependents_lem fuel d t (omega (arith, room, later)) (index-lt d sorted there)
              agree')
          agree in
      (st', p, Skips-Reached job s)

-- Marking a job of a constructed scheduler as failed ends, and leaves the job itself failed, just
-- the dependents that the failure reaches skipped, and every other job as it was. What the failure
-- reaches are dependents, through dependents, all of which have not succeeded.
pub mark_job_failed_lem :
    (job : Str) (s : DagScheduler)
    → IsGraph s.graph
    → IsSorted s.graph s.sorted_jobs
    → contains job (keys s.graph) ≡ true
    → let st0 = insert job failed s.job_statuses in
      (s' : DagScheduler) × (mark_job_failed job s ≡ some s')
      × (lookup job s'.job_statuses ≡ some failed)
      × Skips (Reached s.graph (is_live st0) job) st0 s'.job_statuses
      × (s' ≡ record s { job_statuses = s'.job_statuses })
unfolding mark_job_failed
mark_job_failed_lem job s graph order known =
    let st0 = insert job failed s.job_statuses in
    let live = is_live st0 in
    let there : contains job s.sorted_jobs ≡ true = order.same job ∙ known in
    let room =
      length-le_of_Subset s.sorted_jobs (keys s.graph) order.nodup
        (λ x m. sym (order.same x) ∙ m) in
    let (st', p, skips) =
      skip_dependents_lem s.graph s.sorted_jobs graph order live (length s.graph) job st0
        (omega (arith, room, length-keys s.graph)) (index-lt job s.sorted_jobs there) (λ k. refl) in
    let self : lookup job st' ≡ some failed = elim (skips.only job) [
      | inl e ↦ ground (arith, e, lookup-insert job job failed s.job_statuses)
      | inr (_, r) ↦
          absurd (omega (arith, Reached-index s.graph s.sorted_jobs graph order live job job r))
    ] in
    (record s { job_statuses = st' }, rw (p, mark_job_failed), self, skips, refl)
