-- ===== src/Engine/Refusals.antt =====
-- engine/main.py, `execute_pipeline`: the runs that end before any job is started.
use forge_ci_cd_platform.Base.{ℕ, ◌≡◌, ◌≢◌, refl, ◌↔◌, ◌⊎◌, inl, inr, List, some, false, Str, Nodup}
use forge_ci_cd_platform.Base.Dict.{Dict, keys}
use forge_ci_cd_platform.Base.Result.{Result, ok, err, Result-cases}
use forge_ci_cd_platform.Pipeline.{JobConfig}
use forge_ci_cd_platform.Scheduler.Construct.{init_iff}
use forge_ci_cd_platform.Resolver
use forge_ci_cd_platform.Resolver.{
  LockedPackage, RegistryClient, resolve, cycle, conflict, not_found,
}
use forge_ci_cd_platform.Resolver.Rings.{IsCalm, IsRing}
use forge_ci_cd_platform.Resolver.Rings.Calls.{resolve-IsRing}
use forge_ci_cd_platform.Engine.{
  Status, cycle_failure, conflict_failure, JobDone, JobError, RunState, Progress, Aborted, run_jobs,
  close_run,
}
use forge_ci_cd_platform.Engine.Levels.{IsAsCompleted}
use forge_ci_cd_platform.Engine.Report.{run_jobs_cases}
use forge_ci_cd_platform.Engine.Outcomes.{
  IsAcyclic, IsFinal, unresolved_status, after_run, execute-resolved, execute-unresolved,
  final_status-IsFinal,
}

is_cycle :
    (e : Resolver.Error)
    → unresolved_status e ≡ cycle_failure
    → (path : List Str) × (e ≡ cycle path)
is_cycle (cycle path) h = (path, refl)
is_cycle (conflict name) h = absurd (cc (h))
is_cycle (not_found name) h = absurd (cc (h))
is_cycle Resolver.value_error h = absurd (cc (h))
is_cycle Resolver.out_of_fuel h = absurd (cc (h))

is_conflict :
    (e : Resolver.Error)
    → unresolved_status e ≡ conflict_failure
    → (name : Str) × ((e ≡ conflict name) ⊎ (e ≡ not_found name))
is_conflict (cycle path) h = absurd (cc (h))
is_conflict (conflict name) h = (name, inl refl)
is_conflict (not_found name) h = (name, inr refl)
is_conflict Resolver.value_error h = absurd (cc (h))
is_conflict Resolver.out_of_fuel h = absurd (cc (h))

close_run-IsFinal :
    (run : RunState) (result : Result Aborted Progress) → IsFinal (close_run run result).0.status
close_run-IsFinal run (ok p) = final_status-IsFinal p
close_run-IsFinal run (err a) = inr (inl refl)

IsFinal-cycle : (status : Status) → IsFinal status → status ≢ cycle_failure
IsFinal-cycle status (inl e) h = cc
IsFinal-cycle status (inr (inl e)) h = cc
IsFinal-cycle status (inr (inr e)) h = cc

IsFinal-conflict : (status : Status) → IsFinal status → status ≢ conflict_failure
IsFinal-conflict status (inl e) h = cc
IsFinal-conflict status (inr (inl e)) h = cc
IsFinal-conflict status (inr (inr e)) h = cc

module _ (as_completed : Dict JobConfig → Dict (Result JobError JobDone))
    (completes : IsAsCompleted false as_completed) (client : RegistryClient) (fuel limit : ℕ) where
  -- What a resolved run ends as.
  resolved_cases :
      (run : RunState)
      → Nodup (keys run.pipeline_config.jobs)
      → (((run_jobs as_completed limit run).0.status ≡ cycle_failure)
          × (¬ IsAcyclic run.pipeline_config.jobs))
        ⊎ (IsFinal (run_jobs as_completed limit run).0.status × IsAcyclic run.pipeline_config.jobs)
  resolved_cases run u =
      let config = run.pipeline_config.jobs in
      elim (run_jobs_cases as_completed false completes limit run u) [
        | inl (e, h, q) ↦
            inl (
              rw q refl,
              λ acyclic. let (s, h') = (init_iff config limit u).1 acyclic in cc (h, h'),
            )
        | inr (s, _, h, (result, q, _, _)) ↦
            inr (rw q (close_run-IsFinal run result), (init_iff config limit u).0 (s, h))
      ]

  -- Where the registry client raises no CycleError of its own: a run ends as a cycle failure just if
  -- the resolution stops at packages of which each has a version that depends on the next, and the last
  -- on the first, or if the packages are resolved, and the jobs name a need that is no job or need one
  -- another in a ring.
  pub execute_pipeline-cycle_failure_iff :
      IsCalm client
      → (run : RunState) → Nodup (keys run.pipeline_config.jobs)
      → ((after_run as_completed client fuel limit run).status ≡ cycle_failure) ↔ (
          ((path : List Str) × (resolve client fuel run.pipeline_config ≡ err (cycle path))
            × IsRing client path)
          ⊎ ((lockfile : List LockedPackage) × (resolve client fuel run.pipeline_config
                ≡ ok lockfile)
              × (¬ IsAcyclic run.pipeline_config.jobs)))
  execute_pipeline-cycle_failure_iff calm run u = (
    λ h. elim (Result-cases (resolve client fuel run.pipeline_config)) [
      | inr (e, r) ↦
          let (path, p) =
            is_cycle e (rw (execute-unresolved as_completed client fuel limit run e r) at h) in
          let r' : resolve client fuel run.pipeline_config ≡ err (cycle path) = rw p at r in
          inl (path, r', resolve-IsRing client calm fuel run.pipeline_config path r')
      | inl (lockfile, r) ↦
          let q = execute-resolved as_completed client fuel limit run lockfile r in
          inr (
            lockfile,
            r,
            elim (resolved_cases (record run { lockfile = some lockfile }) u) [
              | inl (_, ring) ↦ ring
              | inr (final, _) ↦ absurd (IsFinal-cycle _ final (rw q at h))
            ],
          )
    ],
    λ h. elim h [
      | inl (path, r, _) ↦
          rw (execute-unresolved as_completed client fuel limit run (cycle path) r) refl
      | inr (lockfile, r, ring) ↦
          rw (execute-resolved as_completed client fuel limit run lockfile r)
            (elim (resolved_cases (record run { lockfile = some lockfile }) u) [
              | inl (status, _) ↦ status
              | inr (_, acyclic) ↦ absurd (ring acyclic)
            ])
    ],
  )

  -- A run ends as a conflict failure just if the resolution of its packages ends with a conflict of
  -- their constraints or with a package that is not found.
  pub execute_pipeline-conflict_failure_iff :
      (run : RunState)
      → Nodup (keys run.pipeline_config.jobs)
      → ((after_run as_completed client fuel limit run).status ≡ conflict_failure) ↔ (
          (name : Str) × ((resolve client fuel run.pipeline_config ≡ err (conflict name))
            ⊎ (resolve client fuel run.pipeline_config ≡ err (not_found name))))
  execute_pipeline-conflict_failure_iff run u = (
    λ h. elim (Result-cases (resolve client fuel run.pipeline_config)) [
      | inr (e, r) ↦
          let (name, p) =
            is_conflict e (rw (execute-unresolved as_completed client fuel limit run e r) at h) in
          (name, elim p [ inl p ↦ inl (rw p at r) | inr p ↦ inr (rw p at r) ])
      | inl (lockfile, r) ↦
          let q = execute-resolved as_completed client fuel limit run lockfile r in
          elim (resolved_cases (record run { lockfile = some lockfile }) u) [
            | inl (status, _) ↦ absurd (cc (rw q at h, status))
            | inr (final, _) ↦ absurd (IsFinal-conflict _ final (rw q at h))
          ]
    ],
    λ (name, h). elim h [
      | inl r ↦ rw (execute-unresolved as_completed client fuel limit run (conflict name) r) refl
      | inr r ↦ rw (execute-unresolved as_completed client fuel limit run (not_found name) r) refl
    ],
  )
