-- ===== src/Scheduler/Tests.antt =====
-- engine/scheduler.py on small pipelines, and the theorems at concrete inputs.
use forge_ci_cd_platform.Base.{
  ℕ, ◌≡◌, refl, List, [], ◌∷◌, some, true, Str, str_dec, codes, contains, Nodup, ◌↔◌,
}
use forge_ci_cd_platform.Base.Dict.{Dict, keys, lookup, insert}
use forge_ci_cd_platform.Base.Result.{ok, err}
use forge_ci_cd_platform.Pipeline.{JobConfig}
use forge_ci_cd_platform.Scheduler.{
  DagScheduler, failed, init, get_execution_plan, mark_job_failed, cycles,
}
use forge_ci_cd_platform.Scheduler.Graph.{IsClosed, job_needs}
use forge_ci_cd_platform.Scheduler.Order.{IsRanked}
use forge_ci_cd_platform.Scheduler.Construct.{IsReady, Means, init-IsReady, init_iff, init-err}
use forge_ci_cd_platform.Scheduler.Plan.{IsPlan, get_execution_plan-IsPlan}
use forge_ci_cd_platform.Scheduler.Failure.{Skips, Reached, is_live, mark_job_failed_lem}

abbrev job : List Str → JobConfig
job needs = record {
  runtime = codes "alpine:3.18";
  resources = record { cpu = 100000; memory = codes "512Mi" };
  steps = [];
  needs = some needs;
}

abbrev build : Str
build = codes "build"

abbrev lint : Str
lint = codes "lint"

abbrev test : Str
test = codes "test"

abbrev deploy : Str
deploy = codes "deploy"

abbrev diamond : Dict JobConfig
diamond =
    (deploy, job (lint ∷ test ∷ []))
    ∷ (lint, job (build ∷ []))
    ∷ (test, job (build ∷ []))
    ∷ (build, job [])
    ∷ []

abbrev ring : Dict JobConfig
ring = (lint, job (test ∷ [])) ∷ (test, job (lint ∷ [])) ∷ []

program : Unit {0}
unfolding init get_execution_plan mark_job_failed str_dec
program = tt

diamond_plan : DagScheduler → List (List Str)
unfolding program
diamond_plan s = elim (get_execution_plan s) [ ok ls ↦ ls | err e ↦ [] ]

scheduled : DagScheduler
unfolding program
scheduled = elim (init diamond 4) [
  | ok s ↦ s
  | err e ↦ record {
    jobs_config = [];
    concurrency_limit = 0;
    graph = [];
    sorted_jobs = [];
    job_statuses = [];
  }
]

init-diamond : init diamond 4 ≡ ok scheduled
unfolding program scheduled
init-diamond = refl

plan_of_diamond : diamond_plan scheduled ≡ (build ∷ []) ∷ (lint ∷ test ∷ []) ∷ (deploy ∷ []) ∷ []
unfolding program scheduled diamond_plan
plan_of_diamond = refl

init-ring : init ring 4 ≡ err (cycles ((lint ∷ test ∷ lint ∷ []) ∷ []))
unfolding program
init-ring = refl

unique_diamond : Nodup (keys diamond)
unfolding str_dec
unique_diamond = (refl, (refl, (refl, (refl, tt))))

unique_ring : Nodup (keys ring)
unfolding str_dec
unique_ring = (refl, (refl, tt))

ready : IsReady diamond scheduled
ready = init-IsReady diamond 4 scheduled unique_diamond init-diamond

init-IsReady_example : IsReady diamond scheduled
init-IsReady_example = init-IsReady diamond 4 scheduled unique_diamond init-diamond

init_iff_example :
    ((s : DagScheduler) × (init diamond 4 ≡ ok s))
    ↔ (IsClosed diamond × ((rank : Str → ℕ) × IsRanked rank (job_needs diamond)))
init_iff_example = init_iff diamond 4 unique_diamond

init-err_example : Means ring (cycles ((lint ∷ test ∷ lint ∷ []) ∷ []))
init-err_example = init-err ring 4 (cycles ((lint ∷ test ∷ lint ∷ []) ∷ [])) unique_ring init-ring

get_execution_plan-IsPlan_example :
    (levels : List (List Str)) × (get_execution_plan scheduled ≡ ok levels)
    × IsPlan scheduled.graph [] levels
get_execution_plan-IsPlan_example =
    get_execution_plan-IsPlan scheduled ready.built.is_graph.unique ready.sorted

known_lint : contains lint (keys scheduled.graph) ≡ true
unfolding scheduled program
known_lint = refl

mark_job_failed_lem_example :
    let st0 = insert lint failed scheduled.job_statuses in
    (s' : DagScheduler) × (mark_job_failed lint scheduled ≡ some s')
    × (lookup lint s'.job_statuses ≡ some failed)
    × Skips (Reached scheduled.graph (is_live st0) lint) st0 s'.job_statuses
    × (s' ≡ record scheduled { job_statuses = s'.job_statuses })
mark_job_failed_lem_example =
    mark_job_failed_lem lint scheduled ready.built.is_graph ready.sorted known_lint
