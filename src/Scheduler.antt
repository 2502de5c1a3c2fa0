-- ===== src/Scheduler.antt =====
-- engine/scheduler.py: the graph of jobs, its cycle test, its order, and the jobs' statuses.
-- The proofs stand in the modules below.
pub mod Graph
pub mod Order
pub mod Cycles
pub mod Construct
pub mod Plan
pub mod Failure
pub mod Statuses
mod Tests
use forge_ci_cd_platform.Base.{
  ℕ, zero, suc, ◌-◌, ◌+◌, List, [], ◌∷◌, ◌++◌, Option, none, some, Bool, true, false, not, ◌&&◌,
  Str, ◌==◌, eqb, ltb, if◌then◌else◌, length, all, filter, map, codes, contains, set_add, discard,
}
use forge_ci_cd_platform.Base.Dict.{Dict, keys, lookup, insert}
use forge_ci_cd_platform.Base.Result.{Result, ok, err, ◌>>=◌, ◌>>◌}
use forge_ci_cd_platform.Pipeline.{JobConfig}

pub data JobStatus : Type 0 where
  queued running succeeded failed skipped : JobStatus

pub record JobNode : Type 0 where
  pub name : Str
  pub config : JobConfig
  pub needs : List Str
  pub dependents : List Str
  pub status : JobStatus

abbrev pub Graph : Type 0
Graph = Dict JobNode

-- The exceptions of the constructor and of the plan. `out_of_fuel` is the model's own: no
-- successful or failing run of the program stands behind it.
pub data Error : Type 0 where
  unknown_need : (job dep : Str) → Error
  cycles : List (List Str) → Error
  unsorted : Error
  deadlock : Error
  out_of_fuel : Error

-- `config.get("needs", [])`
abbrev pub config_needs : JobConfig → List Str
config_needs c = elim c.needs [ none ↦ [] | some ns ↦ ns ]

-- `graph[job].needs` and `graph[job].dependents`; a name that is no job has none.
abbrev pub needs_of : Graph → Str → List Str
needs_of g job = elim (lookup job g) [ none ↦ [] | some n ↦ n.needs ]

abbrev pub dependents_of : Graph → Str → List Str
dependents_of g job = elim (lookup job g) [ none ↦ [] | some n ↦ n.dependents ]

pub check_needs : Dict JobConfig → Str → List Str → Result Error (Unit {0})
check_needs jobs job [] = ok tt
check_needs jobs job (dep ∷ deps) =
    if contains dep (keys jobs) then check_needs jobs job deps else err (unknown_need job dep)

abbrev pub new_node : Str → JobConfig → JobNode
new_node job config = record {
  name = job;
  config = config;
  needs = config_needs config;
  dependents = [];
  status = queued;
}

pub build_graph_from :
    Dict JobConfig → Dict JobConfig → Graph → Dict JobStatus → Result Error (Graph × Dict JobStatus)
build_graph_from jobs [] g st = ok (g, st)
build_graph_from jobs ((job, config) ∷ rest) g st =
    check_needs jobs job (config_needs config)
    >> build_graph_from jobs rest (insert job (new_node job config) g) (insert job queued st)

pub build_graph : Dict JobConfig → Result Error (Graph × Dict JobStatus)
unfolding build_graph_from check_needs
build_graph jobs = build_graph_from jobs jobs [] []

-- `self.graph[dep].dependents.append(job)`
pub append_dependent : Str → Str → Graph → Graph
append_dependent dep job g = elim (lookup dep g) [
  | none ↦ g
  | some n ↦ insert dep (record n { dependents = n.dependents ++ job ∷ [] }) g
]

pub link_needs : Str → List Str → Graph → Graph
link_needs job [] g = g
link_needs job (dep ∷ deps) g = link_needs job deps (append_dependent dep job g)

pub link_all : Graph → Graph → Graph
link_all [] g = g
link_all ((job, node) ∷ rest) g = link_all rest (link_needs job node.needs g)

pub compute_dependents : Graph → Graph
unfolding append_dependent link_needs link_all
compute_dependents g = link_all g g

-- The variables of `_detect_cycles` that its inner function shares. A cycle is kept as its names.
pub record Dfs : Type 0 where
  pub visiting : List Str
  pub visited : List Str
  pub path : List Str
  pub cycles_found : List (List Str)

-- `path[path.index(node):]`
abbrev pub from_index : Str → List Str → List Str
from_index x [] = []
from_index x (y ∷ ys) = if x == y then y ∷ ys else from_index x ys

-- `path.pop()`, for its effect on the list.
abbrev pub pop : List Str → List Str
pop [] = []
pop (x ∷ xs) = elim xs [ [] ↦ [] | y ∷ ys ↦ x ∷ pop xs ]

pub enter : Str → Dfs → Dfs
enter node s = record s { visiting = set_add node s.visiting; path = s.path ++ node ∷ [] }

pub leave : Str → Dfs → Dfs
leave node s = record s {
  visiting = discard node s.visiting;
  visited = set_add node s.visited;
  path = pop s.path;
}

pub report : Str → Dfs → Dfs
report node s = record s {
  cycles_found = s.cycles_found ++ (from_index node s.path ++ node ∷ []) ∷ [];
}

-- The loop over the needs of a node, with the recursive call as an argument.
pub each : (Str → Dfs → Option Dfs) → List Str → Dfs → Option Dfs
each visit [] s = some s
each visit (dep ∷ deps) s = elim (visit dep s) [ none ↦ none | some s' ↦ each visit deps s' ]

pub dfs : ℕ → Graph → Str → Dfs → Option Dfs
dfs zero g node s = none
dfs (suc fuel) g node s =
    let inside = each (dfs fuel g) (needs_of g node) (enter node s) in
    if contains node s.visiting
    then some (report node s)
    else if contains node s.visited
    then some s
    else elim inside [ none ↦ none | some s' ↦ some (leave node s') ]

-- The loop over all jobs starts each search with an empty path.
pub dfs_roots : ℕ → Graph → List Str → Dfs → Option Dfs
dfs_roots fuel g [] s = some s
dfs_roots fuel g (job ∷ jobs) s =
    if contains job s.visited
    then dfs_roots fuel g jobs s
    else elim (dfs fuel g job (record s { path = [] })) [
      | none ↦ none
      | some s' ↦ dfs_roots fuel g jobs s'
    ]

abbrev pub no_search : Dfs
no_search = record { visiting = []; visited = []; path = []; cycles_found = [] }

pub detect_cycles : Graph → Result Error (Unit {0})
unfolding enter leave report each dfs dfs_roots
detect_cycles g = elim (dfs_roots (suc (length g)) g (keys g) no_search) [
  | none ↦ err out_of_fuel
  | some s ↦ elim s.cycles_found [ [] ↦ ok tt | c ∷ cs ↦ err (cycles (c ∷ cs)) ]
]

abbrev pub Degrees : Type 0
Degrees = Str → ℕ

abbrev pub decrement : Degrees → Str → Degrees
decrement deg d j = if j == d then deg j - 1 else deg j

-- The loop over the dependents of a sorted job. A counter is 0 after the decrement just if it was 1.
pub release : List Str → Degrees → List Str → Degrees × List Str
release [] deg queue = (deg, queue)
release (d ∷ ds) deg queue =
    release ds (decrement deg d) (if eqb (deg d) 1 then queue ++ d ∷ [] else queue)

pub kahn : ℕ → Graph → Degrees → List Str → List Str → Result Error (List Str)
kahn fuel g deg [] sorted = ok sorted
kahn zero g deg (job ∷ queue) sorted = err out_of_fuel
kahn (suc fuel) g deg (job ∷ queue) sorted =
    let (deg', queue') = release (dependents_of g job) deg queue in
    kahn fuel g deg' queue' (sorted ++ job ∷ [])

abbrev pub in_degree : Graph → Degrees
in_degree g job = length (needs_of g job)

pub topological_sort : Graph → Result Error (List Str)
unfolding release kahn
topological_sort g = do
  sorted ← kahn (length g) g (in_degree g) (filter (λ j. eqb (in_degree g j) 0) (keys g)) []
  if eqb (length sorted) (length g) then ok sorted else err unsorted

pub record DagScheduler : Type 0 where
  pub jobs_config : Dict JobConfig
  pub concurrency_limit : ℕ
  pub graph : Graph
  pub sorted_jobs : List Str
  pub job_statuses : Dict JobStatus

unfoldable pub init : Dict JobConfig → ℕ → Result Error DagScheduler
unfolding build_graph compute_dependents detect_cycles topological_sort
init jobs limit = do
  (g, st) ← build_graph jobs
  let linked = compute_dependents g
  detect_cycles linked
  sorted ← topological_sort linked
  ok (record {
    jobs_config = jobs;
    concurrency_limit = limit;
    graph = linked;
    sorted_jobs = sorted;
    job_statuses = st;
  })

-- One level: the unprocessed jobs, in sorted order, with all their needs processed.
abbrev pub level : Graph → List Str → List Str → List Str
level g sorted processed =
    filter
      (λ job. not (contains job processed) && all (λ dep. contains dep processed) (needs_of g job))
      sorted

-- `processed` is kept as a list without repetition.
pub plan_levels : ℕ → Graph → List Str → List Str → Result Error (List (List Str))
plan_levels zero g sorted processed = err out_of_fuel
plan_levels (suc fuel) g sorted processed =
    let current = level g sorted processed in
    let rest = plan_levels fuel g sorted (processed ++ current) in
    if ltb (length processed) (length g)
    then elim current [ [] ↦ err deadlock | j ∷ js ↦ (do levels ← rest; ok ((j ∷ js) ∷ levels)) ]
    else ok []

unfoldable pub get_execution_plan : DagScheduler → Result Error (List (List Str))
unfolding plan_levels
get_execution_plan s = plan_levels (suc (length s.graph)) s.graph s.sorted_jobs []

-- `self.job_statuses[dependent] != SUCCEEDED`
abbrev pub is_succeeded : Option JobStatus → Bool
is_succeeded (some succeeded) = true
is_succeeded _ = false

pub skip_each :
    (Str → Dict JobStatus → Option (Dict JobStatus))
    → List Str
    → Dict JobStatus
    → Option (Dict JobStatus)
skip_each skip [] st = some st
skip_each skip (d ∷ ds) st =
    if is_succeeded (lookup d st)
    then skip_each skip ds st
    else elim (skip d (insert d skipped st)) [ none ↦ none | some st' ↦ skip_each skip ds st' ]

-- `none` stands for a recursion that the fuel does not end.
pub skip_dependents : ℕ → Graph → Str → Dict JobStatus → Option (Dict JobStatus)
skip_dependents zero g job st = none
skip_dependents (suc fuel) g job st = skip_each (skip_dependents fuel g) (dependents_of g job) st

unfoldable pub mark_job_failed : Str → DagScheduler → Option DagScheduler
unfolding skip_each skip_dependents
mark_job_failed job s =
    elim (skip_dependents (length s.graph) s.graph job (insert job failed s.job_statuses)) [
      | none ↦ none
      | some st ↦ some (record s { job_statuses = st })
    ]

unfoldable pub update_job_status : Str → JobStatus → DagScheduler → DagScheduler
update_job_status job status s = record s { job_statuses = insert job status s.job_statuses }

-- `none` is a KeyError.
unfoldable pub get_job_status : Str → DagScheduler → Option JobStatus
get_job_status job s = lookup job s.job_statuses

-- `status.value`
abbrev pub value : JobStatus → Str
value queued = codes "queued"
value running = codes "running"
value succeeded = codes "succeeded"
value failed = codes "failed"
value skipped = codes "skipped"

unfoldable pub get_all_statuses : DagScheduler → Dict Str
get_all_statuses s = map (λ (job, status). (job, value status)) s.job_statuses
