-- ===== src/Scheduler/Construct.antt =====
-- engine/scheduler.py, the constructor of `DAGScheduler`: when it succeeds, what it gives, and what
-- its exceptions mean.
use mathlib.Core.Path.{fun_ext, subst}
use forge_ci_cd_platform.Base.{
  ℕ, suc, ◌<◌, ◌≡◌, ◌≢◌, refl, ◌↔◌, ◌∙◌, sym, inl, inr, List, [], ◌∷◌, ◌++◌, some, none, true,
  false, arith, Str, ◌==◌, if◌then◌else◌, contains, Nodup, Bool-cases, All, contains-append,
}
use forge_ci_cd_platform.Base.Dict.{Dict, keys, lookup, lookup-none_of_absent}
use forge_ci_cd_platform.Base.Result.{Result, ok, err, ◌>>=◌, ◌>>◌, >>=-eq-ok, Result-cases}
use forge_ci_cd_platform.Pipeline.{JobConfig}
use forge_ci_cd_platform.Scheduler.{
  Graph, JobStatus, queued, Error, cycles, unknown_need, unsorted, deadlock, out_of_fuel, needs_of,
  build_graph, compute_dependents, detect_cycles, topological_sort, DagScheduler, init,
}
use forge_ci_cd_platform.Scheduler.Graph.{
  Built, job_needs, IsClosed, build-Built, queued-build, build_graph_ok, build_graph-err,
}
use forge_ci_cd_platform.Scheduler.Order.{
  IsOrdered, IsSorted, IsRanked, topological_sort-IsSorted, topological_sort_total,
  topological_sort_cases,
}
use forge_ci_cd_platform.Scheduler.Cycles.{IsCycle, detect_cycles_cases, no_IsCycle-of_rank}

-- A constructed scheduler: its graph is the pipeline's, its order is sound, and all jobs are queued.
pub record IsReady (jobs : Dict JobConfig) (s : DagScheduler) : Type 0 where
  pub built : Built jobs s.graph
  pub sorted : IsSorted s.graph s.sorted_jobs
  pub all_queued :
      (j : Str) → lookup j s.job_statuses ≡ (if contains j (keys jobs) then some queued else none)

-- `sorted.index(x)`, and the length if it is not there
abbrev pub index : Str → List Str → ℕ
index x [] = 0
index x (y ∷ ys) = if x == y then 0 else suc (index x ys)

pub index-need :
    (g : Graph) (seen xs : List Str) (x n : Str)
    → IsOrdered g seen xs
    → contains x xs ≡ true
    → contains n (needs_of g x) ≡ true
    → contains n seen ≡ false
    → index n xs < index x xs
index-need g seen [] x n o m need new = cc
index-need g seen (y ∷ ys) x n o m need new = elim (Bool-cases (x == y)) [
  | inl e ↦ let e' : x ≡ y = ground (arith, e) in cc (o.0 n (rw e' at need))
  | inr e ↦
      ground (arith, e, index-need g (seen ++ y ∷ []) ys x n o.1, contains-append n seen (y ∷ []))
]

-- The constructor after its first step.
init_from : Dict JobConfig → ℕ → Graph → Dict JobStatus → Result Error DagScheduler
init_from jobs limit linked st = do
  detect_cycles linked
  sorted ← topological_sort linked
  ok (record {
    jobs_config = jobs;
    concurrency_limit = limit;
    graph = linked;
    sorted_jobs = sorted;
    job_statuses = st;
  })

init-init_from :
    (jobs : Dict JobConfig) (limit : ℕ)
    → init jobs limit
      ≡ (build_graph jobs >>= λ (g, st). init_from jobs limit (compute_dependents g) st)
unfolding init init_from
init-init_from jobs limit = refl

pub init-inversion :
    (jobs : Dict JobConfig) (limit : ℕ) {s : DagScheduler}
    → init jobs limit ≡ ok s
    → (g : Graph) × (st : Dict JobStatus) × (build_graph jobs ≡ ok (g, st))
      × (topological_sort (compute_dependents g) ≡ ok s.sorted_jobs)
      × (s.graph ≡ compute_dependents g)
      × (s.job_statuses ≡ st)
unfolding init_from
init-inversion jobs limit h =
    let ((g, st), e, h1) = >>=-eq-ok (build_graph jobs) _ (sym (init-init_from jobs limit) ∙ h) in
    let (_, _, h2) = >>=-eq-ok (detect_cycles (compute_dependents g)) _ h1 in
    let (sorted, e3, h3) = >>=-eq-ok (topological_sort (compute_dependents g)) _ h2 in
    (g, st, e, ground (arith, e3, h3), ground (arith, h3), ground (arith, h3))

-- A constructed scheduler has the jobs and needs of the pipeline as its graph, with the dependents the
-- needs read backwards; an order with every job once, behind all that it needs; and just the jobs of
-- the pipeline in its statuses, all queued.
pub init-IsReady :
    (jobs : Dict JobConfig) (limit : ℕ) (s : DagScheduler)
    → Nodup (keys jobs)
    → init jobs limit ≡ ok s
    → IsReady jobs s
init-IsReady jobs limit s u h =
    let (g, st, e, sorts, same, status) = init-inversion jobs limit h in
    let built = build-Built jobs u e in
    record {
      built = rw same built;
      sorted =
          rw same
            (topological_sort-IsSorted (compute_dependents g) s.sorted_jobs built.is_graph sorts);
      all_queued = λ j. rw status (queued-build jobs u e j);
    }

IsRanked-graph :
    (jobs : Dict JobConfig) (g : Graph) (rank : Str → ℕ)
    → Built jobs g
    → IsRanked rank (job_needs jobs)
    → IsRanked rank (needs_of g)
IsRanked-graph jobs g rank built ranked j d m = ranked j d (rw built.same_needs at m)

pub init_total :
    (jobs : Dict JobConfig) (limit : ℕ) (rank : Str → ℕ)
    → Nodup (keys jobs)
    → IsClosed jobs
    → IsRanked rank (job_needs jobs)
    → (s : DagScheduler) × (init jobs limit ≡ ok s)
unfolding init_from
init_total jobs limit rank u closed ranked =
    let ((g, st), e) = build_graph_ok jobs u closed in
    let linked = compute_dependents g in
    let built = build-Built jobs u e in
    let ranked' = IsRanked-graph jobs linked rank built ranked in
    let (sorted, sorts) = topological_sort_total linked rank built.is_graph ranked' in
    let clean : detect_cycles linked ≡ ok tt =
      elim (detect_cycles_cases linked built.is_graph.closed) [
        | inl p ↦ p
        | inr (c, cs, _, found) ↦
            absurd (no_IsCycle-of_rank rank (needs_of linked) ranked' c found.0)
      ] in
    (
      record {
        jobs_config = jobs;
        concurrency_limit = limit;
        graph = linked;
        sorted_jobs = sorted;
        job_statuses = st;
      },
      rw (init-init_from, e) (rw (init_from, clean, sorts) refl),
    )

-- The scheduler is constructed just if every need is a job and the needs can be ranked, that is,
-- if no job needs itself through others.
pub init_iff :
    (jobs : Dict JobConfig) (limit : ℕ)
    → Nodup (keys jobs)
    → ((s : DagScheduler) × (init jobs limit ≡ ok s))
      ↔ (IsClosed jobs × ((rank : Str → ℕ) × IsRanked rank (job_needs jobs)))
init_iff jobs limit u = (
  λ (s, h).
      let ready = init-IsReady jobs limit s u h in
      (
        ready.built.jobs_closed,
        (
          λ j. index j s.sorted_jobs,
          λ j d need.
              let need' : contains d (needs_of s.graph j) ≡ true = rw ready.built.same_needs need in
              let known : contains j s.sorted_jobs ≡ true =
                ready.sorted.same j ∙ ready.built.same_keys j ∙ known_of_need jobs j d need in
              index-need s.graph [] s.sorted_jobs j d ready.sorted.ordered known need' refl,
        ),
      ),
  λ (closed, (rank, ranked)). init_total jobs limit rank u closed ranked,
)
  where
    known_of_need :
        (jobs : Dict JobConfig) (j d : Str)
        → contains d (job_needs jobs j) ≡ true
        → contains j (keys jobs) ≡ true
    known_of_need jobs j d need = elim (Bool-cases (contains j (keys jobs))) [
      | inl e ↦ e
      | inr e ↦ ground (arith, lookup-none_of_absent j jobs e)
    ]

-- What an exception of the constructor says of the pipeline.
abbrev pub Means : Dict JobConfig → Error → Type 0
Means jobs (unknown_need j d) =
    (contains d (job_needs jobs j) ≡ true) × (contains d (keys jobs) ≡ false)
Means jobs (cycles found) = (found ≢ []) × All (IsCycle (job_needs jobs)) found
Means jobs unsorted = (rank : Str → ℕ) → ¬ IsRanked rank (job_needs jobs)
Means jobs deadlock = ⊥
Means jobs out_of_fuel = ⊥

init_from-err :
    (jobs : Dict JobConfig) (limit : ℕ) (g : Graph) (st : Dict JobStatus) (e : Error)
    → Built jobs g
    → init_from jobs limit g st ≡ err e
    → Means jobs e
unfolding init_from
init_from-err jobs limit g st e built h = elim (detect_cycles_cases g built.is_graph.closed) [
  | inl p ↦ elim (topological_sort_cases g built.is_graph) [
    | inl (sorted, q) ↦ cc
    | inr (q, unranked) ↦
        let same : unsorted ≡ e = ground (arith, p, q) in
        subst (Means jobs) same
          (λ rank ranked. unranked rank (IsRanked-graph jobs g rank built ranked))
  ]
  | inr (c, cs, p, found) ↦
      let same : cycles (c ∷ cs) ≡ e = ground (arith, p) in
      subst (Means jobs) same
        ((λ z. cc), subst (λ needs. All (IsCycle needs) (c ∷ cs)) (fun_ext built.same_needs) found)
]

-- An exception of the constructor says what is wrong: a named need is no job of the pipeline; or
-- the reported names are jobs that need one another in a ring, and at least one such ring is
-- reported; or the needs have a cycle that only the sort met. There is no other exception.
pub init-err :
    (jobs : Dict JobConfig) (limit : ℕ) (e : Error)
    → Nodup (keys jobs)
    → init jobs limit ≡ err e
    → Means jobs e
init-err jobs limit e u h = elim (Result-cases (build_graph jobs)) [
  | inl ((g, st), p) ↦
      init_from-err jobs limit (compute_dependents g) st e (build-Built jobs u p)
        (ground (arith, init-init_from jobs limit, p))
  | inr (e', p) ↦
      let (j, d, q, need, absent) = build_graph-err jobs e' u p in
      let same : unknown_need j d ≡ e = ground (arith, init-init_from jobs limit, p, q) in
      subst (Means jobs) same (need, absent)
]
