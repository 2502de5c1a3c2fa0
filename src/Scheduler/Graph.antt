-- ===== src/Scheduler/Graph.antt =====
-- engine/scheduler.py, `_build_graph` and `_compute_dependents`: the graph has the jobs and their
-- needs, and its dependents are the needs read backwards.
mod Build
mod Link
use forge_ci_cd_platform.Base.{
  ◌≡◌, refl, ◌∙◌, [], none, some, arith, Str, if◌then◌else◌, contains, count, Nodup, Subset,
}
use forge_ci_cd_platform.Base.Dict.{Dict, keys, lookup, lookup-none_of_absent}
use forge_ci_cd_platform.Base.Result.{ok, err, >>=-eq-ok}
use forge_ci_cd_platform.Pipeline.{JobConfig}
use forge_ci_cd_platform.Scheduler.{
  JobStatus, queued, Error, Graph, needs_of, dependents_of, build_graph, compute_dependents,
}
use forge_ci_cd_platform.Scheduler.Graph.Build.{
  Unknown, keys-build, keys-build-Nodup, needs-build, statuses-build, no_dependents-build,
  checked-build, build_ok, build-err,
}
pub use forge_ci_cd_platform.Scheduler.Graph.Build.{
  job_needs, IsClosed, IsGraph, count-ne_zero, contains_of_count,
}
use forge_ci_cd_platform.Scheduler.Graph.Link.{keys-link_all, needs-link_all, count-link_all}

-- What the constructor's first two steps give.
pub record Built (jobs : Dict JobConfig) (g : Graph) : Type 0 where
  pub is_graph : IsGraph g
  pub same_keys : (j : Str) → contains j (keys g) ≡ contains j (keys jobs)
  pub same_needs : (j : Str) → needs_of g j ≡ job_needs jobs j
  pub jobs_closed : IsClosed jobs

module _ (jobs : Dict JobConfig) {g : Graph} {st : Dict JobStatus} (u : Nodup (keys jobs))
    (h : build_graph jobs ≡ ok (g, st)) where
  same_keys-build : (j : Str) → contains j (keys g) ≡ contains j (keys jobs)
  unfolding build_graph
  same_keys-build j = ground (arith, keys-build jobs jobs [] [] j h)

  same_needs-build : (j : Str) → needs_of g j ≡ job_needs jobs j
  unfolding build_graph
  same_needs-build j =
      ground (arith, needs-build jobs jobs [] [] j h u, lookup-none_of_absent j jobs)

  IsClosed-build : IsClosed jobs
  unfolding build_graph
  IsClosed-build j x m = checked-build jobs jobs [] [] j x h m

  closed_graph-build : (j : Str) → Subset (needs_of g j) (keys g)
  closed_graph-build j x m = same_keys-build x ∙ IsClosed-build j x (rw (← same_needs-build j) m)

  unique-build : Nodup (keys g)
  unfolding build_graph
  unique-build = keys-build-Nodup jobs jobs [] [] h tt

  linked-build :
      (j d : Str) → count j (dependents_of (compute_dependents g) d) ≡ count d (needs_of g j)
  unfolding build_graph compute_dependents
  linked-build j d =
      let none_yet = no_dependents-build jobs jobs [] [] d h refl in
      ground (arith, count-link_all g g j d unique-build closed_graph-build, none_yet)

  pub queued-build :
      (j : Str) → lookup j st ≡ (if contains j (keys jobs) then some queued else none)
  unfolding build_graph
  queued-build j = statuses-build jobs jobs [] [] j h

  pub build-Built : Built jobs (compute_dependents g)
  unfolding compute_dependents
  build-Built = record {
    is_graph = record {
      unique = rw keys-link_all unique-build;
      closed = λ j. rw (needs-link_all, keys-link_all) (closed_graph-build j);
      linked = λ j d. rw needs-link_all (linked-build j d);
    };
    same_keys = λ j. rw keys-link_all (same_keys-build j);
    same_needs = λ j. needs-link_all g g j ∙ same_needs-build j;
    jobs_closed = IsClosed-build;
  }

pub build_graph-err :
    (jobs : Dict JobConfig) (e : Error)
    → Nodup (keys jobs)
    → build_graph jobs ≡ err e
    → Unknown jobs jobs e
unfolding build_graph
build_graph-err jobs e u h = build-err jobs jobs [] [] h u

-- The constructor's first step succeeds on a closed pipeline.
pub build_graph_ok :
    (jobs : Dict JobConfig)
    → Nodup (keys jobs)
    → IsClosed jobs
    → (built : Graph × Dict JobStatus) × (build_graph jobs ≡ ok built)
unfolding build_graph
build_graph_ok jobs u h = build_ok jobs jobs [] [] u (λ j x m. h j x m)
