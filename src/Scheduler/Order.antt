-- ===== src/Scheduler/Order.antt =====
-- engine/scheduler.py, `_topological_sort`: the invariant of Kahn's algorithm, and what it gives.
mod Kahn
use forge_ci_cd_platform.Base.{
  ℕ, zero, suc, ◌-◌, ◌<◌, ◌≡◌, ◌⊎◌, inl, inr, List, [], true, arith, Str, eqb, length, contains,
  Nodup, Subset, Bool-cases, length-le_of_Subset, Subset_of_length,
}
use forge_ci_cd_platform.Base.Dict.{keys}
use forge_ci_cd_platform.Base.Result.{ok, err}
use forge_ci_cd_platform.Scheduler.{Graph, needs_of, topological_sort, unsorted}
use forge_ci_cd_platform.Scheduler.Graph.{IsGraph}
use forge_ci_cd_platform.Scheduler.Order.Kahn.{waiting, missing_of_waiting, IsFinal, kahn-start}
pub use forge_ci_cd_platform.Scheduler.Order.Kahn.{IsOrdered, length-keys}

-- An order of execution: every job once, behind its needs.
pub record IsSorted (g : Graph) (sorted : List Str) : Type 0 where
  pub nodup : Nodup sorted
  pub same : (j : Str) → contains j sorted ≡ contains j (keys g)
  pub ordered : IsOrdered g [] sorted

-- Each need of a job ranks below the job, so that there is no cycle of needs.
abbrev pub IsRanked : (Str → ℕ) → (Str → List Str) → Type 0
IsRanked rank needs = (j d : Str) → contains d (needs j) ≡ true → rank d < rank j

IsSorted-of_length :
    (g : Graph) (sorted : List Str)
    → IsGraph g
    → IsFinal g sorted
    → length sorted ≡ length g
    → IsSorted g sorted
IsSorted-of_length g sorted graph fin e =
    let within : Subset sorted (keys g) = λ x m. ground (arith, fin.final x) in
    let all_in = Subset_of_length sorted (keys g) fin.nodup within (omega (arith, length-keys g)) in
    record {
      nodup = fin.nodup;
      same = λ j. ground (arith, within j, all_in j);
      ordered = fin.ordered;
    }

-- A result of the sort is an order of execution.
pub topological_sort-IsSorted :
    (g : Graph) (sorted : List Str) → IsGraph g → topological_sort g ≡ ok sorted → IsSorted g sorted
unfolding topological_sort
topological_sort-IsSorted g sorted graph h =
    let (done, e, fin) = kahn-start g graph in
    let (same, full) : (done ≡ sorted) × (length done ≡ length g) = ground (arith, e) in
    IsSorted-of_length g sorted graph (rw same at fin) (rw same at full)

-- A job is sorted once all that rank below it are.
ranked_sorted :
    (g : Graph) (sorted : List Str) (rank : Str → ℕ)
    → IsGraph g
    → IsFinal g sorted
    → IsRanked rank (needs_of g)
    → (n : ℕ) (j : Str) → rank j < n
    → contains j (keys g) ≡ true
    → contains j sorted ≡ true
ranked_sorted g sorted rank graph fin ranked zero j h m = absurd (omega arith)
ranked_sorted g sorted rank graph fin ranked (suc n) j h m =
    elim (Bool-cases (eqb (waiting sorted (needs_of g j)) 0)) [
      | inl e ↦ ground (arith, fin.final j)
      | inr e ↦
          let (x, need, missing) =
            missing_of_waiting sorted (needs_of g j) (λ z. ground (arith, z, e)) in
          let below = ranked j x need in
          let there =
            ranked_sorted g sorted rank graph fin ranked n x (omega arith)
              (graph.closed j x need) in
          cc
    ]

-- Without a cycle of needs the sort succeeds.
pub topological_sort_total :
    (g : Graph) (rank : Str → ℕ)
    → IsGraph g
    → IsRanked rank (needs_of g)
    → (sorted : List Str) × (topological_sort g ≡ ok sorted)
unfolding topological_sort
topological_sort_total g rank graph ranked =
    let (done, e, fin) = kahn-start g graph in
    let all_in : Subset (keys g) done =
      λ j m. ranked_sorted g done rank graph fin ranked (suc (rank j)) j (omega arith) m in
    let low = length-le_of_Subset (keys g) done graph.unique all_in in
    let high = length-le_of_Subset done (keys g) fin.nodup (λ x m. ground (arith, fin.final x)) in
    (done, ground (arith, e, low, high, length-keys g))

-- The sort succeeds, or raises its one exception, and then the needs cannot be ranked.
pub topological_sort_cases :
    (g : Graph)
    → IsGraph g
    → ((sorted : List Str) × (topological_sort g ≡ ok sorted))
      ⊎ ((topological_sort g ≡ err unsorted) × ((rank : Str → ℕ) → ¬ IsRanked rank (needs_of g)))
unfolding topological_sort
topological_sort_cases g graph =
    let (done, e, fin) = kahn-start g graph in
    elim (Bool-cases (eqb (length done) (length g))) [
      | inl full ↦ inl (done, ground (arith, e, full))
      | inr short ↦
          let raised : topological_sort g ≡ err unsorted = ground (arith, e, short) in
          inr (raised, λ rank ranked. let (s, q) = topological_sort_total g rank graph ranked in cc)
    ]
