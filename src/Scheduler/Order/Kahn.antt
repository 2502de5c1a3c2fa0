-- ===== src/Scheduler/Order/Kahn.antt =====
-- engine/scheduler.py, `_topological_sort`: the invariant of its loop.
use mathlib.Core.List.{append_assoc, append-nil}
use forge_ci_cd_platform.Base.{
  ℕ, zero, suc, ◌+◌, ◌≤◌, ◌≡◌, refl, ◌≢◌, ◌∙◌, ap, inl, inr, List, [], ◌∷◌, ◌++◌, true, false, ◌&&◌,
  arith, Str, eqb, if◌then◌else◌, length, filter, contains, count, Nodup, Subset, Bool-cases,
  length-append, contains-append, contains-filter, filter-Nodup, Nodup-snoc, length-le_of_Subset,
}
use forge_ci_cd_platform.Base.Dict.{keys, lookup-none_of_absent}
use forge_ci_cd_platform.Base.Result.{ok}
use forge_ci_cd_platform.Scheduler.{
  Graph, needs_of, dependents_of, Degrees, decrement, release, kahn, in_degree,
}
use forge_ci_cd_platform.Scheduler.Graph.{IsGraph, count-ne_zero}

-- How many entries of a list of needs are not yet done.
abbrev pub waiting : List Str → List Str → ℕ
waiting seen [] = 0
waiting seen (n ∷ ns) = if contains n seen then waiting seen ns else suc (waiting seen ns)

pub waiting-nil : (ns : List Str) → waiting [] ns ≡ length ns
waiting-nil [] = refl
waiting-nil (n ∷ ns) = ap suc (waiting-nil ns)

pub waiting-snoc :
    (seen : List Str) (job : Str) (ns : List Str)
    → contains job seen ≡ false
    → waiting seen ns ≡ waiting (seen ++ job ∷ []) ns + count job ns
waiting-snoc seen job [] h = omega arith
waiting-snoc seen job (n ∷ ns) h =
    ground (arith, waiting-snoc seen job ns h, contains-append n seen (job ∷ []))

pub contains_of_waiting :
    (seen ns : List Str) (x : Str)
    → waiting seen ns ≡ 0
    → contains x ns ≡ true
    → contains x seen ≡ true
contains_of_waiting seen [] x h m = cc
contains_of_waiting seen (n ∷ ns) x h m = ground (arith, contains_of_waiting seen ns x)

pub missing_of_waiting :
    (seen ns : List Str)
    → waiting seen ns ≢ 0
    → (x : Str) × (contains x ns ≡ true) × (contains x seen ≡ false)
missing_of_waiting seen [] h = absurd (h refl)
missing_of_waiting seen (n ∷ ns) h = elim (Bool-cases (contains n seen)) [
  | inl e ↦
      let (x, m, a) = missing_of_waiting seen ns (λ z. h (ground arith)) in (x, ground arith, a)
  | inr e ↦ (n, ground arith, e)
]

-- In `xs`, each job stands behind its needs: they are in `seen` or before it.
abbrev pub IsOrdered : Graph → List Str → List Str → Type 0
IsOrdered g seen [] = Unit
IsOrdered g seen (x ∷ xs) = Subset (needs_of g x) seen × IsOrdered g (seen ++ x ∷ []) xs

pub IsOrdered-snoc :
    (g : Graph) (seen xs : List Str) (x : Str)
    → IsOrdered g seen xs
    → Subset (needs_of g x) (seen ++ xs)
    → IsOrdered g seen (xs ++ x ∷ [])
IsOrdered-snoc g seen [] x o h = (λ n m. rw append-nil at (h n m), tt)
IsOrdered-snoc g seen (y ∷ xs) x (here, o) h =
    (here, IsOrdered-snoc g (seen ++ y ∷ []) xs x o (λ n m. rw append_assoc (h n m)))

pub Nodup-middle :
    (xs : List Str) (x : Str) (ys : List Str) → Nodup (xs ++ x ∷ ys) → contains x xs ≡ false
Nodup-middle [] x ys u = refl
Nodup-middle (y ∷ xs) x ys (fresh, u) =
    ground (arith, Nodup-middle xs x ys u, contains-append y xs (x ∷ ys))

pub length-keys : (g : Graph) → length (keys g) ≡ length g
length-keys [] = refl
length-keys ((j, n) ∷ g) = ap suc (length-keys g)

-- The state of the algorithm, with the dependents that the inner loop has not yet visited.
pub record Inv (g : Graph) (left : List Str) (deg : Degrees) (queue done : List Str) : Type 0 where
  pub exact :
      (j : Str) → contains j (keys g) ≡ true → deg j ≡ waiting done (needs_of g j) + count j left
  pub ready : (j : Str) → contains j (done ++ queue) ≡ (contains j (keys g) && eqb (deg j) 0)
  pub nodup : Nodup (done ++ queue)
  pub known : Subset left (keys g)

pub Inv-release :
    (g : Graph) (left : List Str) (deg : Degrees) (queue done : List Str)
    → Inv g left deg queue done
    → let (deg', queue') = release left deg queue in Inv g [] deg' queue' done
unfolding release
Inv-release g [] deg queue done inv = inv
Inv-release g (d ∷ ds) deg queue done inv =
    Inv-release g ds (decrement deg d) (if eqb (deg d) 1 then queue ++ d ∷ [] else queue) done
      (record {
        exact = λ j m. ground (arith, inv.exact j m);
        ready = λ j. ground (
          arith,
          inv.ready j,
          inv.ready d,
          inv.exact d,
          inv.known d,
          contains-append j done queue,
          contains-append j done (queue ++ d ∷ []),
          contains-append j queue (d ∷ []),
        );
        nodup = elim (Bool-cases (eqb (deg d) 1)) [
          | inl e ↦ rw e (
              rw (← append_assoc)
                (Nodup-snoc (done ++ queue) d inv.nodup (ground (arith, inv.ready d))))
          | inr e ↦ rw e inv.nodup
        ];
        known = λ j m. inv.known j (ground arith);
      })

-- The next job leaves the queue: its dependents are what the inner loop visits.
pub Inv-pop :
    (g : Graph) (deg : Degrees) (job : Str) (queue done : List Str)
    → IsGraph g
    → Inv g [] deg (job ∷ queue) done
    → Inv g (dependents_of g job) deg queue (done ++ job ∷ [])
Inv-pop g deg job queue done graph inv = record {
  exact = λ j m.
      ground
        (arith, inv.exact j m, waiting-snoc done job (needs_of g j) job_new, graph.linked j job);
  ready = λ j. rw append_assoc (inv.ready j);
  nodup = rw append_assoc inv.nodup;
  known = λ j m. elim (Bool-cases (contains j (keys g))) [
    | inl e ↦ e
    | inr e ↦ absurd (
        count-ne_zero j (dependents_of g job) m
          (graph.linked j job ∙ ground (arith, lookup-none_of_absent j g e)))
  ];
}
  where
    job_new : contains job done ≡ false
    job_new = Nodup-middle done job queue inv.nodup

-- The job at the head of the queue waits for nothing.
pub head_needs :
    (g : Graph) (deg : Degrees) (job : Str) (queue done : List Str)
    → Inv g [] deg (job ∷ queue) done
    → Subset (needs_of g job) done
head_needs g deg job queue done inv x m =
    contains_of_waiting done (needs_of g job) x
      (ground (arith, inv.ready job, inv.exact job, contains-append job done (job ∷ queue))) m

-- What the loop leaves when the queue is empty.
pub record IsFinal (g : Graph) (sorted : List Str) : Type 0 where
  pub nodup : Nodup sorted
  pub ordered : IsOrdered g [] sorted
  pub final :
      (j : Str) → contains j sorted ≡ (contains j (keys g) && eqb (waiting sorted (needs_of g j)) 0)

-- The loop ends within the fuel.
pub kahn_lem :
    (fuel : ℕ) (g : Graph) (deg : Degrees) (queue done : List Str)
    → IsGraph g
    → Inv g [] deg queue done
    → IsOrdered g [] done
    → length (keys g) ≤ fuel + length done
    → (sorted : List Str) × (kahn fuel g deg queue done ≡ ok sorted) × IsFinal g sorted
unfolding kahn
kahn_lem fuel g deg [] done graph inv o h = (
  done,
  refl,
  record {
    nodup = rw append-nil at inv.nodup;
    ordered = o;
    final = λ j. ground (arith, inv.ready j, inv.exact j, contains-append j done []);
  },
)
kahn_lem zero g deg (job ∷ queue) done graph inv o h =
    let bound =
      length-le_of_Subset (done ++ job ∷ queue) (keys g) inv.nodup
        (λ x m. ground (arith, inv.ready x)) in
    absurd (omega (arith, bound, length-append done (job ∷ queue)))
kahn_lem (suc fuel) g deg (job ∷ queue) done graph inv o h =
    let (deg', queue') = release (dependents_of g job) deg queue in
    kahn_lem fuel g deg' queue' (done ++ job ∷ []) graph
      (Inv-release g (dependents_of g job) deg queue (done ++ job ∷ [])
        (Inv-pop g deg job queue done graph inv))
      (IsOrdered-snoc g [] done job o (head_needs g deg job queue done inv))
      (omega (arith, length-append done (job ∷ [])))

abbrev pub start : Graph → List Str
start g = filter (λ j. eqb (in_degree g j) 0) (keys g)

pub Inv-start : (g : Graph) → IsGraph g → Inv g [] (in_degree g) (start g) []
Inv-start g graph = record {
  exact = λ j m. ground (arith, waiting-nil (needs_of g j));
  ready = λ j. contains-filter (λ k. eqb (in_degree g k) 0) j (keys g);
  nodup = filter-Nodup (λ k. eqb (in_degree g k) 0) (keys g) graph.unique;
  known = λ j m. cc;
}

pub kahn-start :
    (g : Graph)
    → IsGraph g
    → (sorted : List Str) × (kahn (length g) g (in_degree g) (start g) [] ≡ ok sorted)
      × IsFinal g sorted
kahn-start g graph =
    kahn_lem (length g) g (in_degree g) (start g) [] graph (Inv-start g graph) tt
      (omega (arith, length-keys g))
