-- ===== src/Scheduler/Graph/Build.antt =====
-- engine/scheduler.py, `_build_graph`: the nodes, and the errors.
use forge_ci_cd_platform.Base.{
  ◌≡◌, refl, ◌≢◌, ◌⊎◌, inl, inr, List, [], ◌∷◌, none, some, true, false, ◌||◌, arith, Str,
  if◌then◌else◌, contains, count, Nodup, Subset, Bool-cases, count-zero,
}
use forge_ci_cd_platform.Base.Dict.{
  Dict, keys, lookup, insert, lookup-insert, contains-keys-insert, insert-Nodup,
  lookup-none_of_absent,
}
use forge_ci_cd_platform.Base.Result.{ok, err, >>=-eq-ok}
use forge_ci_cd_platform.Pipeline.{JobConfig}
use forge_ci_cd_platform.Scheduler.{
  JobStatus, queued, Error, unknown_need, Graph, config_needs, needs_of, dependents_of, check_needs,
  new_node, build_graph_from,
}

-- The needs that a pipeline declares for a job.
abbrev pub job_needs : Dict JobConfig → Str → List Str
job_needs jobs job = elim (lookup job jobs) [ none ↦ [] | some c ↦ config_needs c ]

-- Every declared need is a job.
abbrev pub IsClosed : Dict JobConfig → Type 0
IsClosed jobs = (job : Str) → Subset (job_needs jobs job) (keys jobs)

pub record IsGraph (g : Graph) : Type 0 where
  pub unique : Nodup (keys g)
  pub closed : (j : Str) → Subset (needs_of g j) (keys g)
  pub linked : (j d : Str) → count j (dependents_of g d) ≡ count d (needs_of g j)

pub count-ne_zero : (x : Str) (xs : List Str) → contains x xs ≡ true → count x xs ≢ 0
count-ne_zero x [] h = cc
count-ne_zero x (y ∷ xs) h = ground (arith, count-ne_zero x xs)

pub contains_of_count : (x : Str) (xs : List Str) → count x xs ≢ 0 → contains x xs ≡ true
contains_of_count x xs h = elim (Bool-cases (contains x xs)) [
  | inl e ↦ e
  | inr e ↦ absurd (h (count-zero x xs e))
]

pub check_needs-contains :
    (jobs : Dict JobConfig) (job : Str) (deps : List Str) (x : Str)
    → check_needs jobs job deps ≡ ok tt
    → contains x deps ≡ true
    → contains x (keys jobs) ≡ true
unfolding check_needs
check_needs-contains jobs job [] x h m = cc
check_needs-contains jobs job (dep ∷ deps) x h m =
    ground (arith, check_needs-contains jobs job deps x)

pub check_needs_ok :
    (jobs : Dict JobConfig) (job : Str) (deps : List Str)
    → Subset deps (keys jobs)
    → check_needs jobs job deps ≡ ok tt
unfolding check_needs
check_needs_ok jobs job [] h = refl
check_needs_ok jobs job (dep ∷ deps) h =
    let rest = check_needs_ok jobs job deps (λ x m. h x (ground arith)) in
    let here : contains dep (keys jobs) ≡ true = h dep (ground arith) in rw here rest

pub check_needs_cases :
    (jobs : Dict JobConfig) (job : Str) (deps : List Str)
    → (check_needs jobs job deps ≡ ok tt)
      ⊎ ((d : Str) × (check_needs jobs job deps ≡ err (unknown_need job d))
          × (contains d deps ≡ true)
          × (contains d (keys jobs) ≡ false))
unfolding check_needs
check_needs_cases jobs job [] = inl refl
check_needs_cases jobs job (dep ∷ deps) = elim (Bool-cases (contains dep (keys jobs))) [
  | inl e ↦ elim (check_needs_cases jobs job deps) [
    | inl p ↦ inl (rw (e, check_needs) p)
    | inr (d, p, m, a) ↦ inr (d, rw (e, check_needs) p, ground (arith, m), a)
  ]
  | inr e ↦ inr (dep, rw (e, check_needs), ground arith, e)
]

-- An exception that names a declared need which is no job.
abbrev pub Unknown : Dict JobConfig → Dict JobConfig → Error → Type 0
Unknown jobs rest e =
    (j d : Str) × (e ≡ unknown_need j d)
    × (contains d (job_needs rest j) ≡ true)
    × (contains d (keys jobs) ≡ false)

module _ (jobs : Dict JobConfig) where
  pub keys-build :
      (rest : Dict JobConfig) (g : Graph) (st : Dict JobStatus) {g' : Graph} {st' : Dict JobStatus}
      (j : Str)
      → build_graph_from jobs rest g st ≡ ok (g', st')
      → contains j (keys g') ≡ (contains j (keys rest) || contains j (keys g))
  unfolding build_graph_from
  keys-build [] g st j h = ground arith
  keys-build ((job, config) ∷ rest) g st {g'} {st'} j h =
      let (_, _, h') = >>=-eq-ok (check_needs jobs job (config_needs config)) _ h in
      let ih = keys-build rest _ _ j h' in
      ground (arith, ih, contains-keys-insert j job (new_node job config) g)

  pub keys-build-Nodup :
      (rest : Dict JobConfig) (g : Graph) (st : Dict JobStatus) {g' : Graph} {st' : Dict JobStatus}
      → build_graph_from jobs rest g st ≡ ok (g', st')
      → Nodup (keys g)
      → Nodup (keys g')
  unfolding build_graph_from
  keys-build-Nodup [] g st h u = ground arith
  keys-build-Nodup ((job, config) ∷ rest) g st h u =
      let (_, _, h') = >>=-eq-ok (check_needs jobs job (config_needs config)) _ h in
      keys-build-Nodup rest _ _ h' (insert-Nodup job (new_node job config) g u)

  pub needs-build :
      (rest : Dict JobConfig) (g : Graph) (st : Dict JobStatus) {g' : Graph} {st' : Dict JobStatus}
      (j : Str)
      → build_graph_from jobs rest g st ≡ ok (g', st')
      → Nodup (keys rest)
      → needs_of g' j ≡ (if contains j (keys rest) then job_needs rest j else needs_of g j)
  unfolding build_graph_from
  needs-build [] g st j h u = ground arith
  needs-build ((job, config) ∷ rest) g st j h (fresh, u) =
      let (_, _, h') = >>=-eq-ok (check_needs jobs job (config_needs config)) _ h in
      ground (arith, needs-build rest _ _ j h' u, lookup-insert j job (new_node job config) g)

  pub statuses-build :
      (rest : Dict JobConfig) (g : Graph) (st : Dict JobStatus) {g' : Graph} {st' : Dict JobStatus}
      (j : Str)
      → build_graph_from jobs rest g st ≡ ok (g', st')
      → lookup j st' ≡ (if contains j (keys rest) then some queued else lookup j st)
  unfolding build_graph_from
  statuses-build [] g st j h = ground arith
  statuses-build ((job, config) ∷ rest) g st j h =
      let (_, _, h') = >>=-eq-ok (check_needs jobs job (config_needs config)) _ h in
      ground (arith, statuses-build rest _ _ j h', lookup-insert j job queued st)

  pub no_dependents-build :
      (rest : Dict JobConfig) (g : Graph) (st : Dict JobStatus) {g' : Graph} {st' : Dict JobStatus}
      (j : Str)
      → build_graph_from jobs rest g st ≡ ok (g', st')
      → dependents_of g j ≡ []
      → dependents_of g' j ≡ []
  unfolding build_graph_from
  no_dependents-build [] g st j h e = ground arith
  no_dependents-build ((job, config) ∷ rest) g st j h e =
      let (_, _, h') = >>=-eq-ok (check_needs jobs job (config_needs config)) _ h in
      no_dependents-build rest _ _ j h'
        (ground (arith, lookup-insert j job (new_node job config) g))

  pub checked-build :
      (rest : Dict JobConfig) (g : Graph) (st : Dict JobStatus) {g' : Graph} {st' : Dict JobStatus}
      (j x : Str)
      → build_graph_from jobs rest g st ≡ ok (g', st')
      → contains x (job_needs rest j) ≡ true
      → contains x (keys jobs) ≡ true
  unfolding build_graph_from
  checked-build [] g st j x h m = cc
  checked-build ((job, config) ∷ rest) g st j x h m =
      let (_, checked, h') = >>=-eq-ok (check_needs jobs job (config_needs config)) _ h in
      ground (
        arith,
        checked-build rest _ _ j x h',
        check_needs-contains jobs job (config_needs config) x checked,
      )

  pub build_ok :
      (rest : Dict JobConfig) (g : Graph) (st : Dict JobStatus)
      → Nodup (keys rest)
      → ((j x : Str) → contains x (job_needs rest j) ≡ true → contains x (keys jobs) ≡ true)
      → (built : Graph × Dict JobStatus) × (build_graph_from jobs rest g st ≡ ok built)
  unfolding build_graph_from
  build_ok [] g st u h = ((g, st), refl)
  build_ok ((job, config) ∷ rest) g st (fresh, u) h =
      let checked = check_needs_ok jobs job (config_needs config) (λ x m. h job x (ground arith)) in
      let (built, e) =
        build_ok rest (insert job (new_node job config) g) (insert job queued st) u
          (λ j x m. h j x (ground (arith, lookup-none_of_absent job rest fresh))) in
      (built, rw checked e)

  -- The first step raises only for a need that is no job.
  pub build-err :
      (rest : Dict JobConfig) (g : Graph) (st : Dict JobStatus) {e : Error}
      → build_graph_from jobs rest g st ≡ err e
      → Nodup (keys rest)
      → Unknown jobs rest e
  unfolding build_graph_from
  build-err [] g st h u = cc
  build-err ((job, config) ∷ rest) g st h (fresh, u) =
      elim (check_needs_cases jobs job (config_needs config)) [
        | inl checked ↦
            let (j, d, e, need, absent) =
              build-err rest (insert job (new_node job config) g) (insert job queued st)
                (rw checked at h) u in
            (j, d, e, ground (arith, need, lookup-none_of_absent job rest fresh), absent)
        | inr (d, raised, need, absent) ↦
            (job, d, ground (arith, raised), ground (arith, need), absent)
      ]
