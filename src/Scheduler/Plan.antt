-- ===== src/Scheduler/Plan.antt =====
-- engine/scheduler.py, `get_execution_plan`: the levels of a constructed scheduler.
use mathlib.Core.Path.{subst}
use forge_ci_cd_platform.Base.{
  ℕ, zero, suc, ◌+◌, ◌<◌, ◌≡◌, ◌≢◌, refl, ◌∙◌, sym, inl, inr, List, [], ◌∷◌, ◌++◌, true, false, not,
  ◌&&◌, arith, Str, ltb, length, all, contains, Nodup, Subset, Bool-cases, List-cases,
  contains-append, contains-filter, filter-Nodup, length-le_of_Subset, Subset_of_length,
  length-append, find_missing,
}
use forge_ci_cd_platform.Base.Dict.{keys}
use forge_ci_cd_platform.Base.Result.{ok}
use forge_ci_cd_platform.Scheduler.{
  Graph, needs_of, level, plan_levels, DagScheduler, get_execution_plan,
}
use forge_ci_cd_platform.Scheduler.Order.{IsOrdered, IsSorted, length-keys}

-- Every level is not empty, and its jobs are new and need only jobs of earlier levels; after the
-- last level each job has had its turn.
abbrev pub IsPlan : Graph → List Str → List (List Str) → Type 0
IsPlan g processed [] = (j : Str) → contains j processed ≡ contains j (keys g)
IsPlan g processed (current ∷ rest) =
    (current ≢ [])
    × Nodup (processed ++ current)
    × ((j d : Str)
        → contains j current ≡ true
        → contains d (needs_of g j) ≡ true
        → contains d processed ≡ true)
    × IsPlan g (processed ++ current) rest

all-contains :
    (seen ns : List Str) (d : Str)
    → all (λ n. contains n seen) ns ≡ true
    → contains d ns ≡ true
    → contains d seen ≡ true
all-contains seen [] d h m = cc
all-contains seen (n ∷ ns) d h m = ground (arith, all-contains seen ns d)

all_of_Subset : (seen ns : List Str) → Subset ns seen → all (λ n. contains n seen) ns ≡ true
all_of_Subset seen [] h = refl
all_of_Subset seen (n ∷ ns) h =
    let here : contains n seen ≡ true = h n (ground arith) in
    rw here (all_of_Subset seen ns (λ x m. h x (ground arith)))

append-Nodup :
    (xs ys : List Str)
    → Nodup xs
    → Nodup ys
    → ((x : Str) → contains x ys ≡ true → contains x xs ≡ false)
    → Nodup (xs ++ ys)
append-Nodup [] ys u v h = v
append-Nodup (x ∷ xs) ys (fresh, u) v h = (
  ground (arith, contains-append x xs ys, h x),
  append-Nodup xs ys u v (λ y m. ground (arith, h y m)),
)

-- The first unprocessed job of a sorted list has its needs processed.
level_moves :
    (g : Graph) (seen xs processed : List Str) (j : Str)
    → IsOrdered g seen xs
    → Subset seen processed
    → contains j xs ≡ true
    → contains j processed ≡ false
    → level g xs processed ≢ []
level_moves g seen [] processed j o done m new = cc
level_moves g seen (x ∷ xs) processed j o done m new = elim (Bool-cases (contains x processed)) [
  | inl e ↦
      let ih =
        level_moves g (seen ++ x ∷ []) xs processed j o.1
          (λ y n. ground (arith, done y, contains-append y seen (x ∷ []))) (ground arith) new in
      λ z. ih (ground (arith, e))
  | inr e ↦
      let met = all_of_Subset processed (needs_of g x) (λ d n. done d (o.0 d n)) in
      λ z. ground (arith, e, met)
]

module _ (g : Graph) (sorted : List Str) (order : IsSorted g sorted) (unique : Nodup (keys g)) where
  level-contains :
      (processed : List Str) (j : Str)
      → contains j (level g sorted processed) ≡ (
          contains j sorted
          && (not (contains j processed) && all (λ dep. contains dep processed) (needs_of g j)))
  level-contains processed j =
      contains-filter
        (λ k. not (contains k processed) && all (λ dep. contains dep processed) (needs_of g k)) j
        sorted

  level-Nodup :
      (processed : List Str) → Nodup processed → Nodup (processed ++ level g sorted processed)
  level-Nodup processed u =
      append-Nodup processed (level g sorted processed) u
        (filter-Nodup
          (λ k. not (contains k processed) && all (λ dep. contains dep processed) (needs_of g k))
          sorted order.nodup)
        (λ x m. ground (arith, level-contains processed x))

  level_met :
      (processed : List Str) (j d : Str)
      → contains j (level g sorted processed) ≡ true
      → contains d (needs_of g j) ≡ true
      → contains d processed ≡ true
  level_met processed j d m need =
      all-contains processed (needs_of g j) d (ground (arith, level-contains processed j)) need

  level_fresh :
      (processed : List Str)
      → Nodup processed
      → length processed < length g
      → level g sorted processed ≢ []
  level_fresh processed u h = elim (find_missing processed (keys g)) [
    | inl all_in ↦
        absurd (omega (arith, length-keys g, length-le_of_Subset (keys g) processed unique all_in))
    | inr (j, known, new) ↦
        level_moves g [] sorted processed j order.ordered (λ x m. cc) (order.same j ∙ known) new
  ]

  plan_levels_lem :
      (fuel : ℕ) (processed : List Str)
      → Nodup processed
      → Subset processed (keys g)
      → length g < fuel + length processed
      → (levels : List (List Str)) × (plan_levels fuel g sorted processed ≡ ok levels)
        × IsPlan g processed levels
  unfolding plan_levels
  plan_levels_lem zero processed u within room =
      absurd (omega (arith, length-keys g, length-le_of_Subset processed (keys g) u within))
  plan_levels_lem (suc fuel) processed u within room =
      elim (Bool-cases (ltb (length processed) (length g))) [
        | inr full ↦
            let all_in =
              Subset_of_length processed (keys g) u within (ground (arith, full, length-keys g)) in
            ([], rw (full, plan_levels), λ j. ground (arith, within j, all_in j))
        | inl more ↦ elim (List-cases (level g sorted processed)) [
          | inl e ↦ absurd (level_fresh processed u (ground (arith, more)) e)
          | inr (c, cs, e) ↦
              let current = c ∷ cs in
              let u' : Nodup (processed ++ current) = rw e at (level-Nodup processed u) in
              let (rest, p, is_plan) =
                plan_levels_lem fuel (processed ++ current) u'
                  (λ x m. ground (
                    arith,
                    within x,
                    contains-append x processed current,
                    level-contains processed x,
                    e,
                    order.same x,
                  ))
                  (omega (arith, length-append processed current)) in
              let p' =
                subst (λ l. plan_levels fuel g sorted (processed ++ l) ≡ ok rest) (sym e) p in
              (
                current ∷ rest,
                rw (more, e, p', plan_levels),
                (λ z. cc, u', λ j d m need. level_met processed j d (rw e m) need, is_plan),
              )
        ]
      ]

-- The plan of a constructed scheduler is found, without deadlock and within the fuel. No level is
-- empty, no job stands in two levels or twice in one, a job's needs stand in earlier levels, and
-- every job has a level.
pub get_execution_plan-IsPlan :
    (s : DagScheduler)
    → Nodup (keys s.graph)
    → IsSorted s.graph s.sorted_jobs
    → (levels : List (List Str)) × (get_execution_plan s ≡ ok levels) × IsPlan s.graph [] levels
unfolding get_execution_plan
get_execution_plan-IsPlan s unique order =
    plan_levels_lem s.graph s.sorted_jobs order unique (suc (length s.graph)) [] tt (λ x m. cc)
      (omega arith)
