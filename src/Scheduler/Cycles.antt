-- ===== src/Scheduler/Cycles.antt =====
-- engine/scheduler.py, `_detect_cycles`: the search ends, and what it reports are cycles of needs.
pub mod Walks
use forge_ci_cd_platform.Base.{
  ℕ, zero, suc, ◌+◌, ◌<◌, ◌≡◌, refl, ◌⊎◌, ◌∙◌, inl, inr, List, [], ◌∷◌, ◌++◌, some, true, Option,
  arith, Str, length, contains, Subset, Bool-cases, List-cases, All, length-le_of_Subset,
}
use forge_ci_cd_platform.Base.Dict.{keys}
use forge_ci_cd_platform.Base.Result.{ok, err}
use forge_ci_cd_platform.Scheduler.{
  Graph, needs_of, Dfs, enter, leave, report, each, dfs, dfs_roots, no_search, detect_cycles,
  cycles,
}
use forge_ci_cd_platform.Scheduler.Order.{IsRanked, length-keys}
use forge_ci_cd_platform.Scheduler.Cycles.Walks.{
  IsWalk, IsWalk-snoc, Pre, Post, Searches, Inside, Inside-Post, enter-Inside, leave-Post,
  report-Post,
}
pub use forge_ci_cd_platform.Scheduler.Cycles.Walks.{IsCycle}

module _ (g : Graph) (closed : (j : Str) → Subset (needs_of g j) (keys g)) where
  each_lem :
      (fuel : ℕ) (visit : Str → Dfs → Option Dfs) (node : Str) (before : List Str) (deps : List Str)
      (s : Dfs)
      → Searches g fuel visit
      → Subset deps (needs_of g node)
      → Inside g fuel node before s
      → (s' : Dfs) × (each visit deps s ≡ some s') × Post g s s'
  unfolding each
  each_lem fuel visit node before [] s spec sub inside =
      (s, refl, record { visiting = refl; path = refl; found = inside.found })
  each_lem fuel visit node before (dep ∷ deps) s spec sub inside =
      let need : contains dep (needs_of g node) ≡ true = sub dep (ground arith) in
      let pre : Pre g fuel dep s = record {
        nodup = inside.nodup;
        within = inside.within;
        same = inside.same;
        key = closed node dep need;
        walk = rw inside.path (IsWalk-snoc (needs_of g) before node dep inside.walk need);
        found = inside.found;
        room = inside.room;
      } in
      let (s1, e1, post) = spec dep s pre in
      let (s2, e2, post2) =
        each_lem fuel visit node before deps s1 spec (λ x m. sub x (ground arith))
          (Inside-Post inside post) in
      (
        s2,
        rw (e1, each) e2,
        record {
          visiting = post2.visiting ∙ post.visiting;
          path = post2.path ∙ post.path;
          found = post2.found;
        },
      )

  dfs_lem : (fuel : ℕ) → Searches g fuel (dfs fuel g)
  unfolding dfs
  dfs_lem zero node s pre =
      absurd (omega (arith, pre.room, length-le_of_Subset s.visiting (keys g) pre.nodup pre.within))
  dfs_lem (suc fuel) node s pre = elim (Bool-cases (contains node s.visiting)) [
    | inl e ↦ (report node s, rw (e, dfs), report-Post pre e)
    | inr e ↦ elim (Bool-cases (contains node s.visited)) [
      | inl e' ↦ (s, rw (e, e', dfs), record { visiting = refl; path = refl; found = pre.found })
      | inr e' ↦
          let (s', e1, post) =
            each_lem fuel (dfs fuel g) node s.path (needs_of g node) (enter node s) (dfs_lem fuel)
              (λ x m. m) (enter-Inside pre e) in
          (leave node s', rw (e, e', e1, dfs), leave-Post node post e)
    ]
  ]

  dfs_roots_lem :
      (fuel : ℕ) (jobs : List Str) (s : Dfs)
      → length (keys g) < fuel
      → Subset jobs (keys g)
      → s.visiting ≡ []
      → All (IsCycle (needs_of g)) s.cycles_found
      → (s' : Dfs) × (dfs_roots fuel g jobs s ≡ some s')
        × All (IsCycle (needs_of g)) s'.cycles_found
  unfolding dfs_roots
  dfs_roots_lem fuel [] s room sub idle found = (s, refl, found)
  dfs_roots_lem fuel (job ∷ jobs) s room sub idle found =
      elim (Bool-cases (contains job s.visited)) [
        | inl e ↦
            let (s2, e2, found2) =
              dfs_roots_lem fuel jobs s room (λ x m. sub x (ground arith)) idle found in
            (s2, rw (e, dfs_roots) e2, found2)
        | inr e ↦
            let pre : Pre g fuel job (record s { path = [] }) = record {
              nodup = rw idle tt;
              within = rw idle (λ x m. cc);
              same = rw idle (λ x. refl);
              key = sub job (ground arith);
              walk = tt;
              found = found;
              room = omega (arith, room);
            } in
            let (s1, e1, post) = dfs_lem fuel job (record s { path = [] }) pre in
            let (s2, e2, found2) =
              dfs_roots_lem fuel jobs s1 room (λ x m. sub x (ground arith)) (post.visiting ∙ idle)
                post.found in
            (s2, rw (e, e1, dfs_roots) e2, found2)
      ]

  pub detect_cycles_cases :
      (detect_cycles g ≡ ok tt)
      ⊎ ((c : List Str) × (cs : List (List Str)) × (detect_cycles g ≡ err (cycles (c ∷ cs)))
          × All (IsCycle (needs_of g)) (c ∷ cs))
  unfolding detect_cycles
  detect_cycles_cases =
      let (s, e, found) =
        dfs_roots_lem (suc (length g)) (keys g) no_search (omega (arith, length-keys g)) (λ x m. m)
          refl tt in
      elim (List-cases s.cycles_found) [
        | inl p ↦ inl (rw (e, p, detect_cycles))
        | inr (c, cs, p) ↦ inr (c, cs, rw (e, p, detect_cycles), rw p at found)
      ]

-- Along a walk the rank falls.
rank-walk :
    (rank : Str → ℕ) (needs : Str → List Str)
    → IsRanked rank needs
    → (x : Str) (xs : List Str) (y : Str) → IsWalk needs (x ∷ xs ++ y ∷ [])
    → rank y < rank x
rank-walk rank needs ranked x [] y w = ranked x y w.0
rank-walk rank needs ranked x (z ∷ xs) y w =
    omega (arith, ranked x z w.0, rank-walk rank needs ranked z xs y w.1)

pub no_IsCycle-of_rank :
    (rank : Str → ℕ) (needs : Str → List Str)
    → IsRanked rank needs
    → (c : List Str) → ¬ IsCycle needs c
no_IsCycle-of_rank rank needs ranked c cyc = absurd (
    omega
      (arith, rank-walk rank needs ranked cyc.first cyc.inner cyc.first (rw cyc.shape at cyc.walk)))
