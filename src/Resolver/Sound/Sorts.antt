-- ===== src/Resolver/Sound/Sorts.antt =====
-- registry/resolver.py: sorting loses no dependency and no name.
use forge_ci_cd_platform.Base.{
  ◌≡◌, ◌⊎◌, refl, inl, inr, List, [], ◌∷◌, arith, Str, ◌==◌, ◌||◌, contains, All,
}
use forge_ci_cd_platform.Semver.{str_compare}
use forge_ci_cd_platform.Resolver.{Dep, insert_dep, sort_deps, insert_name, sort_names}
use forge_ci_cd_platform.Resolver.Select.{Ordering-cases}

-- Sorting loses no dependency.
pub insert_dep_cases :
    (d e : Dep) (es : List Dep)
    → (insert_dep d (e ∷ es) ≡ d ∷ e ∷ es) ⊎ (insert_dep d (e ∷ es) ≡ e ∷ insert_dep d es)
unfolding insert_dep
insert_dep_cases d e es = elim (Ordering-cases (str_compare d.name e.name)) [
  | inl p ↦ inl (rw (p, insert_dep))
  | inr (inl p) ↦ inl (rw (p, insert_dep))
  | inr (inr p) ↦ inr (rw (p, insert_dep))
]

pub All_of_insert_dep :
    (P : Dep → Type 0) (d : Dep) (ds : List Dep) → All P (insert_dep d ds) → P d × All P ds
unfolding insert_dep
All_of_insert_dep P d [] h = h
All_of_insert_dep P d (e ∷ es) h = elim (insert_dep_cases d e es) [
  | inl p ↦ rw p at h
  | inr p ↦
      let h' : All P (e ∷ insert_dep d es) = rw p at h in
      let (q, rest) = All_of_insert_dep P d es h'.1 in (q, (h'.0, rest))
]

pub All_of_sort_deps : (P : Dep → Type 0) (ds : List Dep) → All P (sort_deps ds) → All P ds
unfolding sort_deps
All_of_sort_deps P [] h = tt
All_of_sort_deps P (d ∷ ds) h =
    let (q, rest) = All_of_insert_dep P d (sort_deps ds) h in (q, All_of_sort_deps P ds rest)

pub contains-insert_name :
    (x n : Str) (ns : List Str) → contains x (insert_name n ns) ≡ (x == n || contains x ns)
unfolding insert_name
contains-insert_name x n [] = refl
contains-insert_name x n (m ∷ ms) = ground (arith, contains-insert_name x n ms)

pub contains-sort_names : (x : Str) (ns : List Str) → contains x (sort_names ns) ≡ contains x ns
unfolding sort_names
contains-sort_names x [] = refl
contains-sort_names x (n ∷ ns) =
    ground (arith, contains-insert_name x n (sort_names ns), contains-sort_names x ns)
