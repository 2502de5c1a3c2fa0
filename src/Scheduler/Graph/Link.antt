-- ===== src/Scheduler/Graph/Link.antt =====
-- engine/scheduler.py, `_compute_dependents`: what the links count.
use forge_ci_cd_platform.Base.{
  ◌+◌, ◌≡◌, refl, ◌⊎◌, ◌∙◌, inl, inr, List, [], ◌∷◌, ◌++◌, none, some, true, false, arith, Str,
  ◌==◌, if◌then◌else◌, contains, count, Nodup, Subset, Option-cases, count-append,
}
use forge_ci_cd_platform.Base.Dict.{
  keys, lookup, insert, lookup-insert, keys-insert_old, contains-keys_of_lookup, lookup-ne-none,
  lookup-none_of_absent,
}
use forge_ci_cd_platform.Scheduler.{
  JobNode, Graph, needs_of, dependents_of, append_dependent, link_needs, link_all,
}

module _ (dep job : Str) (g : Graph) where
  abbrev pub extended : JobNode → JobNode
  extended n = record n { dependents = n.dependents ++ job ∷ [] }

  pub append_dependent_cases :
      (lookup dep g ≡ none) × (append_dependent dep job g ≡ g)
      ⊎ ((n : JobNode) × (lookup dep g ≡ some n)
          × (append_dependent dep job g ≡ insert dep (extended n) g))
  unfolding append_dependent
  append_dependent_cases = elim (Option-cases (lookup dep g)) [
    | inl e ↦ inl (e, rw (e, append_dependent))
    | inr (n, e) ↦ inr (n, e, rw (e, append_dependent))
  ]

  pub keys-append_dependent : keys (append_dependent dep job g) ≡ keys g
  keys-append_dependent = elim append_dependent_cases [
    | inl (e, p) ↦ rw p
    | inr (n, e, p) ↦ rw p (keys-insert_old dep _ g (contains-keys_of_lookup dep g e))
  ]

  pub needs-append_dependent : (j : Str) → needs_of (append_dependent dep job g) j ≡ needs_of g j
  needs-append_dependent j = elim append_dependent_cases [
    | inl (e, p) ↦ rw p
    | inr (n, e, p) ↦ rw p (ground (arith, lookup-insert j dep (extended n) g))
  ]

  pub count-append_dependent :
      (k d : Str)
      → contains dep (keys g) ≡ true
      → count k (dependents_of (append_dependent dep job g) d) ≡ (
          if d == dep
          then count k (dependents_of g d) + count k (job ∷ [])
          else count k (dependents_of g d))
  count-append_dependent k d h = elim append_dependent_cases [
    | inl (e, p) ↦ let (n, q) = lookup-ne-none dep g h in cc
    | inr (n, e, p) ↦
        rw p (
          ground
            (arith, lookup-insert d dep (extended n) g, count-append k n.dependents (job ∷ [])))
  ]

pub keys-link_needs :
    (job : Str) (deps : List Str) (g : Graph) → keys (link_needs job deps g) ≡ keys g
unfolding link_needs
keys-link_needs job [] g = refl
keys-link_needs job (dep ∷ deps) g =
    keys-link_needs job deps (append_dependent dep job g) ∙ keys-append_dependent dep job g

pub needs-link_needs :
    (job : Str) (deps : List Str) (g : Graph) (j : Str)
    → needs_of (link_needs job deps g) j ≡ needs_of g j
unfolding link_needs
needs-link_needs job [] g j = refl
needs-link_needs job (dep ∷ deps) g j =
    needs-link_needs job deps (append_dependent dep job g) j ∙ needs-append_dependent dep job g j

pub count-link_needs :
    (job : Str) (deps : List Str) (g : Graph) (k d : Str)
    → Subset deps (keys g)
    → count k (dependents_of (link_needs job deps g) d)
      ≡ count k (dependents_of g d) + (if k == job then count d deps else 0)
unfolding link_needs
count-link_needs job [] g k d h = ground arith
count-link_needs job (dep ∷ deps) g k d h =
    let ih =
      count-link_needs job deps (append_dependent dep job g) k d
        (λ x m. rw keys-append_dependent (h x (ground arith))) in
    ground (arith, ih, count-append_dependent dep job g k d, h dep)

pub keys-link_all : (items g : Graph) → keys (link_all items g) ≡ keys g
unfolding link_all
keys-link_all [] g = refl
keys-link_all ((job, node) ∷ rest) g =
    keys-link_all rest (link_needs job node.needs g) ∙ keys-link_needs job node.needs g

pub needs-link_all : (items g : Graph) (j : Str) → needs_of (link_all items g) j ≡ needs_of g j
unfolding link_all
needs-link_all [] g j = refl
needs-link_all ((job, node) ∷ rest) g j =
    needs-link_all rest (link_needs job node.needs g) j ∙ needs-link_needs job node.needs g j

pub no_needs :
    (items : Graph) (k d : Str) → contains k (keys items) ≡ false → count d (needs_of items k) ≡ 0
no_needs items k d h = ground (arith, lookup-none_of_absent k items h)

pub count-link_all :
    (items g : Graph) (k d : Str)
    → Nodup (keys items)
    → ((j : Str) → Subset (needs_of items j) (keys g))
    → count k (dependents_of (link_all items g) d)
      ≡ count k (dependents_of g d) + count d (needs_of items k)
unfolding link_all
count-link_all [] g k d u h = ground arith
count-link_all ((job, node) ∷ rest) g k d (fresh, u) h =
    let ih = count-link_all rest (link_needs job node.needs g) k d u (λ j x m.
      rw keys-link_needs (h j x (ground (arith, lookup-none_of_absent job rest fresh)))) in
    let linked = count-link_needs job node.needs g k d (λ x m. h job x (ground arith)) in
    ground (arith, ih, linked, no_needs rest k d)
