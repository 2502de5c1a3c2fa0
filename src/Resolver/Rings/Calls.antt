-- ===== src/Resolver/Rings/Calls.antt =====
-- registry/resolver.py, `resolve_name`: what a CycleError says of the packages.
use mathlib.Core.Path.{subst}
use forge_ci_cd_platform.Base.{
  ℕ, zero, suc, ◌≡◌, ◌≢◌, refl, ◌∙◌, sym, ap, inl, inr, List, [], ◌∷◌, ◌++◌, true, arith, Str, all,
  contains, contains-append, contains-discard, map, Bool-cases, Option-cases, List-cases,
}
use forge_ci_cd_platform.Base.Dict.{lookup, keys}
use forge_ci_cd_platform.Base.Result.{Result, ok, err, ◌>>=◌, >>=-eq-err, Result-cases}
use forge_ci_cd_platform.Pipeline.{PipelineConfig}
use forge_ci_cd_platform.Semver.{parse}
use forge_ci_cd_platform.Constraint.{satisfies}
use forge_ci_cd_platform.Scheduler.{pop}
use forge_ci_cd_platform.Scheduler.Cycles.Walks.{pop-snoc}
use forge_ci_cd_platform.Resolver.{
  Error, cycle, conflict, not_found, value_error, out_of_fuel, Dep, RegistryClient, Requirement,
  Requirements, requirements_of, add_requirement, ResolvedPackage, State, VersionKey, sort_deps,
  sort_names, first_text, choose, candidates, sort_descending, select_version, make_requirement,
  recheck, enter, leave, resolve_deps, at_sign, resolve_selected, resolve_new, resolve_name,
  resolve_roots, root_requirements, pipeline_via, resolve_state, resolve, as_dep,
}
use forge_ci_cd_platform.Resolver.Rings.{
  IsRing, IsCalm, Leads, Leads-snoc, from_index-IsRing, dep_names, contains-sort_deps,
}

choose-calm :
    (name : Str) (reqs : List Requirement) (vs path : List Str)
    → choose name reqs vs ≢ err (cycle path)
choose-calm name reqs [] path h = cc
choose-calm name reqs (v ∷ vs) path h = calm (sort_descending (candidates reqs (v ∷ vs))) h
  where
    calm : (ks : List VersionKey) → first_text name ks ≢ err (cycle path)
    calm [] h = cc
    calm (k ∷ ks) h = cc

make_requirement-calm :
    (d : Dep) (via : Str) (path : List Str) → make_requirement d via ≢ err (cycle path)
make_requirement-calm d via path h = ground arith

module _ (client : RegistryClient) where
  -- Every package that is being visited is on the stack.
  abbrev Stacked : State → Type 0
  Stacked s = (x : Str) → contains x s.visiting ≡ true → contains x s.path_stack ≡ true

  -- A call leaves the stack as it was, or reports a ring.
  Post : List Str → Result Error State → Type 0
  Post stack (ok s) = (s.path_stack ≡ stack) × Stacked s
  Post stack (err e) = elim e [ cycle path ↦ IsRing client path | _ ↦ Unit ]

  calm-Post :
      {A : Type 0} (stack : List Str) (m : Result Error A) (next : A → Result Error State)
      → ((path : List Str) → m ≢ err (cycle path))
      → ((a : A) → m ≡ ok a → Post stack (next a))
      → Post stack (m >>= next)
  unfolding Post
  calm-Post stack (ok a) next calm rest = rest a refl
  calm-Post stack (err (cycle path)) next calm rest = absurd (calm path refl)
  calm-Post stack (err (conflict n)) next calm rest = tt
  calm-Post stack (err (not_found n)) next calm rest = tt
  calm-Post stack (err value_error) next calm rest = tt
  calm-Post stack (err out_of_fuel) next calm rest = tt

  Post->>= :
      (stack stack' : List Str) (m : Result Error State) (next : State → Result Error State)
      → Post stack m
      → ((s : State) → s.path_stack ≡ stack → Stacked s → Post stack' (next s))
      → Post stack' (m >>= next)
  unfolding Post
  Post->>= stack stack' (ok s) next (same, stacked) rest = rest s same stacked
  Post->>= stack stack' (err (cycle path)) next h rest = h
  Post->>= stack stack' (err (conflict n)) next h rest = tt
  Post->>= stack stack' (err (not_found n)) next h rest = tt
  Post->>= stack stack' (err value_error) next h rest = tt
  Post->>= stack stack' (err out_of_fuel) next h rest = tt

  Rings : (Str → State → Result Error State) → Type 0
  Rings resolve =
      (name : Str) (s : State)
      → Stacked s
      → Leads client s.path_stack name
      → Post s.path_stack (resolve name s)

  resolve_deps-Post :
      (resolve : Str → State → Result Error State) (via : Str) (ds : List Dep) (s : State)
      → Rings resolve
      → Stacked s
      → ((x : Str) → contains x (dep_names ds) ≡ true → Leads client s.path_stack x)
      → Post s.path_stack (resolve_deps resolve via ds s)
  unfolding resolve_deps Post Rings
  resolve_deps-Post resolve via [] s rings stacked leads = (refl, stacked)
  resolve_deps-Post resolve via (d ∷ ds) s rings stacked leads =
      calm-Post s.path_stack (make_requirement d via) _ (make_requirement-calm d via) (λ req _.
        let s1 = record s { requirements = add_requirement req s.requirements } in
        Post->>= s.path_stack s.path_stack (resolve d.name s1) _
          (rings d.name s1 stacked (leads d.name (ground arith)))
          (λ s2 same stacked2.
            subst (λ st. Post st (resolve_deps resolve via ds s2)) same
              (resolve_deps-Post resolve via ds s2 rings stacked2
                (λ x m. subst (λ st. Leads client st x) (sym same) (leads x (ground (arith, m)))))))

  Stacked-enter : (name : Str) (s : State) → Stacked s → Stacked (enter name s)
  Stacked-enter name s stacked x m =
      ground (arith, m, stacked x, contains-append x s.path_stack (name ∷ []))

  leave-Post :
      (name : Str) (pkg : ResolvedPackage) (stack : List Str) (s : State)
      → s.path_stack ≡ stack ++ name ∷ []
      → Stacked s
      → Post stack (ok (leave name pkg s))
  unfolding Post
  leave-Post name pkg stack s same stacked =
      let popped : pop s.path_stack ≡ stack = ap pop same ∙ pop-snoc stack name in
      (
        popped,
        λ x m.
            let on_stack = stacked x (ground (arith, m, contains-discard x name s.visiting)) in
            rw popped (
              ground (
                arith,
                m,
                contains-discard x name s.visiting,
                ap (contains x) same,
                on_stack,
                contains-append x stack (name ∷ []),
              )),
      )

  module _ (calm : IsCalm client) where
    select_version-calm :
        (name : Str) (reqs : List Requirement) (path : List Str)
        → select_version client name reqs ≢ err (cycle path)
    unfolding select_version
    select_version-calm name reqs path h = elim (>>=-eq-err (client.list_versions name) _ h) [
      | inl e ↦ calm.lists name path e
      | inr (vs, _, e) ↦ choose-calm name reqs vs path e
    ]

    recheck-calm :
        (name : Str) (reqs : List Requirement) (pkg : ResolvedPackage) (path : List Str)
        → recheck client name reqs pkg ≢ err (cycle path)
    recheck-calm name reqs pkg path h = elim (Option-cases (parse pkg.version)) [
      | inl e ↦ elim (List-cases reqs) [
        | inl q ↦ cc (rw (e, q, recheck) at h)
        | inr (r, rs, q) ↦ cc (rw (e, q, recheck) at h)
      ]
      | inr (v, e) ↦ elim (Bool-cases (all (λ q. satisfies q.constraint_set v) reqs)) [
        | inl m ↦ cc (rw (e, m, recheck) at h)
        | inr m ↦ elim (Result-cases (client.list_versions name)) [
          | inl (vs, q) ↦ cc (rw (e, m, q, recheck) at h)
          | inr (x, q) ↦
              let same : x ≡ cycle path = cc (rw (e, m, q, recheck) at h) in
              calm.lists name path (q ∙ ap err same)
        ]
      ]
    ]

    resolve_selected-Post :
        (resolve : Str → State → Result Error State) (name : Str) (s : State)
        → Rings resolve
        → Stacked s
        → Leads client s.path_stack name
        → Post s.path_stack (resolve_selected client resolve name s)
    unfolding resolve_selected
    resolve_selected-Post resolve name s rings stacked leads =
        calm-Post s.path_stack (select_version client name (requirements_of s.requirements name)) _
          (select_version-calm name (requirements_of s.requirements name))
          (λ version _.
            calm-Post s.path_stack (client.get_metadata name version) _ (calm.fetches name version)
              (λ meta fetched.
                Post->>= (s.path_stack ++ name ∷ []) s.path_stack
                  (resolve_deps resolve (at_sign name version) (sort_deps meta.deps) (enter name s))
                  _
                  (resolve_deps-Post resolve (at_sign name version) (sort_deps meta.deps)
                    (enter name s) rings (Stacked-enter name s stacked)
                    (λ x m.
                      Leads-snoc client s.path_stack name x leads
                        (version, meta, fetched, sym (contains-sort_deps x meta.deps) ∙ m)))
                  (λ s1 same stacked1.
                    leave-Post name
                      (record {
                        name = name;
                        version = version;
                        sha256 = meta.sha256;
                        deps = meta.deps;
                      })
                      s.path_stack s1 same stacked1)))

    resolve_new-Post :
        (resolve : Str → State → Result Error State) (name : Str) (s : State)
        → Rings resolve
        → Stacked s
        → Leads client s.path_stack name
        → Post s.path_stack (resolve_new client resolve name s)
    unfolding resolve_new Post
    resolve_new-Post resolve name s rings stacked leads =
        elim (List-cases (requirements_of s.requirements name)) [
          | inl e ↦ rw (e, resolve_new) tt
          | inr (r, rs, e) ↦
              rw (e, resolve_new) (resolve_selected-Post resolve name s rings stacked leads)
        ]

    resolve_name-Rings : (fuel : ℕ) → Rings (resolve_name client fuel)
    unfolding resolve_name Rings Post
    resolve_name-Rings zero name s stacked leads = tt
    resolve_name-Rings (suc fuel) name s stacked leads =
        elim (Bool-cases (contains name s.visiting)) [
          | inl e ↦
              rw (e, resolve_name)
                (from_index-IsRing client name s.path_stack (stacked name e) leads)
          | inr e ↦ elim (Option-cases (lookup name s.resolved)) [
            | inr (pkg, there) ↦
                let reqs = requirements_of s.requirements name in
                rw (e, there, resolve_name)
                  (calm-Post s.path_stack (recheck client name reqs pkg) (λ _. ok s)
                    (recheck-calm name reqs pkg) (λ _ _. (refl, stacked)))
            | inl absent ↦
                rw (e, absent, resolve_name)
                  (resolve_new-Post (resolve_name client fuel) name s (resolve_name-Rings fuel)
                    stacked leads)
          ]
        ]

    resolve_roots-Post :
        (fuel : ℕ) (names : List Str) (s : State)
        → Stacked s
        → s.path_stack ≡ []
        → Post [] (resolve_roots client fuel names s)
    unfolding resolve_roots Post Rings
    resolve_roots-Post fuel [] s stacked empty = (empty, stacked)
    resolve_roots-Post fuel (name ∷ names) s stacked empty =
        elim (Option-cases (lookup name s.resolved)) [
          | inr (pkg, there) ↦
              rw (there, resolve_roots) (resolve_roots-Post fuel names s stacked empty)
          | inl absent ↦
              rw (absent, resolve_roots)
                (Post->>= s.path_stack [] (resolve_name client fuel name s) _
                  (resolve_name-Rings fuel name s stacked
                    (subst (λ st. Leads client st name) (sym empty) tt))
                  (λ s1 same stacked1. resolve_roots-Post fuel names s1 stacked1 (same ∙ empty)))
        ]

    root_requirements-calm :
        (ds : List Dep) (r : Requirements) (path : List Str)
        → root_requirements ds r ≢ err (cycle path)
    unfolding root_requirements
    root_requirements-calm [] r path h = cc
    root_requirements-calm (d ∷ ds) r path h =
        elim (>>=-eq-err (make_requirement d pipeline_via) _ h) [
          | inl e ↦ make_requirement-calm d pipeline_via path e
          | inr (req, _, e) ↦ root_requirements-calm ds (add_requirement req r) path e
        ]

    resolve_state-Post : (fuel : ℕ) (deps : List Dep) → Post [] (resolve_state client fuel deps)
    unfolding resolve_state
    resolve_state-Post fuel deps =
        calm-Post [] (root_requirements (sort_deps deps) []) _
          (root_requirements-calm (sort_deps deps) [])
          (λ r _.
            resolve_roots-Post fuel (sort_names (keys r))
              (record { requirements = r; resolved = []; visiting = []; path_stack = [] })
              (λ x m. absurd (cc (m))) refl)

    -- A CycleError names packages that need one another in a ring.
    pub resolve-IsRing :
        (fuel : ℕ) (config : PipelineConfig) (path : List Str)
        → resolve client fuel config ≡ err (cycle path)
        → IsRing client path
    unfolding resolve Post
    resolve-IsRing fuel config path h =
        let deps = map as_dep config.dependencies in
        elim (>>=-eq-err (resolve_state client fuel deps) _ h) [
          | inl e ↦ subst (Post []) e (resolve_state-Post fuel deps)
          | inr (s, _, e) ↦ absurd (cc (e))
        ]
