-- ===== src/Resolver/Sound/Fuel.antt =====
-- registry/resolver.py, `_resolve_graph`: its recursion ends. Each nested call is on a name that is
-- not being visited, so that its depth is bounded by the number of the names that can be required.
use mathlib.Core.Path.{subst}
use forge_ci_cd_platform.Base.{
  ℕ, zero, suc, ◌+◌, ◌<◌, ◌≡◌, ◌≢◌, refl, ◌∙◌, sym, ap, inl, inr, List, [], ◌∷◌, ◌++◌, true, false,
  arith, Str, ◌==◌, all, length, contains, Nodup, Subset, All, length-le_of_Subset, Bool-cases,
  Option-cases, List-cases,
}
use forge_ci_cd_platform.Base.Dict.{lookup, keys, contains-keys-insert}
use forge_ci_cd_platform.Base.Result.{Result, ok, err, >>=-eq-ok, >>=-eq-err, Result-cases}
use forge_ci_cd_platform.Semver.{parse}
use forge_ci_cd_platform.Constraint.{satisfies}
use forge_ci_cd_platform.Resolver.{
  Error, out_of_fuel, Dep, PackageMeta, RegistryClient, Requirement, Requirements, requirements_of,
  add_requirement, ResolvedPackage, State, VersionKey, insert_dep, sort_deps, sort_names,
  first_text, choose, candidates, sort_descending, select_version, make_requirement, recheck, enter,
  resolve_deps, at_sign, resolve_selected, resolve_new, resolve_name, resolve_roots,
  root_requirements, pipeline_via, resolve_state,
}
use forge_ci_cd_platform.Resolver.Invariant.{InvBut, Inv}
use forge_ci_cd_platform.Resolver.Sound.Steps.{make_requirement_ok, adding, InvBut-adding, Resolves}
use forge_ci_cd_platform.Resolver.Sound.Sorts.{insert_dep_cases, contains-sort_names}
use forge_ci_cd_platform.Resolver.Sound.Leave.{Inv-enter}
use forge_ci_cd_platform.Resolver.Sound.Calls.{resolve_name_lem}
use forge_ci_cd_platform.Resolver.Sound.Roots.{fresh, Inv-fresh}

All-insert_dep :
    (P : Dep → Type 0) (d : Dep) (ds : List Dep) → P d → All P ds → All P (insert_dep d ds)
unfolding insert_dep
All-insert_dep P d [] p h = (p, tt)
All-insert_dep P d (e ∷ es) p h = elim (insert_dep_cases d e es) [
  | inl q ↦ rw q (p, h)
  | inr q ↦ rw q (h.0, All-insert_dep P d es p h.1)
]

All-sort_deps : (P : Dep → Type 0) (ds : List Dep) → All P ds → All P (sort_deps ds)
unfolding sort_deps
All-sort_deps P [] h = tt
All-sort_deps P (d ∷ ds) h = All-insert_dep P d (sort_deps ds) h.0 (All-sort_deps P ds h.1)

-- A client answers with exceptions of its own only, and the packages that it knows depend on names
-- of the list.
pub record IsBounded (client : RegistryClient) (names : List Str) : Type 0 where
  pub lists : (name : Str) → client.list_versions name ≢ err out_of_fuel
  pub fetches : (name version : Str) → client.get_metadata name version ≢ err out_of_fuel
  pub closed :
      (name version : Str) (meta : PackageMeta)
      → client.get_metadata name version ≡ ok meta
      → All (λ d. contains d.name names ≡ true) meta.deps

first_text-ends : (name : Str) (ks : List VersionKey) → first_text name ks ≢ err out_of_fuel
first_text-ends name [] h = cc
first_text-ends name (k ∷ ks) h = cc

choose-ends :
    (name : Str) (reqs : List Requirement) (vs : List Str) → choose name reqs vs ≢ err out_of_fuel
choose-ends name reqs [] h = cc
choose-ends name reqs (v ∷ vs) h =
    first_text-ends name (sort_descending (candidates reqs (v ∷ vs))) h

make_requirement-ends : (d : Dep) (via : Str) → make_requirement d via ≢ err out_of_fuel
make_requirement-ends d via h = ground arith

module _ (client : RegistryClient) (names : List Str) (bounded : IsBounded client names) where
  select_version-ends :
      (name : Str) (reqs : List Requirement) → select_version client name reqs ≢ err out_of_fuel
  unfolding select_version
  select_version-ends name reqs h = elim (>>=-eq-err (client.list_versions name) _ h) [
    | inl e ↦ bounded.lists name e
    | inr (vs, _, e) ↦ choose-ends name reqs vs e
  ]

  recheck-ends :
      (name : Str) (reqs : List Requirement) (pkg : ResolvedPackage)
      → recheck client name reqs pkg ≢ err out_of_fuel
  recheck-ends name [] pkg h = elim (Option-cases (parse pkg.version)) [
    | inl e ↦ cc (rw (e, recheck) at h)
    | inr (v, e) ↦ cc (rw (e, recheck) at h)
  ]
  recheck-ends name (r ∷ rs) pkg h = elim (Option-cases (parse pkg.version)) [
    | inl e ↦ cc (rw (e, recheck) at h)
    | inr (v, e) ↦ elim (Bool-cases (all (λ q. satisfies q.constraint_set v) (r ∷ rs))) [
      | inl m ↦ cc (rw (e, m, recheck) at h)
      | inr m ↦ elim (Result-cases (client.list_versions name)) [
        | inl (vs, q) ↦ cc (rw (e, m, q, recheck) at h)
        | inr (x, q) ↦
            let same : x ≡ out_of_fuel = cc (rw (e, m, q, recheck) at h) in
            bounded.lists name (q ∙ ap err same)
      ]
    ]
  ]

  -- A recursive call with the given names being visited does not run out of fuel.
  Ends : List Str → (Str → State → Result Error State) → Type 0
  Ends visiting resolve =
      (name : Str) (s : State)
      → InvBut client name s
      → contains name names ≡ true
      → s.visiting ≡ visiting
      → resolve name s ≢ err out_of_fuel

  resolve_deps-Ends :
      (resolve : Str → State → Result Error State) (via : Str) (visiting : List Str) (ds : List Dep)
      (s : State)
      → Resolves client resolve
      → Ends visiting resolve
      → All (λ d. contains d.name names ≡ true) ds
      → Inv client s
      → s.visiting ≡ visiting
      → resolve_deps resolve via ds s ≢ err out_of_fuel
  unfolding resolve_deps Ends
  resolve_deps-Ends resolve via visiting [] s spec ends known inv same h = cc
  resolve_deps-Ends resolve via visiting (d ∷ ds) s spec ends known inv same h =
      elim (>>=-eq-err (make_requirement d via) _ h) [
        | inl e ↦ make_requirement-ends d via e
        | inr (req, e, h1) ↦
            let (named, _) = make_requirement_ok d via e in
            let but =
              subst (λ n. InvBut client n (adding req s)) named (InvBut-adding client req s inv) in
            elim (>>=-eq-err (resolve d.name (adding req s)) _ h1) [
              | inl e1 ↦ ends d.name (adding req s) but known.0 same e1
              | inr (s1, e1, h2) ↦
                  let done = spec d.name (adding req s) s1 but e1 in
                  resolve_deps-Ends resolve via visiting ds s1 spec ends known.1 done.inv
                    (done.grows.visiting ∙ same) h2
            ]
      ]

  resolve_selected-Ends :
      (resolve : Str → State → Result Error State) (visiting : List Str) (name : Str) (s : State)
      → Resolves client resolve
      → Ends visiting resolve
      → Inv client (enter name s)
      → (enter name s).visiting ≡ visiting
      → resolve_selected client resolve name s ≢ err out_of_fuel
  unfolding resolve_selected
  resolve_selected-Ends resolve visiting name s spec ends inv same h =
      elim (>>=-eq-err (select_version client name (requirements_of s.requirements name)) _ h) [
        | inl e ↦ select_version-ends name (requirements_of s.requirements name) e
        | inr (version, _, h1) ↦ elim (>>=-eq-err (client.get_metadata name version) _ h1) [
          | inl e ↦ bounded.fetches name version e
          | inr (meta, fetched, h2) ↦
              elim (>>=-eq-err
                (resolve_deps resolve (at_sign name version) (sort_deps meta.deps) (enter name s)) _
                h2) [
                  | inl e ↦
                      resolve_deps-Ends resolve (at_sign name version) visiting
                        (sort_deps meta.deps) (enter name s) spec ends
                        (All-sort_deps (λ d. contains d.name names ≡ true) meta.deps
                          (bounded.closed name version meta fetched))
                        inv same e
                  | inr (s1, _, e) ↦ cc
                ]
        ]
      ]

  resolve_new-Ends :
      (resolve : Str → State → Result Error State) (visiting : List Str) (name : Str) (s : State)
      → Resolves client resolve
      → Ends visiting resolve
      → Inv client (enter name s)
      → (enter name s).visiting ≡ visiting
      → resolve_new client resolve name s ≢ err out_of_fuel
  unfolding resolve_new
  resolve_new-Ends resolve visiting name s spec ends inv same h =
      elim (List-cases (requirements_of s.requirements name)) [
        | inl e ↦ cc (rw (e, resolve_new) at h)
        | inr (r, rs, e) ↦
            resolve_selected-Ends resolve visiting name s spec ends inv same
              (rw (e, resolve_new) at h)
      ]

  -- With more fuel than names that are not being visited, a call does not run out of it.
  resolve_name-Ends :
      (fuel : ℕ) (visiting : List Str)
      → Nodup visiting
      → Subset visiting names
      → length names < fuel + length visiting
      → Ends visiting (resolve_name client fuel)
  unfolding resolve_name Ends
  resolve_name-Ends zero visiting unique within room name s inv known same h =
      omega (arith, length-le_of_Subset visiting names unique within, room)
  resolve_name-Ends (suc fuel) visiting unique within room name s inv known same h =
      elim (Bool-cases (contains name s.visiting)) [
        | inl e ↦ cc (rw (e, resolve_name) at h)
        | inr e ↦ elim (Option-cases (lookup name s.resolved)) [
          | inr (pkg, there) ↦
              elim (>>=-eq-err (recheck client name (requirements_of s.requirements name) pkg) _
                (rw (e, there, resolve_name) at h)) [
                  | inl r ↦ recheck-ends name (requirements_of s.requirements name) pkg r
                  | inr (_, _, r) ↦ cc
                ]
          | inl absent ↦
              let fresh_name : contains name visiting ≡ false = rw (← same) e in
              let entered : (enter name s).visiting ≡ name ∷ visiting = ground (arith, e, same) in
              let inner =
                resolve_name-Ends fuel (name ∷ visiting) (fresh_name, unique)
                  (λ x m. elim (Bool-cases (x == name)) [
                    | inl p ↦ let x_is : x ≡ name = ground (arith, p) in rw x_is known
                    | inr p ↦ within x (ground (arith, p, m))
                  ])
                  (omega (arith, room)) in
              resolve_new-Ends (resolve_name client fuel) (name ∷ visiting) name s
                (resolve_name_lem client fuel) inner (Inv-enter client name s inv absent) entered
                (rw (e, absent, resolve_name) at h)
        ]
      ]

  InvBut-Inv : (name : Str) (s : State) → Inv client s → InvBut client name s
  InvBut-Inv name s inv = record {
    meets = λ x pkg _ h. inv.meets x pkg h;
    known = inv.known;
    apart = inv.apart;
  }

  resolve_roots-ends :
      (fuel : ℕ) (roots : List Str) (s : State)
      → length names < fuel
      → Subset roots names
      → Inv client s
      → s.visiting ≡ []
      → resolve_roots client fuel roots s ≢ err out_of_fuel
  unfolding resolve_roots Ends
  resolve_roots-ends fuel [] s room within inv same h = cc
  resolve_roots-ends fuel (name ∷ roots) s room within inv same h =
      let rest : Subset roots names = λ x m. within x (ground (arith, m)) in
      elim (Option-cases (lookup name s.resolved)) [
        | inr (pkg, there) ↦
            resolve_roots-ends fuel roots s room rest inv same (rw (there, resolve_roots) at h)
        | inl absent ↦
            elim (>>=-eq-err (resolve_name client fuel name s) _
              (rw (absent, resolve_roots) at h)) [
                | inl e ↦
                    resolve_name-Ends fuel [] tt (λ x m. cc) (omega (arith, room)) name s
                      (InvBut-Inv name s inv) (within name (ground arith)) same e
                | inr (s1, e, h1) ↦
                    let done = resolve_name_lem client fuel name s s1 (InvBut-Inv name s inv) e in
                    resolve_roots-ends fuel roots s1 room rest done.inv (done.grows.visiting ∙ same)
                      h1
              ]
      ]

keys-root_requirements :
    (names : List Str) (ds : List Dep) (r r' : Requirements)
    → All (λ d. contains d.name names ≡ true) ds
    → Subset (keys r) names
    → root_requirements ds r ≡ ok r'
    → Subset (keys r') names
unfolding root_requirements add_requirement
keys-root_requirements names [] r r' known within h =
    let same : r ≡ r' = ground (arith, h) in subst (λ q. Subset (keys q) names) same within
keys-root_requirements names (d ∷ ds) r r' known within h =
    let (req, e, h1) = >>=-eq-ok (make_requirement d pipeline_via) _ h in
    let (named, _) = make_requirement_ok d pipeline_via e in
    keys-root_requirements names ds (add_requirement req r) r' known.1
      (λ x m. elim (Bool-cases (x == req.name)) [
        | inl p ↦ let x_is : x ≡ d.name = ground (arith, p, named) in rw x_is known.0
        | inr p ↦ within x (
            ground (
              arith,
              p,
              m,
              contains-keys-insert x req.name (requirements_of r req.name ++ req ∷ []) r,
            ))
      ])
      h1

root_requirements-ends :
    (ds : List Dep) (r : Requirements) → root_requirements ds r ≢ err out_of_fuel
unfolding root_requirements
root_requirements-ends [] r h = cc
root_requirements-ends (d ∷ ds) r h = elim (>>=-eq-err (make_requirement d pipeline_via) _ h) [
  | inl e ↦ make_requirement-ends d pipeline_via e
  | inr (req, _, e) ↦ root_requirements-ends ds (add_requirement req r) e
]

-- The resolution ends: if the pipeline's dependencies, and those of every package that the client
-- knows, are among finitely many names, then fuel above their number is never used up, so that the
-- outcome is the program's own result or exception.
pub resolve_state-ends :
    (client : RegistryClient) (names : List Str) (fuel : ℕ) (deps : List Dep)
    → IsBounded client names
    → All (λ d. contains d.name names ≡ true) deps
    → length names < fuel
    → resolve_state client fuel deps ≢ err out_of_fuel
unfolding resolve_state
resolve_state-ends client names fuel deps bounded known room h =
    let sorted = All-sort_deps (λ d. contains d.name names ≡ true) deps known in
    elim (>>=-eq-err (root_requirements (sort_deps deps) []) _ h) [
      | inl e ↦ root_requirements-ends (sort_deps deps) [] e
      | inr (r, e, h1) ↦
          let within = keys-root_requirements names (sort_deps deps) [] r sorted (λ x m. cc) e in
          resolve_roots-ends client names bounded fuel (sort_names (keys r)) (fresh r) room
            (λ x m. within x (sym (contains-sort_names x (keys r)) ∙ m)) (Inv-fresh client r) refl
            h1
    ]
