-- ===== src/Resolver/Sound/Calls.antt =====
-- registry/resolver.py, `resolve_name`: what a successful call keeps.
use mathlib.Core.Path.{subst}
use mathlib.Core.Option.{some-injective}
use forge_ci_cd_platform.Base.{
  ℕ, zero, suc, ◌≡◌, refl, ◌∙◌, sym, ap, inl, inr, List, some, none, false, arith, Str, ◌==◌, all,
  contains, Bool-cases, Option-cases, List-cases,
}
use forge_ci_cd_platform.Base.Dict.{lookup}
use forge_ci_cd_platform.Base.Result.{Result, ok, ◌>>◌, >>=-eq-ok, Result-cases}
use forge_ci_cd_platform.Semver.{SemVer, parse}
use forge_ci_cd_platform.Constraint.{satisfies}
use forge_ci_cd_platform.Resolver.{
  Error, PackageMeta, RegistryClient, Requirement, requirements_of, ResolvedPackage, State,
  sort_deps, recheck, enter, leave, resolve_deps, at_sign, resolve_new, resolve_selected,
  resolve_name, select_version,
}
use forge_ci_cd_platform.Resolver.Select.{Meets, select_version-IsChosen}
use forge_ci_cd_platform.Resolver.Invariant.{Fits, Locked, IsPackage, InvBut, Grows-refl}
use forge_ci_cd_platform.Resolver.Sound.Steps.{Done, Resolves, resolve_deps_lem}
use forge_ci_cd_platform.Resolver.Sound.Sorts.{All_of_sort_deps}
use forge_ci_cd_platform.Resolver.Sound.Leave.{
  Inv-enter, entered, Inv-leave, Grows-leave, lookup-leave_self,
}

pub resolve_new_selected :
    (client : RegistryClient) (resolve : Str → State → Result Error State) (name : Str) (s : State)
    {s' : State}
    → resolve_new client resolve name s ≡ ok s'
    → resolve_selected client resolve name s ≡ ok s'
unfolding resolve_new
resolve_new_selected client resolve name s h =
    elim (List-cases (requirements_of s.requirements name)) [
      | inl e ↦ absurd (cc (rw (e, resolve_new) at h))
      | inr (r, rs, e) ↦ rw (e, resolve_new) at h
    ]

-- The steps of a successful call on a new package.
pub resolve_new_inversion :
    (client : RegistryClient) (resolve : Str → State → Result Error State) (name : Str)
    (s s' : State)
    → resolve_new client resolve name s ≡ ok s'
    → (version : Str) × (meta : PackageMeta) × (s1 : State) × (select_version client name
          (requirements_of s.requirements name)
        ≡ ok version)
      × (client.get_metadata name version ≡ ok meta)
      × (resolve_deps resolve (at_sign name version) (sort_deps meta.deps) (enter name s) ≡ ok s1)
      × (leave name
            (record { name = name; version = version; sha256 = meta.sha256; deps = meta.deps })
            s1
          ≡ s')
unfolding resolve_selected
resolve_new_inversion client resolve name s s' h =
    let rest = resolve_new_selected client resolve name s h in
    let (version, e1, h1) =
      >>=-eq-ok (select_version client name (requirements_of s.requirements name)) _ rest in
    let (meta, e2, h2) = >>=-eq-ok (client.get_metadata name version) _ h1 in
    let (s1, e3, h3) =
      >>=-eq-ok (resolve_deps resolve (at_sign name version) (sort_deps meta.deps) (enter name s)) _
        h2 in
    (version, meta, s1, e1, e2, e3, ground (arith, h3))

-- A package that is neither visited nor resolved.
pub resolve_new_lem :
    (client : RegistryClient) (resolve : Str → State → Result Error State) (name : Str)
    (s s' : State)
    → Resolves client resolve
    → InvBut client name s
    → contains name s.visiting ≡ false
    → lookup name s.resolved ≡ none
    → resolve_new client resolve name s ≡ ok s'
    → Done client name s s'
resolve_new_lem client resolve name s s' spec inv new absent h =
    let (version, meta, s1, selects, fetched, loops, ends) =
      resolve_new_inversion client resolve name s s' h in
    let chosen =
      select_version-IsChosen client name (requirements_of s.requirements name) version selects in
    let pkg : ResolvedPackage = record {
      name = name;
      version = version;
      sha256 = meta.sha256;
      deps = meta.deps;
    } in
    let (inv1, grows1, locked) =
      resolve_deps_lem client resolve (at_sign name version) (sort_deps meta.deps) (enter name s) s1
        spec (Inv-enter client name s inv absent) loops in
    let parses : parse version ≡ some chosen.key.parsed =
      ap parse (sym chosen.text) ∙ chosen.candidate.parses in
    let frozen =
      grows1.frozen name (rw (entered client name s s1 pkg inv1 grows1 new) (ground arith)) in
    let is_package : IsPackage client s1 name pkg = record {
      name = refl;
      version = chosen.key.parsed;
      parses = parses;
      meta = meta;
      fetched = fetched;
      sha256 = refl;
      deps = All_of_sort_deps (Locked s1) meta.deps locked;
    } in
    let fits : Fits s1.requirements name pkg =
      (chosen.key.parsed, parses, rw frozen chosen.candidate.meets) in
    subst (Done client name s) ends (record {
      inv = Inv-leave client name s s1 pkg inv1 grows1 new is_package fits;
      grows = Grows-leave client name s s1 pkg inv1 grows1 new;
      new = new;
      pkg = pkg;
      resolved = lookup-leave_self client name s s1 pkg inv1 grows1 new;
    })

pub recheck-Meets :
    (client : RegistryClient) (name : Str) (reqs : List Requirement) (pkg : ResolvedPackage)
    (v : SemVer)
    → parse pkg.version ≡ some v
    → recheck client name reqs pkg ≡ ok tt
    → Meets reqs v
recheck-Meets client name reqs pkg v p h =
    elim (Bool-cases (all (λ r. satisfies r.constraint_set v) reqs)) [
      | inl e ↦ e
      | inr e ↦ elim (Result-cases (client.list_versions name)) [
        | inl (vs, q) ↦ absurd (cc (rw (p, e, q, recheck) at h))
        | inr (x, q) ↦ absurd (cc (rw (p, e, q, recheck) at h))
      ]
    ]

-- A package that is resolved already is checked against the new requirement.
pub resolved_lem :
    (client : RegistryClient) (name : Str) (s s' : State) (pkg : ResolvedPackage)
    → InvBut client name s
    → contains name s.visiting ≡ false
    → lookup name s.resolved ≡ some pkg
    → (recheck client name (requirements_of s.requirements name) pkg >> ok s) ≡ ok s'
    → Done client name s s'
resolved_lem client name s s' pkg inv new there h =
    let (_, checked, h1) =
      >>=-eq-ok (recheck client name (requirements_of s.requirements name) pkg) _ h in
    let known = inv.known name pkg there in
    let meets : Meets (requirements_of s.requirements name) known.version =
      recheck-Meets client name (requirements_of s.requirements name) pkg known.version known.parses
        checked in
    let same : s ≡ s' = ground (arith, h1) in
    subst (Done client name s) same (record {
      inv = record {
        meets = λ x q k. elim (Bool-cases (x == name)) [
          | inl e ↦
              let x_is : x ≡ name = ground (arith, e) in
              let q_is : pkg ≡ q =
                some-injective pkg q (sym there ∙ ap (λ y. lookup y s.resolved) (sym x_is) ∙ k) in
              subst (λ y. Fits s.requirements y q) (sym x_is)
                (subst (λ p. Fits s.requirements name p) q_is (known.version, known.parses, meets))
          | inr e ↦ inv.meets x q (ground (arith, e)) k
        ];
        known = inv.known;
        apart = inv.apart;
      };
      grows = Grows-refl s;
      new = new;
      pkg = pkg;
      resolved = there;
    })

pub resolve_name_lem :
    (client : RegistryClient) (fuel : ℕ) → Resolves client (resolve_name client fuel)
unfolding resolve_name
resolve_name_lem client zero name s s' inv h = cc
resolve_name_lem client (suc fuel) name s s' inv h = elim (Bool-cases (contains name s.visiting)) [
  | inl e ↦ absurd (cc (rw (e, resolve_name) at h))
  | inr e ↦ elim (Option-cases (lookup name s.resolved)) [
    | inl absent ↦
        resolve_new_lem client (resolve_name client fuel) name s s' (resolve_name_lem client fuel)
          inv e absent (rw (e, absent, resolve_name) at h)
    | inr (pkg, there) ↦
        resolved_lem client name s s' pkg inv e there (rw (e, there, resolve_name) at h)
  ]
]
