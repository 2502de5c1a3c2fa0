-- ===== src/Resolver/Memory.antt =====
-- registry/resolver.py, `InMemoryRegistry`: a finite client, for which resolutions end.
use forge_ci_cd_platform.Base.{◌≡◌, ◌≢◌, inl, inr, List, true, Str, contains, All, Option-cases}
use forge_ci_cd_platform.Base.Dict.{Dict, keys, values, lookup, lookup-All}
use forge_ci_cd_platform.Base.Result.{err}
use forge_ci_cd_platform.Resolver.{PackageMeta, out_of_fuel}
use forge_ci_cd_platform.Resolver.Registry.{Packages, in_memory, sort_versions, version_keys}
use forge_ci_cd_platform.Resolver.Sound.Fuel.{IsBounded}

-- Every dependency of every package has a name of the list.
abbrev pub DependOn : List Str → Packages → Type 0
DependOn names packages =
    All
      (λ (versions : Dict PackageMeta).
        All (λ (m : PackageMeta). All (λ d. contains d.name names ≡ true) m.deps) (values versions))
      (values packages)

sort_versions-ends : (vs : List Str) → sort_versions vs ≢ err out_of_fuel
unfolding sort_versions
sort_versions-ends vs h = elim (Option-cases (version_keys vs)) [
  | inl e ↦ cc (rw (e, sort_versions) at h)
  | inr (ks, e) ↦ cc (rw (e, sort_versions) at h)
]

pub in_memory-IsBounded :
    (names : List Str) (packages : Packages)
    → DependOn names packages
    → IsBounded (in_memory packages) names
unfolding in_memory
in_memory-IsBounded names packages depend = record {
  lists = λ name h. elim (Option-cases (lookup name packages)) [
    | inl e ↦ cc (rw (e, in_memory) at h)
    | inr (versions, e) ↦ sort_versions-ends (keys versions) (rw (e, in_memory) at h)
  ];
  fetches = λ name version h. elim (Option-cases (lookup name packages)) [
    | inl e ↦ cc (rw (e, in_memory) at h)
    | inr (versions, e) ↦ elim (Option-cases (lookup version versions)) [
      | inl p ↦ cc (rw (e, p, in_memory) at h)
      | inr (m, p) ↦ cc (rw (e, p, in_memory) at h)
    ]
  ];
  closed = λ name version meta h. elim (Option-cases (lookup name packages)) [
    | inl e ↦ absurd (cc (rw (e, in_memory) at h))
    | inr (versions, e) ↦ elim (Option-cases (lookup version versions)) [
      | inl p ↦ absurd (cc (rw (e, p, in_memory) at h))
      | inr (m, p) ↦
          let same : m ≡ meta = cc (rw (e, p, in_memory) at h) in
          rw (← same)
            (lookup-All _ version versions m (lookup-All _ name packages versions depend e) p)
    ]
  ];
}
