-- ===== src/Resolver/Sound.antt =====
-- registry/resolver.py, `_resolve_graph` and `resolve`: a resolution that succeeds is consistent.
mod Steps
pub mod Sorts
mod Leave
mod Calls
mod Roots
pub mod Fuel
use forge_ci_cd_platform.Base.{All-imp, ℕ, ◌≡◌, ◌∙◌, List, [], some, true, Str, contains, All}
use forge_ci_cd_platform.Base.Dict.{Dict, lookup, keys}
use forge_ci_cd_platform.Base.Result.{ok, ◌>>=◌, ◌>>◌, >>=-eq-ok}
use forge_ci_cd_platform.Semver.{SemVer, parse}
use forge_ci_cd_platform.Constraint.{ConstraintSet, satisfies, from_string}
use forge_ci_cd_platform.Resolver.{
  Dep, PackageMeta, RegistryClient, ResolvedPackage, State, sort_deps, root_requirements,
  resolve_state, sort_names,
}
use forge_ci_cd_platform.Resolver.Invariant.{Recorded, Locked, Inv}
use forge_ci_cd_platform.Resolver.Sound.Sorts.{All_of_sort_deps}
pub use forge_ci_cd_platform.Resolver.Sound.Sorts.{contains-sort_names}
use forge_ci_cd_platform.Resolver.Sound.Roots.{
  resolve_roots_lem, fresh, Inv-fresh, root_requirements_lem,
}

-- The resolution has the dependency's package, at a version that its constraint admits.
abbrev Satisfied : Dict ResolvedPackage → Dep → Type 0
Satisfied resolved d =
    (pkg : ResolvedPackage) × (cs : ConstraintSet) × (v : SemVer) × (lookup d.name resolved
      ≡ some pkg)
    × (from_string d.version ≡ some cs)
    × (parse pkg.version ≡ some v)
    × (satisfies cs v ≡ true)

-- Every entry is what the registry says of that version, and the dependencies of the entries, as
-- well as the given ones, are satisfied.
pub record IsSolution (client : RegistryClient) (deps : List Dep) (resolved : Dict ResolvedPackage)
    : Type 0 where
  pub roots : All (Satisfied resolved) deps
  pub packages :
      (x : Str) (pkg : ResolvedPackage)
      → lookup x resolved ≡ some pkg
      → (meta : PackageMeta) × (pkg.name ≡ x)
        × (client.get_metadata x pkg.version ≡ ok meta)
        × (pkg.sha256 ≡ meta.sha256)
        × All (Satisfied resolved) meta.deps

Satisfied_of_Locked :
    (client : RegistryClient) (s : State)
    → Inv client s
    → (d : Dep) → Locked s d
    → Satisfied s.resolved d
Satisfied_of_Locked client s inv d ((pkg, there), (cs, e, r)) =
    let (v, p, m) = inv.meets d.name pkg there in (pkg, cs, v, there, e, p, r v m)

-- A resolution that succeeds is a solution: each dependency of the pipeline, and each dependency of
-- a resolved package, has one resolved package, whose version satisfies the constraint; and each
-- resolved package has the checksum that the registry's metadata of its version name.
pub resolve_state-IsSolution :
    (client : RegistryClient) (fuel : ℕ) (deps : List Dep) (s : State)
    → resolve_state client fuel deps ≡ ok s
    → IsSolution client deps s.resolved
unfolding resolve_state
resolve_state-IsSolution client fuel deps s h =
    let (r, e, h1) = >>=-eq-ok (root_requirements (sort_deps deps) []) _ h in
    let (_, _, recorded) = root_requirements_lem (sort_deps deps) [] r e in
    let (inv, grows, all_in) =
      resolve_roots_lem client fuel (sort_names (keys r)) (fresh r) s (Inv-fresh client r) h1 in
    let lock : (d : Dep)
        → (contains d.name (keys r) ≡ true) × Recorded r d
        → Satisfied s.resolved d =
      λ d (m, (cs, p, f)). Satisfied_of_Locked client s inv d (
        all_in d.name (contains-sort_names d.name (keys r) ∙ m),
        (cs, p, λ v n. f v (grows.narrows d.name v n)),
      ) in
    record {
      roots = All_of_sort_deps (Satisfied s.resolved) deps (All-imp (sort_deps deps) lock recorded);
      packages = λ x pkg there.
          let known = inv.known x pkg there in
          (
            known.meta,
            known.name,
            known.fetched,
            known.sha256,
            All-imp known.meta.deps (Satisfied_of_Locked client s inv) known.deps,
          );
    }
