-- ===== src/Resolver/Lockfile.antt =====
-- registry/resolver.py, `resolve`, `_build_lockfile` and `lockfile_as_deps_dict`: what the runner is
-- given to pull is the resolution.
use mathlib.Core.Path.{subst}
use forge_ci_cd_platform.Base.{
  ℕ, ◌≡◌, refl, inl, inr, List, [], ◌∷◌, Option, some, none, arith, Str, if◌then◌else◌, contains,
  map, Option-cases,
}
use forge_ci_cd_platform.Base.Dict.{
  Dict, keys, lookup, insert, lookup-insert, contains-keys_of_lookup,
}
use forge_ci_cd_platform.Base.Result.{ok, >>=-eq-ok}
use forge_ci_cd_platform.Pipeline.{PipelineConfig}
use forge_ci_cd_platform.Resolver.{
  RegistryClient, ResolvedPackage, LockedPackage, build_lockfile, lockfile_as_deps_dict, resolve,
  resolve_state, as_dep, sort_names,
}
use forge_ci_cd_platform.Resolver.Sound.{IsSolution, resolve_state-IsSolution, contains-sort_names}

-- What the lockfile says of a package.
abbrev pub locked : Option ResolvedPackage → Option LockedPackage
locked none = none
locked (some pkg) = some (record { name = pkg.name; version = pkg.version; sha256 = pkg.sha256 })

abbrev or_else : Option LockedPackage → Option LockedPackage → Option LockedPackage
or_else none o = o
or_else (some p) o = some p

-- Every package is recorded under its own name.
abbrev Named : Dict ResolvedPackage → Type 0
Named resolved = (x : Str) (pkg : ResolvedPackage) → lookup x resolved ≡ some pkg → pkg.name ≡ x

lookup-lockfile :
    (resolved : Dict ResolvedPackage) (named : Named resolved) (names : List Str)
    (d : Dict LockedPackage) (x : Str)
    → lookup x (lockfile_as_deps_dict (build_lockfile resolved names) d)
      ≡ (if contains x names then or_else (locked (lookup x resolved)) (lookup x d) else lookup x d)
unfolding build_lockfile lockfile_as_deps_dict
lookup-lockfile resolved named [] d x = refl
lookup-lockfile resolved named (name ∷ names) d x = elim (Option-cases (lookup name resolved)) [
  | inl e ↦
      let ih = lookup-lockfile resolved named names d x in
      rw (e, build_lockfile) (ground (arith, ih, e))
  | inr (pkg, e) ↦
      let p : LockedPackage = record {
        name = pkg.name;
        version = pkg.version;
        sha256 = pkg.sha256;
      } in
      let ih = lookup-lockfile resolved named names (insert pkg.name p d) x in
      let same = named name pkg e in
      rw (e, build_lockfile) (ground (arith, ih, e, same, lookup-insert x pkg.name p d))
]

-- A successful `resolve` has a solution of the pipeline's dependencies behind it, and the dictionary
-- that the lockfile is turned into has just the packages of that solution, each under its name with
-- its version and checksum.
pub resolve_lockfile :
    (client : RegistryClient) (fuel : ℕ) (config : PipelineConfig) (lockfile : List LockedPackage)
    → resolve client fuel config ≡ ok lockfile
    → (resolved : Dict ResolvedPackage) × IsSolution client
        (map as_dep config.dependencies)
        resolved
      × ((x : Str) → lookup x (lockfile_as_deps_dict lockfile []) ≡ locked (lookup x resolved))
unfolding resolve
resolve_lockfile client fuel config lockfile h =
    let (s, e, h1) = >>=-eq-ok (resolve_state client fuel (map as_dep config.dependencies)) _ h in
    let solution = resolve_state-IsSolution client fuel (map as_dep config.dependencies) s e in
    let named : Named s.resolved = λ x pkg there. (solution.packages x pkg there).1 in
    let names = sort_names (keys s.resolved) in
    let same : build_lockfile s.resolved names ≡ lockfile = ground (arith, h1) in
    (
      s.resolved,
      solution,
      λ x.
          let found = lookup-lockfile s.resolved named names [] x in
          let known = contains-sort_names x (keys s.resolved) in
          subst (λ l. lookup x (lockfile_as_deps_dict l []) ≡ locked (lookup x s.resolved)) same
            (elim (Option-cases (lookup x s.resolved)) [
              | inl e ↦ ground (arith, found, e)
              | inr (pkg, e) ↦
                  ground (arith, found, known, contains-keys_of_lookup x s.resolved e, e)
            ]),
    )
