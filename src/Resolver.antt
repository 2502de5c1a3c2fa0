-- ===== src/Resolver.antt =====
-- registry/resolver.py, `DependencyResolver`, over a registry client that is an argument. Packages
-- are resolved by recursion over the graph of dependencies, with fuel for its depth.
mod Client
pub mod Registry
pub mod Select
pub mod Invariant
pub mod Sound
pub mod Memory
pub mod Lockfile
pub mod Rings
mod Samples
mod Choices
mod Tests
use forge_ci_cd_platform.Base.{
  ℕ, zero, suc, List, [], ◌∷◌, ◌++◌, none, some, map, Str, if◌then◌else◌, all, contains, set_add,
  discard, codes,
}
use forge_ci_cd_platform.Base.Dict.{Dict, keys, lookup, insert}
use forge_ci_cd_platform.Base.Result.{Result, ok, err, ◌>>=◌, ◌>>◌}
use forge_ci_cd_platform.Pipeline.{PipelineDependency, PipelineConfig}
use forge_ci_cd_platform.Semver.{parse, VersionKey}
use forge_ci_cd_platform.Constraint.{satisfies, from_string}
use forge_ci_cd_platform.Scheduler.{from_index, pop}
unfoldable pub use forge_ci_cd_platform.Resolver.Client.*

-- The loop over the available versions: those that parse and satisfy every requirement, each kept
-- with what `version_key` makes of it.
pub candidates : List Requirement → List Str → List VersionKey
candidates reqs [] = []
candidates reqs (ver ∷ vers) =
    let rest = candidates reqs vers in
    elim (parse ver) [
      | none ↦ rest
      | some v ↦
          if all (λ r. satisfies r.constraint_set v) reqs
          then record { parsed = v; text = ver } ∷ rest
          else rest
    ]

-- `_raise_conflict`: each constraint is expanded again for the message, which is not modelled. The
-- texts parsed when their requirements were made.
abbrev pub raise_conflict : {A : Type 0} → Str → Result Error A
raise_conflict name = err (conflict name)

abbrev pub first_text : Str → List VersionKey → Result Error Str
first_text name [] = raise_conflict name
first_text name (k ∷ ks) = ok k.text

-- The choice among the versions that the registry lists.
abbrev pub choose : Str → List Requirement → List Str → Result Error Str
choose name reqs [] = err (not_found name)
choose name reqs (v ∷ vs) = first_text name (sort_descending (candidates reqs (v ∷ vs)))

-- `_select_version`
pub select_version : RegistryClient → Str → List Requirement → Result Error Str
unfolding candidates sort_descending
select_version client name reqs = do
  available ← client.list_versions name
  choose name reqs available

abbrev pub make_requirement : Dep → Str → Result Error Requirement
make_requirement d via = elim (from_string d.version) [
  | none ↦ err value_error
  | some cs ↦ ok (record { name = d.name; constraint = d.version; constraint_set = cs; via = via })
]

-- The dictionaries and the stack that the recursion shares.
pub record State : Type 0 where
  pub requirements : Requirements
  pub resolved : Dict ResolvedPackage
  pub visiting : List Str
  pub path_stack : List Str

-- A package that is resolved is checked against every requirement on it. The available versions
-- are fetched for the message.
abbrev pub recheck :
    RegistryClient → Str → List Requirement → ResolvedPackage → Result Error (Unit {0})
recheck client name reqs pkg = elim (parse pkg.version) [
  | none ↦ elim reqs [ [] ↦ ok tt | r ∷ rs ↦ err value_error ]
  | some v ↦
      if all (λ r. satisfies r.constraint_set v) reqs
      then ok tt
      else (do available ← client.list_versions name; raise_conflict name)
]

abbrev pub enter : Str → State → State
enter name s = record s {
  visiting = set_add name s.visiting;
  path_stack = s.path_stack ++ name ∷ [];
}

abbrev pub leave : Str → ResolvedPackage → State → State
leave name pkg s = record s {
  resolved = insert name pkg s.resolved;
  visiting = discard name s.visiting;
  path_stack = pop s.path_stack;
}

-- The loop over the dependencies of a package, with the recursive call as an argument.
pub resolve_deps : (Str → State → Result Error State) → Str → List Dep → State → Result Error State
unfolding add_requirement
resolve_deps resolve_name via [] s = ok s
resolve_deps resolve_name via (d ∷ ds) s = do
  req ← make_requirement d via
  s' ← resolve_name d.name (record s { requirements = add_requirement req s.requirements })
  resolve_deps resolve_name via ds s'

abbrev pub at_sign : Str → Str → Str
at_sign name version = name ++ codes "@" ++ version

module _ (client : RegistryClient) where
  -- Selects a version, fetches its metadata, and resolves its dependencies in alphabetical order.
  pub resolve_selected : (Str → State → Result Error State) → Str → State → Result Error State
  resolve_selected resolve_name name s = do
    version ← select_version client name (requirements_of s.requirements name)
    meta ← client.get_metadata name version
    s' ← resolve_deps resolve_name (at_sign name version) (sort_deps meta.deps) (enter name s)
    ok (
        leave name
          (record { name = name; version = version; sha256 = meta.sha256; deps = meta.deps }) s')

  -- The part of `resolve_name` for a package that is neither being visited nor resolved.
  pub resolve_new : (Str → State → Result Error State) → Str → State → Result Error State
  resolve_new resolve_name name s =
      let selected = resolve_selected resolve_name name s in
      elim (requirements_of s.requirements name) [ [] ↦ err (not_found name) | r ∷ rs ↦ selected ]

  -- `resolve_name`. An exception ends the whole resolution, so that the `finally` clause matters on
  -- success only.
  pub resolve_name : ℕ → Str → State → Result Error State
  resolve_name zero name s = err out_of_fuel
  resolve_name (suc fuel) name s =
      let new = resolve_new (resolve_name fuel) name s in
      if contains name s.visiting
      then err (cycle (from_index name s.path_stack))
      else elim (lookup name s.resolved) [
        | some pkg ↦ recheck client name (requirements_of s.requirements name) pkg >> ok s
        | none ↦ new
      ]

  -- The loop over the names that the pipeline requires.
  pub resolve_roots : ℕ → List Str → State → Result Error State
  unfolding resolve_name
  resolve_roots fuel [] s = ok s
  resolve_roots fuel (name ∷ names) s = elim (lookup name s.resolved) [
    | some pkg ↦ resolve_roots fuel names s
    | none ↦ (do s' ← resolve_name fuel name s; resolve_roots fuel names s')
  ]

abbrev pub pipeline_via : Str
pipeline_via = codes "pipeline"

-- The requirements of the pipeline itself.
pub root_requirements : List Dep → Requirements → Result Error Requirements
unfolding add_requirement
root_requirements [] r = ok r
root_requirements (d ∷ ds) r = do
  req ← make_requirement d pipeline_via
  root_requirements ds (add_requirement req r)

abbrev pub as_dep : PipelineDependency → Dep
as_dep d = record { name = d.name; version = d.version }

pub record LockedPackage : Type 0 where
  pub name : Str
  pub version : Str
  pub sha256 : Str

-- `_build_lockfile`
pub build_lockfile : Dict ResolvedPackage → List Str → List LockedPackage
build_lockfile resolved [] = []
build_lockfile resolved (name ∷ names) = elim (lookup name resolved) [
  | none ↦ build_lockfile resolved names
  | some pkg ↦
      record { name = pkg.name; version = pkg.version; sha256 = pkg.sha256 }
      ∷ build_lockfile resolved names
]

-- The state in which `_resolve_graph` ends.
pub resolve_state : RegistryClient → ℕ → List Dep → Result Error State
unfolding sort_deps sort_names root_requirements resolve_roots
resolve_state client fuel deps = do
  r ← root_requirements (sort_deps deps) []
  resolve_roots client fuel (sort_names (keys r))
      (record { requirements = r; resolved = []; visiting = []; path_stack = [] })

-- `resolve`
unfoldable pub resolve : RegistryClient → ℕ → PipelineConfig → Result Error (List LockedPackage)
unfolding resolve_state build_lockfile
resolve client fuel config = do
  s ← resolve_state client fuel (map as_dep config.dependencies)
  ok (build_lockfile s.resolved (sort_names (keys s.resolved)))

-- `lockfile_as_deps_dict`: a later entry of a name replaces an earlier one
unfoldable pub lockfile_as_deps_dict : List LockedPackage → Dict LockedPackage → Dict LockedPackage
lockfile_as_deps_dict [] d = d
lockfile_as_deps_dict (p ∷ ps) d = lockfile_as_deps_dict ps (insert p.name p d)
