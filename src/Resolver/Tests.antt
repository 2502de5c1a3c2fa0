-- ===== src/Resolver/Tests.antt =====
-- registry/resolver.py on a small registry, and the theorems at concrete inputs.
use forge_ci_cd_platform.Base.{
  ◌≡◌, ◌≢◌, refl, List, [], ◌∷◌, Str, str_dec, codes, arith, Bool, true, false, ◌==◌, if◌then◌else◌,
}
use forge_ci_cd_platform.Base.Dict.{Dict, keys, lookup}
use forge_ci_cd_platform.Pipeline.{PipelineConfig}
use forge_ci_cd_platform.Base.Result.{ok, err}
use forge_ci_cd_platform.Resolver.{
  RegistryClient, cycle, ResolvedPackage, resolve, lockfile_as_deps_dict, Dep, LockedPackage, State,
  out_of_fuel, resolve_state, build_lockfile, sort_names,
}
use forge_ci_cd_platform.Resolver.Registry.{in_memory}
use forge_ci_cd_platform.Resolver.Lockfile.{locked, resolve_lockfile}
use forge_ci_cd_platform.Resolver.Memory.{in_memory-IsBounded}
use forge_ci_cd_platform.Resolver.Sound.Fuel.{IsBounded, resolve_state-ends}
use forge_ci_cd_platform.Resolver.Sound.{IsSolution, resolve_state-IsSolution}
use forge_ci_cd_platform.Resolver.Samples.{core, http, dep, v100, v120, packages, client, program}

locked_names : List Dep → List (Str × Str)
unfolding program
locked_names deps = elim (resolve_state client 5 deps) [
  | ok s ↦ names (build_lockfile s.resolved (sort_names (keys s.resolved)))
  | err e ↦ []
]
  where
    names : List LockedPackage → List (Str × Str)
    names [] = []
    names (p ∷ ps) = (p.name, p.version) ∷ names ps

abbrev root_deps : List Dep
root_deps = dep http (codes "^1.0.0") ∷ dep core (codes ">= 1.0.0 <2.0.0") ∷ []

locked_versions : locked_names root_deps ≡ (core, v120) ∷ (http, v100) ∷ []
unfolding program locked_names
locked_versions = refl

final : State
unfolding program
final = elim (resolve_state client 5 root_deps) [
  | ok s ↦ s
  | err e ↦ record { requirements = []; resolved = []; visiting = []; path_stack = [] }
]

resolve_state-final : resolve_state client 5 root_deps ≡ ok final
unfolding program final
resolve_state-final = refl

resolve_state-IsSolution_example : IsSolution client root_deps final.resolved
resolve_state-IsSolution_example =
    resolve_state-IsSolution client 5 root_deps final resolve_state-final

abbrev config : PipelineConfig
config = record {
  name = codes "app";
  version = codes "0.1.0";
  dependencies =
      record { name = http; version = codes "^1.0.0" }
      ∷ record { name = core; version = codes ">= 1.0.0 <2.0.0" }
      ∷ [];
  jobs = [];
  artifacts = [];
}

abbrev lockfile : List LockedPackage
lockfile =
    record { name = core; version = v120; sha256 = codes "b" }
    ∷ record { name = http; version = v100; sha256 = codes "d" }
    ∷ []

resolve-config : resolve client 5 config ≡ ok lockfile
unfolding program resolve
resolve-config = refl

resolve_lockfile_example :
    (resolved : Dict ResolvedPackage) × IsSolution client root_deps resolved
    × ((x : Str) → lookup x (lockfile_as_deps_dict lockfile []) ≡ locked (lookup x resolved))
resolve_lockfile_example = resolve_lockfile client 5 config lockfile resolve-config

bounded : IsBounded client (core ∷ http ∷ [])
unfolding str_dec in_memory
bounded =
    in_memory-IsBounded (core ∷ http ∷ []) packages ((tt, (tt, (tt, tt))), (((refl, tt), tt), tt))

resolve_state-ends_example : resolve_state client 3 root_deps ≢ err out_of_fuel
unfolding str_dec
resolve_state-ends_example =
    resolve_state-ends client (core ∷ http ∷ []) 3 root_deps bounded (refl, (refl, tt))
      (omega arith)

-- A registry in which `a` depends on `b` and on `c`, and these on the given packages.
abbrev deps_of : List Dep → Str → List Dep
deps_of below name =
    if name == codes "a"
    then dep (codes "b") (codes "^1.0.0") ∷ dep (codes "c") (codes "^1.0.0") ∷ []
    else if name == codes "d"
    then []
    else below

abbrev small_client : List Dep → RegistryClient
small_client below = record {
  list_versions = λ name. ok (v100 ∷ []);
  get_metadata = λ name version. ok (record {
    name = name;
    version = version;
    sha256 = codes "s";
    size = 1;
    deps = deps_of below name;
  });
}

abbrev on_a : PipelineConfig
on_a = record config { dependencies = record { name = codes "a"; version = codes "^1.0.0" } ∷ [] }

resolve_ring :
    resolve (small_client (dep (codes "c") (codes "^1.0.0") ∷ [])) 5 on_a
    ≡ err (cycle (codes "c" ∷ []))
unfolding program resolve
resolve_ring = refl

is_locked : List Dep → Bool
unfolding program resolve
is_locked below = elim (resolve (small_client below) 5 on_a) [ ok l ↦ true | err e ↦ false ]

-- Two packages that depend on the same one are no ring.
resolve_diamond : is_locked (dep (codes "d") (codes "^1.0.0") ∷ []) ≡ true
unfolding program is_locked
resolve_diamond = refl
