-- ===== src/Resolver/Samples.antt =====
-- registry/resolver.py: the small registry of the tests.
use forge_ci_cd_platform.Base.{List, [], ◌∷◌, Str, str_dec, codes}
use forge_ci_cd_platform.Semver.{parse, compare_versions, compare_keys}
use forge_ci_cd_platform.Constraint.{from_string}
use forge_ci_cd_platform.Resolver.{
  Dep, PackageMeta, RegistryClient, resolve_state, build_lockfile, select_version, sort_names,
  resolve_selected, resolve_new, resolve_name, resolve_deps,
}
use forge_ci_cd_platform.Resolver.Registry.{Packages, in_memory}

abbrev pub core : Str
core = codes "lib-core"

abbrev pub http : Str
http = codes "lib-http"

abbrev pub dep : Str → Str → Dep
dep name version = record { name = name; version = version }

abbrev pub meta : Str → Str → Str → List Dep → PackageMeta
meta name version sha deps = record {
  name = name;
  version = version;
  sha256 = sha;
  size = 1;
  deps = deps;
}

abbrev pub v100 : Str
v100 = codes "1.0.0"

abbrev pub v120 : Str
v120 = codes "1.2.0"

abbrev pub v200 : Str
v200 = codes "2.0.0"

abbrev pub packages : Packages
packages =
    (
      core,
      (v120, meta core v120 (codes "b") [])
          ∷ (v100, meta core v100 (codes "a") [])
          ∷ (v200, meta core v200 (codes "c") [])
          ∷ [],
    )
    ∷ (http, (v100, meta http v100 (codes "d") (dep core (codes "^1.0.0") ∷ [])) ∷ [])
    ∷ []

abbrev pub client : RegistryClient
unfolding in_memory
client = in_memory packages

unfoldable pub program : Unit {0}
unfolding in_memory resolve_state build_lockfile sort_names resolve_name resolve_new
    resolve_selected resolve_deps select_version from_string parse compare_versions compare_keys
    str_dec
program = tt
