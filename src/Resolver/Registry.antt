-- ===== src/Resolver/Registry.antt =====
-- registry/resolver.py, the registry clients: the listing of `HttpRegistryClient` in version order,
-- and `InMemoryRegistry`.
use Prim.Native.Nat.{Ordering}
use forge_ci_cd_platform.Base.{List, [], ◌∷◌, Option, none, some, map, Str}
use forge_ci_cd_platform.Base.Dict.{Dict, keys, lookup}
use forge_ci_cd_platform.Base.Result.{Result, ok, err}
use forge_ci_cd_platform.Semver.{VersionKey, version_key, compare_keys}
use forge_ci_cd_platform.Resolver.{Error, value_error, not_found, PackageMeta, RegistryClient}

insert_ascending : VersionKey → List VersionKey → List VersionKey
insert_ascending k [] = k ∷ []
insert_ascending k (j ∷ js) =
    let rest = insert_ascending k js in
    elim (compare_keys k j) [ Ordering.gt ↦ j ∷ rest | _ ↦ k ∷ j ∷ js ]

pub sort_ascending : List VersionKey → List VersionKey
unfolding insert_ascending
sort_ascending [] = []
sort_ascending (k ∷ ks) = insert_ascending k (sort_ascending ks)

-- The keys of the versions; a version that does not parse raises a ValueError.
pub version_keys : List Str → Option (List VersionKey)
unfolding version_key
version_keys [] = some []
version_keys (v ∷ vs) = elim (version_key v) [
  | none ↦ none
  | some k ↦ elim (version_keys vs) [ none ↦ none | some ks ↦ some (k ∷ ks) ]
]

-- `sorted(versions, key=version_key)`
unfoldable pub sort_versions : List Str → Result Error (List Str)
unfolding version_keys sort_ascending compare_keys
sort_versions vs = elim (version_keys vs) [
  | none ↦ err value_error
  | some ks ↦ ok (map (λ (k : VersionKey). k.text) (sort_ascending ks))
]

abbrev pub Packages : Type 0
Packages = Dict (Dict PackageMeta)

unfoldable pub in_memory : Packages → RegistryClient
unfolding sort_versions
in_memory packages = record {
  list_versions = λ name. elim (lookup name packages) [
    | none ↦ ok []
    | some versions ↦ sort_versions (keys versions)
  ];
  get_metadata = λ name version. elim (lookup name packages) [
    | none ↦ err (not_found name)
    | some versions ↦ elim (lookup version versions) [
      | none ↦ err (not_found name)
      | some meta ↦ ok meta
    ]
  ];
}
