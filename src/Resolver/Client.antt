-- ===== src/Resolver/Client.antt =====
-- registry/resolver.py: the registry client, the data of a resolution, and its sorted lists.
use Prim.Native.Nat.{Ordering}
use forge_ci_cd_platform.Base.{ℕ, List, [], ◌∷◌, ◌++◌, none, some, Str}
use forge_ci_cd_platform.Base.Dict.{Dict, lookup, insert}
use forge_ci_cd_platform.Base.Result.{Result}
use forge_ci_cd_platform.Semver.{VersionKey, compare_keys, str_compare}
use forge_ci_cd_platform.Constraint.{ConstraintSet}

-- The exceptions. `out_of_fuel` is the model's own.
pub data Error : Type 0 where
  cycle : List Str → Error
  conflict : Str → Error
  not_found : Str → Error
  value_error : Error
  out_of_fuel : Error

-- A declared dependency, `{"name": …, "version": …}`.
pub record Dep : Type 0 where
  pub name : Str
  pub version : Str

pub record PackageMeta : Type 0 where
  pub name : Str
  pub version : Str
  pub sha256 : Str
  pub size : ℕ
  pub deps : List Dep

-- The protocol of a registry client.
pub record RegistryClient : Type 0 where
  pub list_versions : Str → Result Error (List Str)
  pub get_metadata : Str → Str → Result Error PackageMeta

pub record Requirement : Type 0 where
  pub name : Str
  pub constraint : Str
  pub constraint_set : ConstraintSet
  pub via : Str

pub record ResolvedPackage : Type 0 where
  pub name : Str
  pub version : Str
  pub sha256 : Str
  pub deps : List Dep

abbrev pub Requirements : Type 0
Requirements = Dict (List Requirement)

-- `requirements.get(name, [])`
abbrev pub requirements_of : Requirements → Str → List Requirement
requirements_of r name = elim (lookup name r) [ none ↦ [] | some l ↦ l ]

-- `requirements.setdefault(req.name, []).append(req)`
unfoldable pub add_requirement : Requirement → Requirements → Requirements
add_requirement req r = insert req.name (requirements_of r req.name ++ req ∷ []) r

-- `sorted(deps, key=lambda d: d["name"])`: a stable sort by insertion
unfoldable pub insert_dep : Dep → List Dep → List Dep
insert_dep d [] = d ∷ []
insert_dep d (e ∷ es) =
    let rest = insert_dep d es in
    elim (str_compare d.name e.name) [ Ordering.gt ↦ e ∷ rest | _ ↦ d ∷ e ∷ es ]

unfoldable pub sort_deps : List Dep → List Dep
unfolding insert_dep
sort_deps [] = []
sort_deps (d ∷ ds) = insert_dep d (sort_deps ds)

-- `sorted(names)`
unfoldable pub insert_name : Str → List Str → List Str
insert_name n [] = n ∷ []
insert_name n (m ∷ ms) =
    let rest = insert_name n ms in
    elim (str_compare n m) [ Ordering.gt ↦ m ∷ rest | _ ↦ n ∷ m ∷ ms ]

unfoldable pub sort_names : List Str → List Str
unfolding insert_name
sort_names [] = []
sort_names (n ∷ ns) = insert_name n (sort_names ns)

-- `candidates.sort(key=version_key, reverse=True)`, which keeps the order of equal keys
unfoldable pub insert_key : VersionKey → List VersionKey → List VersionKey
insert_key k [] = k ∷ []
insert_key k (j ∷ js) =
    let rest = insert_key k js in
    elim (compare_keys k j) [ Ordering.lt ↦ j ∷ rest | _ ↦ k ∷ j ∷ js ]

unfoldable pub sort_descending : List VersionKey → List VersionKey
unfolding insert_key
sort_descending [] = []
sort_descending (k ∷ ks) = insert_key k (sort_descending ks)
