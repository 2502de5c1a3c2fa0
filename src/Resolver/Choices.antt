-- ===== src/Resolver/Choices.antt =====
-- registry/resolver.py, `_select_version` on small registries, and its theorems at concrete inputs.
use Prim.Native.Nat.{Ordering}
use forge_ci_cd_platform.Base.{
  ◌≡◌, ◌≢◌, ◌⊎◌, refl, List, [], ◌∷◌, some, none, Str, codes, true, contains,
}
use forge_ci_cd_platform.Base.Result.{ok, err}
use forge_ci_cd_platform.Semver.{SemVer, parse, VersionKey, compare_versions}
use forge_ci_cd_platform.Constraint.{from_string}
use forge_ci_cd_platform.Resolver.{RegistryClient, Requirement, conflict, not_found, select_version}
use forge_ci_cd_platform.Resolver.Registry.{Packages, in_memory}
use forge_ci_cd_platform.Resolver.Select.{
  Meets, IsCandidate, IsChosen, select_version_cases, select_version-highest_release,
  select_version-not_release,
}
use forge_ci_cd_platform.Resolver.Samples.{core, meta, v100, v120, v200, client, program}

-- A registry with a prerelease of its release.
abbrev beta : Str
beta = codes "1.0.0-beta.1"

abbrev early_packages : Packages
early_packages =
    (core, (beta, meta core beta (codes "a") []) ∷ (v100, meta core v100 (codes "b") []) ∷ []) ∷ []

abbrev early_client : RegistryClient
unfolding in_memory
early_client = in_memory early_packages

abbrev at_least_0 : List Requirement
unfolding from_string
at_least_0 = elim (from_string (codes ">=0.9.0")) [
  | none ↦ []
  | some cs ↦
      record {
        name = core;
        constraint = codes ">=0.9.0";
        constraint_set = cs;
        via = codes "pipeline";
      }
      ∷ []
]

select_version-early : select_version early_client core at_least_0 ≡ ok beta
unfolding program
select_version-early = refl

lists : client.list_versions core ≡ ok (v100 ∷ v120 ∷ v200 ∷ [])
unfolding program
lists = refl

select_version_cases_example :
    ((v : Str) × (select_version client core [] ≡ ok v) × IsChosen client core [] v)
    ⊎ (((select_version client core [] ≡ err (conflict core))
          × (◌≢◌ {A = List Str} (v100 ∷ v120 ∷ v200 ∷ []) [])
          × ((k : VersionKey) → ¬ IsCandidate [] (v100 ∷ v120 ∷ v200 ∷ []) k))
        ⊎ ((select_version client core [] ≡ err (not_found core))
            × (◌≡◌ {A = List Str} (v100 ∷ v120 ∷ v200 ∷ []) [])))
select_version_cases_example = select_version_cases client core [] (v100 ∷ v120 ∷ v200 ∷ []) lists

parsed : Str → SemVer
unfolding program
parsed s = elim (parse s) [
  | none ↦ record { major = 0; minor = 0; patch = 0; prerelease = []; build = [] }
  | some v ↦ v
]

abbrev key : Str → VersionKey
key s = record { parsed = parsed s; text = s }

parse-beta : parse beta ≡ some (parsed beta)
unfolding program parsed
parse-beta = refl

early_lists : early_client.list_versions core ≡ ok (v100 ∷ beta ∷ [])
unfolding program
early_lists = refl

Meets-beta : Meets at_least_0 (parsed beta)
unfolding program parsed
Meets-beta = refl

beta_is_early : (parsed beta).prerelease ≢ []
unfolding program parsed
beta_is_early e = cc

listed_beta : contains beta (v100 ∷ beta ∷ []) ≡ true
unfolding program
listed_beta = refl

select_version-not_release_example : (parsed beta).prerelease ≢ []
select_version-not_release_example =
    select_version-not_release early_client core at_least_0 (v100 ∷ beta ∷ []) beta (parsed beta)
      beta (parsed beta) early_lists select_version-early parse-beta listed_beta parse-beta
      Meets-beta beta_is_early refl refl refl

select_version-v200 : select_version client core [] ≡ ok v200
unfolding program
select_version-v200 = refl

parse-v200 : parse v200 ≡ some (parsed v200)
unfolding program parsed
parse-v200 = refl

parse-v120 : parse v120 ≡ some (parsed v120)
unfolding program parsed
parse-v120 = refl

release_200 : (parsed v200).prerelease ≡ []
unfolding program parsed
release_200 = refl

release_120 : (parsed v120).prerelease ≡ []
unfolding program parsed
release_120 = refl

listed_120 : contains v120 (v100 ∷ v120 ∷ v200 ∷ []) ≡ true
unfolding program
listed_120 = refl

select_version-highest_release_example : compare_versions (parsed v200) (parsed v120) ≢ Ordering.lt
select_version-highest_release_example =
    select_version-highest_release client core [] (v100 ∷ v120 ∷ v200 ∷ []) v200 (parsed v200) v120
      (parsed v120) lists select_version-v200 parse-v200 release_200 listed_120 parse-v120 refl
      release_120
