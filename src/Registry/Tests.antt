-- ===== src/Registry/Tests.antt =====
-- registry/main.py on a small registry, and the theorems at concrete inputs. The digest of the tests
-- adds a mark, and their JSON values are texts.
use forge_ci_cd_platform.Base.{
  ◌≢◌, none, All, count, ℕ, ◌≡◌, refl, List, [], ◌∷◌, ◌++◌, some, ◌⊎◌, Str, str_dec, codes,
}
use forge_ci_cd_platform.Base.Result.{ok, err}
use forge_ci_cd_platform.Tokens.{Token}
use forge_ci_cd_platform.Registry.{
  Json, Artifact, Registry, Request, http_exception, artifact_meta, download_artifact,
  publish_artifact, publish_all, read_row,
}
use forge_ci_cd_platform.Registry.Handlers.{
  IsAccepted, IsRefused, answer, stored, new_row, sent_deps, publish_artifact_cases,
}
use forge_ci_cd_platform.Registry.Immutable.{
  IsJson, IsRegistry, empty-IsRegistry, stored-IsRegistry, publish_all-IsRegistry,
  publish_all_immutable,
}
use forge_ci_cd_platform.Registry.Listing.{
  list_artifact_versions, versions_of, list_artifact_versions_total,
}
use forge_ci_cd_platform.Semver.{version_key}
use forge_ci_cd_platform.Registry.Integrity.{IsAvailable, publish_artifact-IsAvailable}

abbrev texts : Json Str
texts = record {
  dumps = λ v. v;
  loads = λ s. some s;
  empty_list = codes "[]";
  or_empty_list = λ v. v;
}

texts-IsJson : IsJson texts
texts-IsJson v = refl

abbrev digest : Str → Str
digest s = codes "d" ++ s

abbrev dir : Str
dir = codes "/data/artifacts"

abbrev tokens : List Token
tokens = record { name = codes "ci"; token_hash = digest (codes "c1") } ∷ []

abbrev request : Request
request = record {
  name = codes "core";
  version = codes "1.0.0-rc.1+b7";
  file = codes "abc";
  checksum = codes "sha256:dabc";
  deps = codes "[]";
  credentials = codes "c1";
  now = codes "2024-01-01 00:00:00";
}

abbrev unsigned : Request
unsigned = record request { credentials = codes "c2" }

abbrev start : Registry
start = record { artifacts = []; files = [] }

abbrev published : Registry
published = stored texts dir digest (codes "ci") request start

program : Unit {0}
unfolding publish_artifact publish_all artifact_meta download_artifact str_dec
program = tt

publish-request :
    publish_artifact texts dir digest tokens request start
    ≡ (ok (answer texts dir digest request), published)
unfolding program
publish-request = refl

publish-request_again :
    publish_artifact texts dir digest tokens request published
    ≡ (err (http_exception 409), published)
unfolding program
publish-request_again = refl

publish-unsigned :
    publish_artifact texts dir digest tokens unsigned start ≡ (err (http_exception 401), start)
unfolding program
publish-unsigned = refl

start-IsRegistry : IsRegistry texts dir digest start
start-IsRegistry = empty-IsRegistry texts dir digest

published-IsRegistry : IsRegistry texts dir digest published
published-IsRegistry =
    stored-IsRegistry texts dir digest texts-IsJson (codes "ci") request start start-IsRegistry

publish_artifact_cases_example :
    ((a : IsAccepted texts dir digest tokens request start) × (publish_artifact texts dir digest
          tokens request start
        ≡ (
          ok (answer texts dir digest request),
          stored texts dir digest a.publisher request start,
        )))
    ⊎ ((status : ℕ) × (publish_artifact texts dir digest tokens request start
          ≡ (err (http_exception status), start))
        × IsRefused texts dir digest tokens request start status)
publish_artifact_cases_example = publish_artifact_cases texts dir digest tokens request start tt

abbrev meta : Artifact Str
meta =
    read_row texts (new_row texts dir digest (codes "ci") request)
      (sent_deps texts dir digest request)

meta-published : artifact_meta texts (codes "core") request.version published ≡ ok meta
unfolding program
meta-published = refl

publish_all-IsRegistry_example :
    IsRegistry texts dir digest
      (publish_all texts dir digest tokens (request ∷ unsigned ∷ []) start)
publish_all-IsRegistry_example =
    publish_all-IsRegistry texts dir digest texts-IsJson tokens (request ∷ unsigned ∷ []) start
      start-IsRegistry

publish_all_immutable_example :
    let later = publish_all texts dir digest tokens (request ∷ unsigned ∷ []) published in
    (artifact_meta texts (codes "core") request.version later ≡ ok meta)
    × (download_artifact texts dir (codes "core") request.version later
        ≡ download_artifact texts dir (codes "core") request.version published)
publish_all_immutable_example =
    publish_all_immutable texts dir digest texts-IsJson tokens (request ∷ unsigned ∷ []) published
      (codes "core") request.version meta published-IsRegistry meta-published

succeeds :
    (publish_artifact texts dir digest tokens request start).0
    ≡ ok (answer texts dir digest request)
unfolding program
succeeds = refl

publish_artifact-IsAvailable_example :
    (answer texts dir digest request ≡ answer texts dir digest request)
    × IsAvailable texts dir digest request
        (publish_artifact texts dir digest tokens request start).1
publish_artifact-IsAvailable_example =
    publish_artifact-IsAvailable texts dir digest texts-IsJson tokens request start
      (answer texts dir digest request) start-IsRegistry succeeds

listed : All (λ v. version_key v ≢ none) (versions_of (codes "core") published.artifacts)
unfolding version_key str_dec
listed = ((λ z. cc), tt)

list_artifact_versions_total_example :
    (vs : List Str) × (list_artifact_versions (codes "core") published ≡ some vs)
    × ((v : Str) → count v vs ≡ count v (versions_of (codes "core") published.artifacts))
list_artifact_versions_total_example = list_artifact_versions_total (codes "core") published listed
