-- ===== src/Registry/Listing.antt =====
-- registry/metadata.py, `list_versions`, and registry/main.py, `list_artifact_versions`.
use Prim.Native.Nat.{Ordering}
use forge_ci_cd_platform.Base.{
  ℕ, ◌≡◌, ◌≢◌, refl, ◌∙◌, inl, inr, List, [], ◌∷◌, Option, none, some, arith, Str, ◌==◌,
  if◌then◌else◌, map, count, All, Option-cases, Bool-cases,
}
use forge_ci_cd_platform.Semver.{VersionKey, version_key, compare_keys}
use forge_ci_cd_platform.Registry.{Row, Registry}

pub record Entry : Type 0 where
  pub version : Str
  pub sha256 : Str
  pub size : ℕ
  pub published_at : Str

abbrev pub entry_of : Row → Entry
entry_of r = record {
  version = r.version;
  sha256 = r.sha256;
  size = r.size;
  published_at = r.published_at;
}

-- The entries of a name, each with its sort key; a version without a key raises a ValueError.
abbrev pub keyed : Str → List Row → Option (List (VersionKey × Entry))
keyed name [] = some []
keyed name (r ∷ rows) =
    let rest = keyed name rows in
    if name == r.name
    then (elim (version_key r.version) [
      | none ↦ none
      | some k ↦ elim rest [ none ↦ none | some entries ↦ some ((k, entry_of r) ∷ entries) ]
    ])
    else rest

abbrev pub insert_entry : VersionKey × Entry → List (VersionKey × Entry) → List (VersionKey × Entry)
insert_entry e [] = e ∷ []
insert_entry e (f ∷ fs) =
    let rest = insert_entry e fs in
    elim (compare_keys e.0 f.0) [ Ordering.gt ↦ f ∷ rest | _ ↦ e ∷ f ∷ fs ]

-- `entries.sort(key=…)`
abbrev pub sort_entries : List (VersionKey × Entry) → List (VersionKey × Entry)
sort_entries [] = []
sort_entries (e ∷ es) = insert_entry e (sort_entries es)

pub list_versions : Str → List Row → Option (List Entry)
list_versions name rows = elim (keyed name rows) [
  | none ↦ none
  | some es ↦ some (map (λ (e : VersionKey × Entry). e.1) (sort_entries es))
]

-- The versions in the answer of `list_artifact_versions`.
pub list_artifact_versions : Str → Registry → Option (List Str)
unfolding list_versions
list_artifact_versions name reg = elim (list_versions name reg.artifacts) [
  | none ↦ none
  | some es ↦ some (map (λ (e : Entry). e.version) es)
]

-- The versions that the table has of a name.
abbrev pub versions_of : Str → List Row → List Str
versions_of name [] = []
versions_of name (r ∷ rows) =
    let rest = versions_of name rows in if name == r.name then r.version ∷ rest else rest

abbrev texts : List (VersionKey × Entry) → List Str
texts es = map (λ (e : Entry). e.version) (map (λ (e : VersionKey × Entry). e.1) es)

count-insert_entry :
    (v : Str) (e : VersionKey × Entry) (es : List (VersionKey × Entry))
    → count v (texts (insert_entry e es)) ≡ count v (texts (e ∷ es))
count-insert_entry v e [] = refl
count-insert_entry v e (f ∷ fs) = ground (arith, count-insert_entry v e fs)

count-sort_entries :
    (v : Str) (es : List (VersionKey × Entry))
    → count v (texts (sort_entries es)) ≡ count v (texts es)
count-sort_entries v [] = refl
count-sort_entries v (e ∷ es) =
    ground (arith, count-insert_entry v e (sort_entries es), count-sort_entries v es)

-- Where every version of the name has a key, so has every entry, and no version is lost.
keyed_lem :
    (name : Str) (rows : List Row)
    → All (λ v. version_key v ≢ none) (versions_of name rows)
    → (es : List (VersionKey × Entry)) × (keyed name rows ≡ some es)
      × ((v : Str) → count v (texts es) ≡ count v (versions_of name rows))
keyed_lem name [] h = ([], refl, λ v. refl)
keyed_lem name (r ∷ rows) h = elim (Bool-cases (name == r.name)) [
  | inr e ↦ let (es, p, q) = keyed_lem name rows (rw e at h) in (es, rw e p, λ v. rw e (q v))
  | inl e ↦
      let (parses, rest) : (version_key r.version ≢ none)
          × All (λ v. version_key v ≢ none) (versions_of name rows) =
        rw e at h in
      let (es, p, q) = keyed_lem name rows rest in
      elim (Option-cases (version_key r.version)) [
        | inl n ↦ absurd (parses n)
        | inr (k, n) ↦ ((k, entry_of r) ∷ es, rw (e, n, p) refl, λ v. rw e (ground (arith, q v)))
      ]
]

-- The listing of a name whose published versions all parse succeeds, and it has each version as many
-- times as the table has it for that name: none is lost, none is added.
pub list_artifact_versions_total :
    (name : Str) (reg : Registry)
    → All (λ v. version_key v ≢ none) (versions_of name reg.artifacts)
    → (vs : List Str) × (list_artifact_versions name reg ≡ some vs)
      × ((v : Str) → count v vs ≡ count v (versions_of name reg.artifacts))
unfolding list_artifact_versions list_versions
list_artifact_versions_total name reg h =
    let (es, p, q) = keyed_lem name reg.artifacts h in
    (
      texts (sort_entries es),
      rw (p, list_artifact_versions, list_versions) refl,
      λ v. count-sort_entries v es ∙ q v,
    )
