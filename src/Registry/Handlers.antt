-- ===== src/Registry/Handlers.antt =====
-- registry/main.py, `publish_artifact`: when it succeeds and what it changes.
use mathlib.Core.Path.{subst}
use forge_ci_cd_platform.Base.{
  ℕ, ◌≡◌, ◌⊎◌, refl, List, [], ◌∷◌, ◌++◌, none, some, true, false, ◌&&◌, arith, Str, ◌==◌, length,
  All, Option-cases, Bool-cases, inl, inr, codes,
}
use forge_ci_cd_platform.Base.Result.{Result, ok, err, Result-cases}
use forge_ci_cd_platform.Semver.{is_valid_semver}
use forge_ci_cd_platform.Tokens.{Token, AuthError, require_auth}
use forge_ci_cd_platform.Registry.{
  Json, Row, Registry, Request, Published, http_exception, find_row, get_artifact, insert_artifact,
  verify_checksum, store_blob, store_artifact, publish_checked, publish_artifact,
}

-- The publisher that the credentials of a request stand for.
abbrev pub authenticated : (Str → Str) → List Token → Request → Result AuthError Str
authenticated digest tokens req =
    require_auth digest (some (codes "Bearer " ++ req.credentials)) tokens

-- The dependencies of every row can be read.
abbrev pub Readable : {V : Type 0} → Json V → List Row → Type 0
Readable {V} json rows = All (λ r. (v : V) × (json.loads r.deps ≡ some v)) rows

-- What holds of every row holds of the row that is found.
pub find_row-All :
    (P : Row → Type 0) (name version : Str) (rows : List Row) (r : Row)
    → All P rows
    → find_row name version rows ≡ some r
    → P r
find_row-All P name version [] r h e = cc
find_row-All P name version (q ∷ rows) r h e =
    elim (Bool-cases (name == q.name && version == q.version)) [
      | inl m ↦ let same : q ≡ r = ground (arith, e, m) in subst P same h.0
      | inr m ↦ find_row-All P name version rows r h.1 (rw m at e)
    ]

module _ {V : Type 0} (json : Json V) (dir : Str) (digest : Str → Str) where
  -- The dependencies that a request sends; a text that is no JSON counts as none.
  abbrev pub sent_deps : Request → V
  sent_deps req =
      json.or_empty_list (elim (json.loads req.deps) [ none ↦ json.empty_list | some v ↦ v ])

  -- The row that a publication adds.
  abbrev pub new_row : Str → Request → Row
  new_row publisher req = record {
    name = req.name;
    version = req.version;
    sha256 = digest req.file;
    size = length req.file;
    publisher = publisher;
    deps = json.dumps (sent_deps req);
    published_at = req.now;
  }

  abbrev pub stored : Str → Request → Registry → Registry
  stored publisher req reg = record {
    artifacts = reg.artifacts ++ new_row publisher req ∷ [];
    files = (store_blob dir digest req.file reg.files).1;
  }

  abbrev pub answer : Request → Published
  answer req = record {
    name = req.name;
    version = req.version;
    sha256 = digest req.file;
    size = length req.file;
  }

  store_artifact-new :
      (publisher : Str) (req : Request) (reg : Registry)
      → find_row req.name req.version reg.artifacts ≡ none
      → store_artifact json dir digest publisher req reg
        ≡ (ok (answer req), stored publisher req reg)
  unfolding store_artifact insert_artifact store_blob
  store_artifact-new publisher req reg h = rw (h, store_artifact, insert_artifact) refl

  -- The guards passed.
  pub record IsAccepted (tokens : List Token) (req : Request) (reg : Registry) : Type 0 where
    pub publisher : Str
    pub authorised : authenticated digest tokens req ≡ ok publisher
    pub valid : is_valid_semver req.version ≡ true
    pub new : find_row req.name req.version reg.artifacts ≡ none
    pub checksum : verify_checksum digest req.file req.checksum ≡ true

  -- The guard that did not pass, by the status code of the answer.
  pub data IsRefused (tokens : List Token) (req : Request) (reg : Registry) : ℕ → Type 0 where
    unauthorised :
        {e : AuthError} → authenticated digest tokens req ≡ err e → IsRefused tokens req reg 401
    bad_version :
        {publisher : Str}
        → authenticated digest tokens req ≡ ok publisher
        → is_valid_semver req.version ≡ false
        → IsRefused tokens req reg 400
    existing :
        {publisher : Str} {r : Row}
        → authenticated digest tokens req ≡ ok publisher
        → is_valid_semver req.version ≡ true
        → find_row req.name req.version reg.artifacts ≡ some r
        → IsRefused tokens req reg 409
    bad_checksum :
        {publisher : Str}
        → authenticated digest tokens req ≡ ok publisher
        → is_valid_semver req.version ≡ true
        → find_row req.name req.version reg.artifacts ≡ none
        → verify_checksum digest req.file req.checksum ≡ false
        → IsRefused tokens req reg 400

  publish_checked_cases :
      (publisher : Str) (req : Request) (reg : Registry)
      → Readable json reg.artifacts
      → ((is_valid_semver req.version ≡ true)
          × (find_row req.name req.version reg.artifacts ≡ none)
          × (verify_checksum digest req.file req.checksum ≡ true)
          × (publish_checked json dir digest publisher req reg
              ≡ (ok (answer req), stored publisher req reg)))
        ⊎ ((status : ℕ) × (publish_checked json dir digest publisher req reg
              ≡ (err (http_exception status), reg))
            × ((tokens : List Token)
                → authenticated digest tokens req ≡ ok publisher
                → IsRefused tokens req reg status))
  unfolding publish_checked get_artifact
  publish_checked_cases publisher req reg readable =
      elim (Bool-cases (is_valid_semver req.version)) [
        | inr e ↦ inr (400, rw (e, publish_checked) refl, λ tokens p. bad_version p e)
        | inl e ↦ elim (Option-cases (find_row req.name req.version reg.artifacts)) [
          | inr (r, f) ↦
              let (v, d) = find_row-All _ req.name req.version reg.artifacts r readable f in
              inr
                (409, rw (e, f, d, publish_checked, get_artifact) refl, λ tokens p. existing p e f)
          | inl f ↦ elim (Bool-cases (verify_checksum digest req.file req.checksum)) [
            | inr c ↦ inr (
              400,
              rw (e, f, c, publish_checked, get_artifact) refl,
              λ tokens p. bad_checksum p e f c,
            )
            | inl c ↦ inl (
              e,
              f,
              c,
              rw (e, f, c, publish_checked, get_artifact) (store_artifact-new publisher req reg f),
            )
          ]
        ]
      ]

  -- A publication whose guards all pass answers with what it stored, and adds one row and the blob.
  -- Any other is answered with a status code that names the guard, and leaves the registry as it was.
  pub publish_artifact_cases :
      (tokens : List Token) (req : Request) (reg : Registry)
      → Readable json reg.artifacts
      → ((a : IsAccepted tokens req reg) × (publish_artifact json dir digest tokens req reg
            ≡ (ok (answer req), stored a.publisher req reg)))
        ⊎ ((status : ℕ) × (publish_artifact json dir digest tokens req reg
              ≡ (err (http_exception status), reg))
            × IsRefused tokens req reg status)
  unfolding publish_artifact
  publish_artifact_cases tokens req reg readable =
      elim (Result-cases (authenticated digest tokens req)) [
        | inr (e, p) ↦ inr (401, rw (p, publish_artifact) refl, unauthorised p)
        | inl (publisher, p) ↦ elim (publish_checked_cases publisher req reg readable) [
          | inl (valid, new, checksum, q) ↦ inl (
            record {
              publisher = publisher;
              authorised = p;
              valid = valid;
              new = new;
              checksum = checksum;
            },
            rw (p, publish_artifact) q,
          )
          | inr (status, q, refused) ↦ inr (status, rw (p, publish_artifact) q, refused tokens p)
        ]
      ]
