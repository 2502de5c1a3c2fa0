-- ===== src/Registry.antt =====
-- registry/metadata.py, registry/storage.py and the handlers of registry/main.py. SHA-256, the JSON
-- library and the clock are arguments; the table and the file system are the state.
pub mod Rows
pub mod Handlers
pub mod Immutable
pub mod Integrity
pub mod Listing
mod Tests
use forge_ci_cd_platform.Base.{
  ℕ, List, [], ◌∷◌, ◌++◌, Option, none, some, Bool, true, false, not, ◌&&◌, ◌||◌, map, Str, ◌==◌,
  if◌then◌else◌, length, contains, codes,
}
use forge_ci_cd_platform.Base.Dict.{Dict, keys, lookup, insert}
use forge_ci_cd_platform.Base.Result.{Result, ok, err}
use forge_ci_cd_platform.Text.{is_nil, strip, remove}
use forge_ci_cd_platform.Semver.{is_valid_semver}
use forge_ci_cd_platform.Tokens.{Token, require_auth}

-- `json.dumps`, `json.loads` with `none` for a JSONDecodeError, `[]`, and `v or []`
pub record Json (V : Type 0) : Type 0 where
  pub dumps : V → Str
  pub loads : Str → Option V
  pub empty_list : V
  pub or_empty_list : V → V

-- A row of the table `artifacts`.
pub record Row : Type 0 where
  pub name : Str
  pub version : Str
  pub sha256 : Str
  pub size : ℕ
  pub publisher : Str
  pub deps : Str
  pub published_at : Str

-- What `get_artifact` returns of a row.
pub record Artifact (V : Type 0) : Type 0 where
  pub name : Str
  pub version : Str
  pub sha256 : Str
  pub size : ℕ
  pub publisher : Str
  pub deps : V
  pub published_at : Str

-- The table, and the files by their paths.
pub record Registry : Type 0 where
  pub artifacts : List Row
  pub files : Dict Str

pub record Request : Type 0 where
  pub name : Str
  pub version : Str
  pub file : Str
  pub checksum : Str
  pub deps : Str
  pub credentials : Str
  pub now : Str

-- The answer of a successful publication.
pub record Published : Type 0 where
  pub name : Str
  pub version : Str
  pub sha256 : Str
  pub size : ℕ

pub record Download : Type 0 where
  pub content : Str
  pub x_artifact_sha256 : Str

pub data HttpError : Type 0 where
  http_exception : (status_code : ℕ) → HttpError
  json_decode_error : HttpError

-- `SELECT … WHERE name=? AND version=?`
abbrev pub find_row : Str → Str → List Row → Option Row
find_row name version [] = none
find_row name version (r ∷ rs) =
    if name == r.name && version == r.version then some r else find_row name version rs

-- `sha256[:2]`
abbrev pub prefix : Str → Str
prefix [] = []
prefix (a ∷ []) = a ∷ []
prefix (a ∷ b ∷ s) = a ∷ b ∷ []

module _ (storage_dir : Str) where
  pub blob_path : Str → Str
  blob_path sha256 = storage_dir ++ (codes "/blobs/" ++ (prefix sha256 ++ (codes "/" ++ sha256)))

  pub get_blob : Str → Dict Str → Option Str
  get_blob sha256 files = lookup (blob_path sha256) files

  module _ (digest : Str → Str) where
    -- The checksum, and the files after the write.
    pub store_blob : Str → Dict Str → Str × Dict Str
    store_blob content files =
        let path = blob_path (digest content) in
        (digest content, if contains path (keys files) then files else insert path content files)

pub verify_checksum : (Str → Str) → Str → Str → Bool
unfolding strip remove
verify_checksum digest content declared =
    digest content == strip (remove (codes "sha256:") declared)

module _ {V : Type 0} (json : Json V) where
  abbrev pub read_row : Row → V → Artifact V
  read_row r deps = record {
    name = r.name;
    version = r.version;
    sha256 = r.sha256;
    size = r.size;
    publisher = r.publisher;
    deps = deps;
    published_at = r.published_at;
  }

  pub get_artifact : Str → Str → List Row → Result HttpError (Option (Artifact V))
  get_artifact name version rows = elim (find_row name version rows) [
    | none ↦ ok none
    | some r ↦ elim (json.loads r.deps) [
      | none ↦ err json_decode_error
      | some deps ↦ ok (some (read_row r deps))
    ]
  ]

  -- The row goes to the end of the table; a second row of a name and version is an IntegrityError,
  -- which becomes a ValueError, `none`.
  pub insert_artifact : Str → Str → Str → ℕ → Str → V → Str → List Row → Option (List Row)
  insert_artifact name version sha256 size publisher deps now rows =
      elim (find_row name version rows) [
        | some r ↦ none
        | none ↦ some (
            rows
            ++ record {
              name = name;
              version = version;
              sha256 = sha256;
              size = size;
              publisher = publisher;
              deps = json.dumps (json.or_empty_list deps);
              published_at = now;
            }
              ∷ [])
      ]

  -- `artifact_meta`
  pub artifact_meta : Str → Str → Registry → Result HttpError (Artifact V)
  unfolding get_artifact
  artifact_meta name version reg = elim (get_artifact name version reg.artifacts) [
    | err e ↦ err e
    | ok none ↦ err (http_exception 404)
    | ok (some meta) ↦ ok meta
  ]

  module _ (storage_dir : Str) where
    -- An empty blob counts as missing.
    abbrev pub respond : Str → Option Str → Result HttpError Download
    respond sha256 none = err (http_exception 404)
    respond sha256 (some content) =
        if is_nil content
        then err (http_exception 404)
        else ok (record { content = content; x_artifact_sha256 = sha256 })

    pub download_artifact : Str → Str → Registry → Result HttpError Download
    unfolding get_artifact get_blob
    download_artifact name version reg = elim (get_artifact name version reg.artifacts) [
      | err e ↦ err e
      | ok none ↦ err (http_exception 404)
      | ok (some meta) ↦ respond meta.sha256 (get_blob storage_dir meta.sha256 reg.files)
    ]

    module _ (digest : Str → Str) where
      -- The end of `publish_artifact`: the blob is written before the row.
      pub store_artifact : Str → Request → Registry → Result HttpError Published × Registry
      unfolding store_blob insert_artifact
      store_artifact publisher req reg =
          let (sha256, files) = store_blob storage_dir digest req.file reg.files in
          let dep_list : V = elim (json.loads req.deps) [
            | none ↦ json.empty_list
            | some deps ↦ deps
          ] in
          elim (insert_artifact req.name req.version sha256 (length req.file) publisher dep_list
            req.now reg.artifacts) [
              | none ↦ (err (http_exception 409), record reg { files = files })
              | some rows ↦ (
                ok (record {
                  name = req.name;
                  version = req.version;
                  sha256 = sha256;
                  size = length req.file;
                }),
                record { artifacts = rows; files = files },
              )
            ]

      -- The guards of `publish_artifact`, in their order.
      pub publish_checked : Str → Request → Registry → Result HttpError Published × Registry
      unfolding is_valid_semver get_artifact verify_checksum store_artifact
      publish_checked publisher req reg =
          if not (is_valid_semver req.version)
          then (err (http_exception 400), reg)
          else elim (get_artifact req.name req.version reg.artifacts) [
            | err e ↦ (err e, reg)
            | ok (some existing) ↦ (err (http_exception 409), reg)
            | ok none ↦
                if not (verify_checksum digest req.file req.checksum)
                then (err (http_exception 400), reg)
                else store_artifact publisher req reg
          ]

      -- `publish_artifact`, behind its dependency `_auth`
      pub publish_artifact : List Token → Request → Registry → Result HttpError Published × Registry
      unfolding publish_checked require_auth
      publish_artifact tokens req reg =
          elim (require_auth digest (some (codes "Bearer " ++ req.credentials)) tokens) [
            | err e ↦ (err (http_exception 401), reg)
            | ok publisher ↦ publish_checked publisher req reg
          ]

      -- The state after a sequence of publications.
      pub publish_all : List Token → List Request → Registry → Registry
      unfolding publish_artifact
      publish_all tokens [] reg = reg
      publish_all tokens (req ∷ reqs) reg =
          publish_all tokens reqs (publish_artifact tokens req reg).1
