-- ===== src/Registry/Integrity.antt =====
-- registry/main.py: what a successful publication makes available.
use forge_ci_cd_platform.Base.{
  ◌≡◌, ◌≢◌, ◌⊎◌, refl, sym, List, [], ◌∷◌, none, some, arith, Str, length, inl, inr,
}
use forge_ci_cd_platform.Base.Result.{ok, err}
use forge_ci_cd_platform.Tokens.{Token}
use forge_ci_cd_platform.Registry.{
  Json, Artifact, Registry, Request, Published, http_exception, find_row, read_row, get_artifact,
  respond, artifact_meta, download_artifact, publish_artifact,
}
use forge_ci_cd_platform.Registry.Rows.{find_row-append, blob_path_injective}
use forge_ci_cd_platform.Registry.Handlers.{
  sent_deps, new_row, stored, answer, publish_artifact_cases,
}
use forge_ci_cd_platform.Registry.Immutable.{
  IsJson, IsRegistry, blob_stored, stored-IsRegistry, download-row,
}

module _ {V : Type 0} (json : Json V) (dir : Str) (digest : Str → Str) where
  -- What the registry says of a version after a request for its publication.
  pub record IsAvailable (req : Request) (reg : Registry) : Type 0 where
    pub meta : Artifact V
    pub listed : artifact_meta json req.name req.version reg ≡ ok meta
    pub name : meta.name ≡ req.name
    pub version : meta.version ≡ req.version
    pub sha256 : meta.sha256 ≡ digest req.file
    pub size : meta.size ≡ length req.file
    pub deps : meta.deps ≡ sent_deps json dir digest req
    pub published_at : meta.published_at ≡ req.now
    pub content : Str
    pub same_checksum : digest content ≡ digest req.file
    pub downloads :
        (content ≡ [])
          × (download_artifact json dir req.name req.version reg ≡ err (http_exception 404))
        ⊎ ((content ≢ [])
            × (download_artifact json dir req.name req.version reg
                ≡ ok (record { content = content; x_artifact_sha256 = digest req.file })))

  respond_cases :
      (sha256 c : Str)
      → (c ≡ []) × (respond json dir sha256 (some c) ≡ err (http_exception 404))
        ⊎ ((c ≢ [])
            × (respond json dir sha256 (some c)
                ≡ ok (record { content = c; x_artifact_sha256 = sha256 })))
  respond_cases sha256 [] = inl (refl, refl)
  respond_cases sha256 (a ∷ c) = inr ((λ z. cc), refl)

  stored-IsAvailable :
      IsJson json
      → (publisher : Str) (req : Request) (reg : Registry) → IsRegistry json dir digest reg
      → find_row req.name req.version reg.artifacts ≡ none
      → IsAvailable req (stored json dir digest publisher req reg)
  unfolding artifact_meta get_artifact
  stored-IsAvailable is_json publisher req reg inv new =
      let after = stored json dir digest publisher req reg in
      let row = new_row json dir digest publisher req in
      let found : find_row req.name req.version after.artifacts ≡ some row =
        ground (arith, find_row-append req.name req.version reg.artifacts row, new) in
      let deps = sent_deps json dir digest req in
      let reads = is_json deps in
      let (c, b) = blob_stored json dir digest req.file reg.files in
      let sound = (stored-IsRegistry json dir digest is_json publisher req reg inv).sound in
      let same = blob_path_injective dir (digest req.file) (digest c) (sound _ c b) in
      record {
        meta = read_row json row deps;
        listed = rw (found, reads, artifact_meta, get_artifact) refl;
        name = refl;
        version = refl;
        sha256 = refl;
        size = refl;
        deps = refl;
        published_at = refl;
        content = c;
        same_checksum = sym same;
        downloads =
            rw (download-row json dir digest req.name req.version after row deps c found reads b)
              (respond_cases (digest req.file) c);
      }

  -- After a successful publication, the metadata of the version names the checksum and the size of
  -- the published file, its dependencies and its time, and its download has content of that checksum; content that is empty is
  -- answered with 404 instead.
  pub publish_artifact-IsAvailable :
      IsJson json
      → (tokens : List Token) (req : Request) (reg : Registry) (published : Published)
      → IsRegistry json dir digest reg
      → (publish_artifact json dir digest tokens req reg).0 ≡ ok published
      → (published ≡ answer json dir digest req)
        × IsAvailable req (publish_artifact json dir digest tokens req reg).1
  publish_artifact-IsAvailable is_json tokens req reg published inv h =
      elim (publish_artifact_cases json dir digest tokens req reg inv.readable) [
        | inl (a, e) ↦
            (ground (arith, e, h), rw e (stored-IsAvailable is_json a.publisher req reg inv a.new))
        | inr (status, e, _) ↦ absurd (cc (rw e at h))
      ]
