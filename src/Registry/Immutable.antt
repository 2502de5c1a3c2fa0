-- ===== src/Registry/Immutable.antt =====
-- registry/main.py: the registry's invariant, and that what is published stays as it is.
use forge_ci_cd_platform.Base.{
  All-imp, All-snoc, ◌≡◌, refl, sym, ◌∙◌, List, [], ◌∷◌, none, some, arith, Str, contains, All,
  Option-cases, Bool-cases, inl, inr,
}
use forge_ci_cd_platform.Base.Dict.{Dict, keys, lookup, lookup-insert, lookup-ne-none}
use forge_ci_cd_platform.Base.Result.{ok}
use forge_ci_cd_platform.Tokens.{Token}
use forge_ci_cd_platform.Registry.{
  Json, Row, Artifact, Registry, Request, find_row, get_artifact, get_blob, blob_path, store_blob,
  artifact_meta, respond, download_artifact, publish_all,
}
use forge_ci_cd_platform.Registry.Rows.{find_row-append, store_blob-keeps}
use forge_ci_cd_platform.Registry.Handlers.{
  Readable, find_row-All, new_row, stored, publish_artifact_cases,
}

-- `loads` reads what `dumps` writes.
abbrev pub IsJson : {V : Type 0} → Json V → Type 0
IsJson {V} json = (v : V) → json.loads (json.dumps v) ≡ some v

module _ {V : Type 0} (json : Json V) (dir : Str) (digest : Str → Str) where
  -- The dependencies of every row can be read, every row has its blob, and every file has the path
  -- that its content's checksum gives.
  pub record IsRegistry (reg : Registry) : Type 0 where
    pub readable : Readable json reg.artifacts
    pub backed :
        All
          (λ (r : Row). (c : Str) × (lookup (blob_path dir r.sha256) reg.files ≡ some c))
          reg.artifacts
    pub sound : (path c : Str) → lookup path reg.files ≡ some c → path ≡ blob_path dir (digest c)

  pub blob_stored :
      (content : Str) (files : Dict Str)
      → (c : Str) × (lookup (blob_path dir (digest content)) (store_blob dir digest content files).1
          ≡ some c)
  unfolding store_blob
  blob_stored content files =
      let path = blob_path dir (digest content) in
      elim (Bool-cases (contains path (keys files))) [
        | inl e ↦ let (c, p) = lookup-ne-none path files e in (c, ground (arith, e, p))
        | inr e ↦ (content, ground (arith, e, lookup-insert path path content files))
      ]

  store_blob_sound :
      (content : Str) (files : Dict Str)
      → ((path c : Str) → lookup path files ≡ some c → path ≡ blob_path dir (digest c))
      → (path c : Str) → lookup path (store_blob dir digest content files).1 ≡ some c
      → path ≡ blob_path dir (digest c)
  unfolding store_blob
  store_blob_sound content files sound path c h =
      ground
        (arith, sound path c, lookup-insert path (blob_path dir (digest content)) content files, h)

  -- The empty registry has the invariant.
  pub empty-IsRegistry : IsRegistry (record { artifacts = []; files = [] })
  empty-IsRegistry = record { readable = tt; backed = tt; sound = λ path c h. cc }

  pub stored-IsRegistry :
      IsJson json
      → (publisher : Str) (req : Request) (reg : Registry) → IsRegistry reg
      → IsRegistry (stored json dir digest publisher req reg)
  stored-IsRegistry is_json publisher req reg inv = record {
    readable =
        All-snoc _ reg.artifacts (new_row json dir digest publisher req) inv.readable
          (_, is_json _);
    backed =
        All-snoc _ reg.artifacts (new_row json dir digest publisher req)
          (All-imp reg.artifacts
            (λ r (c, h).
              (c, store_blob-keeps dir digest req.file (blob_path dir r.sha256) reg.files h))
            inv.backed)
          (blob_stored req.file reg.files);
    sound = store_blob_sound req.file reg.files inv.sound;
  }

  -- A property that every accepted publication keeps holds after any sequence of publications.
  publish_all_lem :
      IsJson json
      → (P : Registry → Type 0)
      → ((publisher : Str) (req : Request) (reg : Registry)
          → IsRegistry reg
          → find_row req.name req.version reg.artifacts ≡ none
          → P reg
          → P (stored json dir digest publisher req reg))
      → (tokens : List Token) (reqs : List Request) (reg : Registry) → IsRegistry reg
      → P reg
      → IsRegistry (publish_all json dir digest tokens reqs reg)
        × P (publish_all json dir digest tokens reqs reg)
  unfolding publish_all
  publish_all_lem is_json P step tokens [] reg inv p = (inv, p)
  publish_all_lem is_json P step tokens (req ∷ reqs) reg inv p =
      elim (publish_artifact_cases json dir digest tokens req reg inv.readable) [
        | inl (a, e) ↦
            rw (e, publish_all)
              (publish_all_lem is_json P step tokens reqs
                (stored json dir digest a.publisher req reg)
                (stored-IsRegistry is_json a.publisher req reg inv)
                (step a.publisher req reg inv a.new p))
        | inr (status, e, _) ↦
            rw (e, publish_all) (publish_all_lem is_json P step tokens reqs reg inv p)
      ]

  -- Whatever publications come, a registry that starts empty keeps the invariant.
  pub publish_all-IsRegistry :
      IsJson json
      → (tokens : List Token) (reqs : List Request) (reg : Registry) → IsRegistry reg
      → IsRegistry (publish_all json dir digest tokens reqs reg)
  publish_all-IsRegistry is_json tokens reqs reg inv =
      (publish_all_lem is_json (λ _. Unit {0}) (λ _ _ _ _ _ _. tt) tokens reqs reg inv tt).0

  -- A row and its blob stay.
  Keeps : Str → Str → Row → Str → Registry → Type 0
  Keeps name version r c reg =
      (find_row name version reg.artifacts ≡ some r)
      × (lookup (blob_path dir r.sha256) reg.files ≡ some c)

  Keeps-stored :
      (name version : Str) (r : Row) (c publisher : Str) (req : Request) (reg : Registry)
      → Keeps name version r c reg
      → Keeps name version r c (stored json dir digest publisher req reg)
  unfolding Keeps
  Keeps-stored name version r c publisher req reg (f, b) = (
    rw (find_row-append name version reg.artifacts (new_row json dir digest publisher req), f) refl,
    store_blob-keeps dir digest req.file (blob_path dir r.sha256) reg.files b,
  )

  meta-row :
      (name version : Str) (reg : Registry) {meta : Artifact V}
      → artifact_meta json name version reg ≡ ok meta
      → (r : Row) × (find_row name version reg.artifacts ≡ some r)
  unfolding artifact_meta get_artifact
  meta-row name version reg h = elim (Option-cases (find_row name version reg.artifacts)) [
    | inl e ↦ absurd (cc (rw (e, artifact_meta, get_artifact) at h))
    | inr found ↦ found
  ]

  pub download-row :
      (name version : Str) (reg : Registry) (r : Row) (v : V) (c : Str)
      → find_row name version reg.artifacts ≡ some r
      → json.loads r.deps ≡ some v
      → lookup (blob_path dir r.sha256) reg.files ≡ some c
      → download_artifact json dir name version reg ≡ respond json dir r.sha256 (some c)
  unfolding download_artifact get_artifact get_blob
  download-row name version reg r v c f d b =
      rw (f, d, b, download_artifact, get_artifact, get_blob) refl

  -- Published versions are immutable: a version that the registry knows keeps its metadata and its
  -- download whatever publications follow.
  pub publish_all_immutable :
      IsJson json
      → (tokens : List Token) (reqs : List Request) (reg : Registry) (name version : Str)
        (meta : Artifact V)
      → IsRegistry reg
      → artifact_meta json name version reg ≡ ok meta
      → (artifact_meta json name version (publish_all json dir digest tokens reqs reg) ≡ ok meta)
        × (download_artifact json dir name version (publish_all json dir digest tokens reqs reg)
            ≡ download_artifact json dir name version reg)
  unfolding artifact_meta get_artifact Keeps
  publish_all_immutable is_json tokens reqs reg name version meta inv h =
      let (r, f) = meta-row name version reg h in
      let (c, b) = find_row-All _ name version reg.artifacts r inv.backed f in
      let (_, (f', b')) =
        publish_all_lem is_json (Keeps name version r c)
          (λ publisher req reg1 _ _ k. Keeps-stored name version r c publisher req reg1 k) tokens
          reqs reg inv (f, b) in
      let h' = rw (f, artifact_meta, get_artifact) at h in
      let (v, d) = find_row-All _ name version reg.artifacts r inv.readable f in
      (
        rw (f', artifact_meta, get_artifact) h',
        download-row name version (publish_all json dir digest tokens reqs reg) r v c f' d b'
            ∙ sym (download-row name version reg r v c f d b),
      )
