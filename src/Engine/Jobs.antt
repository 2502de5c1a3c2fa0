-- ===== src/Engine/Jobs.antt =====
-- engine/main.py: `execute_job`, `pull_deps` and `publish_artifact`. The registry over HTTP, the runner
-- of containers, the file system and the log are operations on a world, and what a job extracts and
-- uploads is recorded in order.
pub mod Pulls
pub mod Execution
mod Tests
use forge_ci_cd_platform.Base.{
  ℕ, List, [], ◌∷◌, ◌++◌, Option, none, some, Bool, true, false, not, ◌||◌, Str, ◌==◌, eqb,
  if◌then◌else◌, codes,
}
use forge_ci_cd_platform.Base.Dict.{Dict}
use forge_ci_cd_platform.Base.Result.{Result, ok, err}
use forge_ci_cd_platform.Text.{starts_with}
use forge_ci_cd_platform.Pipeline.{JobConfig, PipelineConfig, PipelineArtifact, PipelineDependency}
use forge_ci_cd_platform.Resolver.{LockedPackage, lockfile_as_deps_dict}
use forge_ci_cd_platform.Runner.{JobResult}
use forge_ci_cd_platform.Parser.{lstrip_dots}
use forge_ci_cd_platform.Engine.{
  JobError, integrity_error, other_error, IntegrityError, PublishedArtifact,
}

-- The answer of a GET request.
pub record Response : Type 0 where
  pub status_code : ℕ
  pub content : Str

-- The POST request of `publish_artifact`.
pub record Upload : Type 0 where
  pub name : Str
  pub version : Str
  pub token : Option Str
  pub file : Str
  pub checksum : Str
  pub deps : List PipelineDependency

-- The tuple that `execute_job` returns: the exit code, the status as the runner gives it, and what
-- was published.
pub record JobReturn : Type 0 where
  pub exit_code : ℕ
  pub status : Str
  pub artifacts : List PublishedArtifact

-- The three branches of `_extract_artifact`.
pub data Archive : Type 0 where
  tar_gz zip plain_file : Str → Archive

-- What the engine calls, on a world `W`. `open_file` is `os.path.exists` with the content; `unpack` is
-- false, and `run_job` is `none`, for an exception.
pub record Host (W : Type 0) : Type 0 where
  pub get : Str → Str → W → Response × W
  pub post : Upload → W → ℕ × W
  pub run_job : Str → JobConfig → Str → W → Option JobResult × W
  pub open_file : Str → W → Option Str
  pub unpack : Str → Archive → W → Bool × W
  pub log : Str → Str → W → W

-- The world, with the packages that were extracted and the uploads.
pub record JobWorld (W : Type 0) : Type 0 where
  pub host : W
  pub pulled : List (Str × Str)
  pub uploads : List Upload

-- `_extract_artifact`: the first two bytes tell the kind.
pub archive_of : Str → Archive
archive_of content =
    if starts_with content (0x1f ∷ 0x8b ∷ [])
    then tar_gz content
    else if starts_with content (codes "PK")
    then zip content
    else plain_file content

module _ {W : Type 0} (host : Host W) (digest : Str → Str) where
  abbrev pub write_log : Str → Str → JobWorld W → JobWorld W
  write_log job line w = record w { host = host.log job line w.host }

  abbrev pub extracted :
      Str → Str → Str → JobWorld W → Bool × W → Result JobError (Unit {0}) × JobWorld W
  extracted job name content w (false, h) = (err other_error, record w { host = h })
  extracted job name content w (true, h) = (
    ok tt,
    write_log job (codes "Pulled " ++ name)
        (record w { host = h; pulled = w.pulled ++ (name, content) ∷ [] }),
  )

  -- What `pull_deps` does with a package whose content has the right checksum.
  abbrev pub extract : Str → Str → Str → JobWorld W → Result JobError (Unit {0}) × JobWorld W
  extract job name content w =
      extracted job name content w (host.unpack name (archive_of content) w.host)

  abbrev pub corrupt : Str → LockedPackage → Str → JobError
  corrupt name pkg content = integrity_error (record {
    name = name;
    version = pkg.version;
    expected = pkg.sha256;
    actual = digest content;
  })

  -- The body of the loop of `pull_deps`, on the answer of the registry.
  pub pull_answer :
      Str → Str → LockedPackage → Response → JobWorld W → Result JobError (Unit {0}) × JobWorld W
  unfolding archive_of
  pull_answer job name pkg resp w =
      if not (eqb resp.status_code 200)
      then (err other_error, w)
      else if not (digest resp.content == pkg.sha256)
      then (
        err (corrupt name pkg resp.content),
        write_log job (codes "Checksum mismatch for " ++ name) w,
      )
      else extract job name resp.content w

  abbrev pub pull_one :
      Str → Str → LockedPackage → JobWorld W → Result JobError (Unit {0}) × JobWorld W
  pull_one job name pkg w =
      let (resp, h) = host.get name pkg.version w.host in
      pull_answer job name pkg resp (record w { host = h })

  -- What follows runs unless an exception was raised.
  abbrev pub after :
      {A B : Type 0}
      → Result JobError A × JobWorld W
      → (A → JobWorld W → Result JobError B × JobWorld W)
      → Result JobError B × JobWorld W
  after (err e, w) k = (err e, w)
  after (ok a, w) k = k a w

  -- The loop over the packages of the lockfile.
  pub pull_each : Str → Dict LockedPackage → JobWorld W → Result JobError (Unit {0}) × JobWorld W
  unfolding pull_answer
  pull_each job [] w = (ok tt, w)
  pull_each job ((name, pkg) ∷ deps) w =
      after (pull_one job name pkg w) (λ _ w'. pull_each job deps w')

  -- `pull_deps`
  pub pull_deps : Str → List LockedPackage → JobWorld W → Result JobError (Unit {0}) × JobWorld W
  unfolding pull_each lockfile_as_deps_dict
  pull_deps job lockfile w = pull_each job (lockfile_as_deps_dict lockfile []) w

  -- `publish_artifact`, on the content of the file
  pub publish_artifact :
      Str
      → Str
      → Str
      → Option Str
      → List PipelineDependency
      → JobWorld W
      → Result JobError PublishedArtifact × JobWorld W
  publish_artifact content name version token declared_deps w =
      let sha256 = digest content in
      let upload : Upload = record {
        name = name;
        version = version;
        token = token;
        file = content;
        checksum = codes "sha256:" ++ sha256;
        deps = declared_deps;
      } in
      let (status_code, h) = host.post upload w.host in
      let w' = record w { host = h; uploads = w.uploads ++ upload ∷ [] } in
      if eqb status_code 200 || eqb status_code 201
      then (ok (record { name = name; version = version; sha256 = sha256 }), w')
      else (err other_error, w')

  -- The loop over the artifacts of a job that succeeded: those whose file exists are published.
  pub publish_each :
      Str
      → Option Str
      → List PipelineDependency
      → List PipelineArtifact
      → JobWorld W
      → Result JobError (List PublishedArtifact) × JobWorld W
  unfolding publish_artifact lstrip_dots
  publish_each job token deps [] w = (ok [], w)
  publish_each job token deps (a ∷ as') w = elim (host.open_file (lstrip_dots a.path) w.host) [
    | none ↦ publish_each job token deps as' w
    | some content ↦ after (publish_artifact content a.name a.version token deps w) (λ published w1.
        after (publish_each job token deps as' (write_log job (codes "Published " ++ a.name) w1))
          (λ rest w2. (ok (published ∷ rest), w2)))
  ]

  abbrev pub token_text : Option Str → Str
  token_text none = []
  token_text (some t) = t

  -- The end of `execute_job`, after the run: only a job that exits with 0 publishes.
  abbrev pub publish_result :
      Str
      → PipelineConfig
      → Option Str
      → JobResult
      → JobWorld W
      → Result JobError (List PublishedArtifact) × JobWorld W
  publish_result job config token result w =
      if eqb result.exit_code 0
      then publish_each job token config.dependencies config.artifacts w
      else (ok [], w)

  -- What is returned.
  abbrev pub done_of : JobResult → List PublishedArtifact → JobReturn
  done_of result published = record {
    exit_code = result.exit_code;
    status = result.status;
    artifacts = published;
  }

  abbrev pub returned : Option JobResult → Result JobError JobResult
  returned none = err other_error
  returned (some r) = ok r

  -- `job_runner.run_job`
  abbrev pub run_in_container :
      Str → JobConfig → Option Str → JobWorld W → Result JobError JobResult × JobWorld W
  run_in_container job job_config token w =
      let (r, h) = host.run_job job job_config (token_text token) w.host in
      (returned r, record w { host = h })

  -- `execute_job`
  pub execute_job :
      Str
      → JobConfig
      → PipelineConfig
      → List LockedPackage
      → Option Str
      → JobWorld W
      → Result JobError JobReturn × JobWorld W
  unfolding pull_deps publish_each
  execute_job job job_config config lockfile token w =
      after (pull_deps job lockfile (write_log job (codes "Starting job " ++ job) w)) (λ _ w1.
        after (run_in_container job job_config token w1) (λ result w2.
          after (publish_result job config token result w2)
            (λ published w3. (ok (done_of result published), w3))))
