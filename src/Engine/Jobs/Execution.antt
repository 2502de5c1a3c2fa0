-- ===== src/Engine/Jobs/Execution.antt =====
-- engine/main.py, `execute_job`: what is extracted, run and uploaded.
use mathlib.Core.List.{append_assoc, append-nil}
use forge_ci_cd_platform.Base.{
  ◌≡◌, ◌≢◌, refl, ◌∙◌, sym, ap, inl, inr, List, [], ◌∷◌, ◌++◌, Option, none, some, ◌||◌, arith, Str,
  eqb, map, All, codes, Bool-cases, Option-cases,
}
use forge_ci_cd_platform.Base.Result.{Result, ok, err}
use forge_ci_cd_platform.Pipeline.{JobConfig, PipelineConfig, PipelineArtifact, PipelineDependency}
use forge_ci_cd_platform.Resolver.{LockedPackage, lockfile_as_deps_dict}
use forge_ci_cd_platform.Runner.{JobResult}
use forge_ci_cd_platform.Parser.{lstrip_dots}
use forge_ci_cd_platform.Engine.{JobError, integrity_error, other_error, PublishedArtifact}
use forge_ci_cd_platform.Engine.Jobs.{
  Upload, Host, JobWorld, pull_deps, publish_artifact, publish_each, publish_result, execute_job,
  JobReturn, token_text, done_of, after, write_log, run_in_container, returned,
}
use forge_ci_cd_platform.Engine.Jobs.Pulls.{Pulled, Stopped, IsPull, Extracts, pull_deps-IsPull}

module _ {W : Type 0} (host : Host W) (digest : Str → Str) where
  -- What an upload is recorded as in the job's result.
  abbrev pub published_of : Upload → PublishedArtifact
  published_of u = record { name = u.name; version = u.version; sha256 = digest u.file }

  -- An upload carries the checksum of its file.
  abbrev pub IsSigned : Upload → Type 0
  IsSigned u = u.checksum ≡ codes "sha256:" ++ digest u.file

  -- Uploads are added and nothing is extracted; on return, the list of what was published is theirs.
  IsPublish : JobWorld W → Result JobError (List PublishedArtifact) × JobWorld W → Type 0
  IsPublish w (ok published, w') =
      (us : List Upload) × (w'.uploads ≡ w.uploads ++ us)
      × All IsSigned us
      × (published ≡ map published_of us)
      × (w'.pulled ≡ w.pulled)
  IsPublish w (err e, w') = e ≡ other_error

  -- One upload, and its answer.
  OnePublish : Upload → JobWorld W → Result JobError PublishedArtifact × JobWorld W → Type 0
  OnePublish u w (ok p, w') =
      (w'.uploads ≡ w.uploads ++ u ∷ []) × (p ≡ published_of u) × (w'.pulled ≡ w.pulled)
  OnePublish u w (err e, w') = e ≡ other_error

  publish_artifact-OnePublish :
      (content name version : Str) (token : Option Str) (deps : List PipelineDependency)
      (w : JobWorld W)
      → (u : Upload) × IsSigned u
        × OnePublish u w (publish_artifact host digest content name version token deps w)
  unfolding publish_artifact OnePublish
  publish_artifact-OnePublish content name version token deps w =
      let upload : Upload = record {
        name = name;
        version = version;
        token = token;
        file = content;
        checksum = codes "sha256:" ++ digest content;
        deps = deps;
      } in
      let code = (host.post upload w.host).0 in
      (
        upload,
        refl,
        elim (Bool-cases (eqb code 200 || eqb code 201)) [
          | inl e ↦ rw e (refl, refl, refl)
          | inr e ↦ rw e refl
        ],
      )

  IsPublish-cons :
      (u : Upload) (w w1 w2 : JobWorld W) (p : PublishedArtifact)
      (z : Result JobError (List PublishedArtifact) × JobWorld W)
      → IsSigned u
      → (w1.uploads ≡ w.uploads ++ u ∷ []) × (p ≡ published_of u) × (w1.pulled ≡ w.pulled)
      → (w2.uploads ≡ w1.uploads) × (w2.pulled ≡ w1.pulled)
      → IsPublish w2 z
      → IsPublish w (after host digest z (λ rest w3. (ok (p ∷ rest), w3)))
  unfolding IsPublish
  IsPublish-cons u w w1 w2 p (err e, w3) signed one same rest = rest
  IsPublish-cons u w w1 w2 p (ok ps, w3) signed (up, q, pulled) (up2, pulled2)
        (us, v, all_signed, r, pulled3) =
      (
        u ∷ us,
        v ∙ ap (λ l. l ++ us) (up2 ∙ up) ∙ append_assoc w.uploads (u ∷ []) us,
        (signed, all_signed),
        cc (q, r),
        pulled3 ∙ pulled2 ∙ pulled,
      )

  IsPublish-after :
      (job name : Str) (token : Option Str) (deps : List PipelineDependency)
      (rest : List PipelineArtifact) (w : JobWorld W)
      (z : Result JobError PublishedArtifact × JobWorld W) (u : Upload)
      → IsSigned u
      → OnePublish u w z
      → ((w1 : JobWorld W) → IsPublish w1 (publish_each host digest job token deps rest w1))
      → IsPublish w (
          after host digest z (λ p w1.
            after host digest
              (publish_each host digest job token deps rest
                (write_log host digest job (codes "Published " ++ name) w1))
              (λ ps w2. (ok (p ∷ ps), w2))))
  unfolding IsPublish OnePublish
  IsPublish-after job name token deps rest w (err e, w1) u signed one loop = one
  IsPublish-after job name token deps rest w (ok p, w1) u signed one loop =
      let w2 = write_log host digest job (codes "Published " ++ name) w1 in
      IsPublish-cons u w w1 w2 p (publish_each host digest job token deps rest w2) signed one
        (refl, refl) (loop w2)

  publish_each-IsPublish :
      (job : Str) (token : Option Str) (deps : List PipelineDependency)
      (artifacts : List PipelineArtifact) (w : JobWorld W)
      → IsPublish w (publish_each host digest job token deps artifacts w)
  unfolding publish_each IsPublish
  publish_each-IsPublish job token deps [] w = ([], sym (append-nil w.uploads), tt, refl, refl)
  publish_each-IsPublish job token deps (a ∷ as') w =
      elim (Option-cases (host.open_file (lstrip_dots a.path) w.host)) [
        | inl e ↦ rw (e, publish_each) (publish_each-IsPublish job token deps as' w)
        | inr (content, e) ↦
            let (u, signed, one) =
              publish_artifact-OnePublish content a.name a.version token deps w in
            rw (e, publish_each)
              (IsPublish-after job a.name token deps as' w
                (publish_artifact host digest content a.name a.version token deps w) u signed one
                (publish_each-IsPublish job token deps as'))
      ]

  idle-IsPublish : (w : JobWorld W) → IsPublish w (ok [], w)
  unfolding IsPublish
  idle-IsPublish w = ([], sym (append-nil w.uploads), tt, refl, refl)

  -- The exit code and the status are the runner's, of a run of this job with the token or "".
  pub record Ran (job : Str) (job_config : JobConfig) (token : Option Str) (done : JobReturn)
      : Type 0 where
    pub before : W
    pub behind : W
    pub result : JobResult
    pub run :
        host.run_job job job_config (token_text host digest token) before ≡ (some result, behind)
    pub exit_code : done.exit_code ≡ result.exit_code
    pub status : done.status ≡ result.status

  -- What `execute_job` leaves, when it returns and when it raises.
  abbrev pub IsExecution :
      Str
      → JobConfig
      → Option Str
      → List LockedPackage
      → JobWorld W
      → Result JobError JobReturn × JobWorld W
      → Type 0
  IsExecution job job_config token lockfile w (ok done, w') =
      Ran job job_config token done
      × ((ps : List (Str × Str)) × (w'.pulled ≡ w.pulled ++ ps)
          × Pulled host digest (lockfile_as_deps_dict lockfile []) ps)
      × ((us : List Upload) × (w'.uploads ≡ w.uploads ++ us)
          × All IsSigned us
          × (done.artifacts ≡ map published_of us)
          × (done.exit_code ≢ 0 → us ≡ []))
  IsExecution job job_config token lockfile w (err (integrity_error x), w') =
      (ps : List (Str × Str)) × Extracts host digest w ps w'
      × Stopped host digest (lockfile_as_deps_dict lockfile []) ps (integrity_error x)
  IsExecution job job_config token lockfile w (err other_error, w') = Unit

  -- After the packages are pulled.
  module _ (job : Str) (job_config : JobConfig) (token : Option Str) (lockfile : List LockedPackage)
      (w w1 : JobWorld W) (ps : List (Str × Str)) (extracts : Extracts host digest w ps w1)
      (pulled : Pulled host digest (lockfile_as_deps_dict lockfile []) ps) where
    done-IsExecution :
        (result : JobResult) (h h' : W) (w2 : JobWorld W)
        (z : Result JobError (List PublishedArtifact) × JobWorld W)
        → (host.run_job job job_config (token_text host digest token) h ≡ (some result, h'))
        → (w2.pulled ≡ w1.pulled) × (w2.uploads ≡ w1.uploads)
        → IsPublish w2 z
        → (result.exit_code ≢ 0 → z ≡ (ok [], w2))
        → IsExecution job job_config token lockfile w
            (after host digest z (λ published w3. (ok (done_of host digest result published), w3)))
    unfolding IsPublish
    done-IsExecution result h h' w2 (err (integrity_error x), w3) run same publish idle =
        absurd (cc (publish))
    done-IsExecution result h h' w2 (err other_error, w3) run same publish idle = tt
    done-IsExecution result h h' w2 (ok published, w3) run (p1, u1) (us, v, signed, q, p2) idle = (
      record {
        before = h;
        behind = h';
        result = result;
        run = run;
        exit_code = refl;
        status = refl;
      },
      (ps, p2 ∙ p1 ∙ extracts.0, pulled),
      (
        us,
        v ∙ ap (λ l. l ++ us) (u1 ∙ extracts.1),
        signed,
        q,
        λ ne.
            no_uploads us q
              (ap (λ (z : Result JobError (List PublishedArtifact) × JobWorld W). z.0) (idle ne)),
      ),
    )
      where
        no_uploads :
            (us : List Upload)
            → published ≡ map published_of us
            → ◌≡◌ {A = Result JobError (List PublishedArtifact)} (ok published) (ok [])
            → us ≡ []
        no_uploads [] q e = refl
        no_uploads (u ∷ us) q e = cc (q, e)

    run-IsExecution :
        (config : PipelineConfig)
        → IsExecution job job_config token lockfile w (
            after host digest (run_in_container host digest job job_config token w1) (λ result w2.
              after host digest
                (publish_result host digest job config token result w2)
                (λ published w3. (ok (done_of host digest result published), w3))))
    run-IsExecution config =
        ran (host.run_job job job_config (token_text host digest token) w1.host) refl
      where
        ran :
            (z : Option JobResult × W)
            → host.run_job job job_config (token_text host digest token) w1.host ≡ z
            → IsExecution job job_config token lockfile w (
                after host digest
                  (returned host digest z.0, record w1 { host = z.1 })
                  (λ result w2.
                    after host digest
                      (publish_result host digest job config token result w2)
                      (λ published w3. (ok (done_of host digest result published), w3))))
        ran (none, h) run = tt
        ran (some result, h) run =
            let w2 = record w1 { host = h } in
            elim (Bool-cases (eqb result.exit_code 0)) [
              | inl e ↦
                  done-IsExecution result w1.host h w2
                    (publish_result host digest job config token result w2) run (refl, refl)
                    (rw (e, publish_result)
                      (publish_each-IsPublish job token config.dependencies config.artifacts w2))
                    (λ ne. absurd (ne (ground (arith, e))))
              | inr e ↦
                  done-IsExecution result w1.host h w2
                    (publish_result host digest job config token result w2) run (refl, refl)
                    (rw (e, publish_result) (idle-IsPublish w2)) (λ _. rw (e, publish_result) refl)
            ]

  -- Whatever the registry, the runner and the file system do: a job that returns gives the exit code
  -- and the status of a run of that job by the runner, with the token; all packages of the lockfile
  -- were extracted, with the checksums that the lockfile names; what it reports as published are its
  -- uploads, in order, each with the checksum of its file; and it has uploaded nothing if its exit code
  -- is not 0. An integrity failure is raised only for a package of the lockfile whose content has
  -- another checksum, and then only the packages before it were extracted, and nothing was uploaded.
  pub execute_job-IsExecution :
      (job : Str) (job_config : JobConfig) (config : PipelineConfig) (lockfile : List LockedPackage)
      (token : Option Str) (w : JobWorld W)
      → IsExecution job job_config token lockfile w
          (execute_job host digest job job_config config lockfile token w)
  unfolding execute_job
  execute_job-IsExecution job job_config config lockfile token w =
      let w0 = write_log host digest job (codes "Starting job " ++ job) w in
      pulled_first (pull_deps host digest job lockfile w0)
        (pull_deps-IsPull host digest job lockfile w0)
    where
      pulled_first :
          (z : Result JobError (Unit {0}) × JobWorld W)
          → ((ps : List (Str × Str)) × Extracts host digest w ps z.1
              × IsPull host digest (lockfile_as_deps_dict lockfile []) ps z.0)
          → IsExecution job job_config token lockfile w (
              after host digest z (λ _ w1.
                after host digest
                  (run_in_container host digest job job_config token w1)
                  (λ result w2.
                    after host digest
                      (publish_result host digest job config token result w2)
                      (λ published w3. (ok (done_of host digest result published), w3)))))
      pulled_first (err (integrity_error x), w1) (ps, extracts, stopped) = (ps, extracts, stopped)
      pulled_first (err other_error, w1) h = tt
      pulled_first (ok _, w1) (ps, extracts, pulled) =
          run-IsExecution job job_config token lockfile w w1 ps extracts pulled config
