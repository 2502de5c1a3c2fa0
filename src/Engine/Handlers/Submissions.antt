-- ===== src/Engine/Handlers/Submissions.antt =====
-- engine/main.py: what becomes of a submission, from the upload to the end of the run.
use forge_ci_cd_platform.Base.{
  ◌≡◌, refl, ◌⊎◌, codes, inl, inr, ℕ, [], none, some, Option, true, false, arith, Str, ◌==◌, ◌∷◌,
  ◌++◌, discard, set_add, contains-discard, contains, Option-cases,
}
use forge_ci_cd_platform.Base.Dict.{Dict, keys, lookup, insert, lookup-insert}
use forge_ci_cd_platform.Base.Result.{Result, ok, err, Result-cases}
use forge_ci_cd_platform.Pipeline.{JobConfig, PipelineConfig}
use forge_ci_cd_platform.Scheduler.{queued, succeeded}
use forge_ci_cd_platform.Resolver.{RegistryClient}
use forge_ci_cd_platform.Parser.{Data, Float, parse_and_validate}
use forge_ci_cd_platform.Parser.Schema.{parse_and_validate-IsClosed}
use forge_ci_cd_platform.Engine.{
  pipeline_started, plain, JobDone, JobError, RunState, new_run, execute_pipeline,
}
use forge_ci_cd_platform.Engine.Levels.{IsAsCompleted}
use forge_ci_cd_platform.Engine.Report.{IsOrderly, has_succeeded}
use forge_ci_cd_platform.Engine.Outcomes.{execute_pipeline-IsOrderly, execute_pipeline-succeeded}
use forge_ci_cd_platform.Engine.Handlers.{
  Server, RunView, http_exception, submitted, read_pipeline, submit_pipeline, run_in_background,
  get_run_status, get_lockfile,
}

-- What is known of a run that has just been submitted.
abbrev pub queued_view : Str → RunView
queued_view run_id = record {
  status = plain queued;
  jobs = [];
  lockfile_url = codes "/runs/" ++ run_id ++ codes "/lockfile";
  error = none;
}

-- The stored run has the parsed pipeline, who submitted it and the token that it runs with.
pub record IsStored (run_id submitter credentials : Str) (config : PipelineConfig) (s : Server)
    : Type 0 where
  pub run : RunState
  pub stored : lookup run_id s.run_storage ≡ some run
  pub pipeline : run.pipeline_config ≡ config
  pub by : run.submitter ≡ submitter
  pub token : run.forge_token ≡ some credentials
  pub followed : contains run_id s.checkers ≡ true

module _ (float : Data → Option Float) where
  read_pipeline-accepted :
      (source : Option Data) (config : PipelineConfig)
      → read_pipeline float source ≡ some config
      → (value : Data) × (parse_and_validate float value ≡ ok config)
  read_pipeline-accepted none config h = cc
  read_pipeline-accepted (some value) config h =
      elim (Result-cases (parse_and_validate float value)) [
        | inl (c, e) ↦ let same : c ≡ config = ground (arith, e, h) in (value, rw (← same) e)
        | inr (x, e) ↦ absurd (ground (arith, e, h))
      ]

  pub read_pipeline-some :
      (value : Data) (config : PipelineConfig)
      → parse_and_validate float value ≡ ok config
      → read_pipeline float (some value) ≡ some config
  read_pipeline-some value config e = rw (e, read_pipeline) refl

  -- A submission that the parser refuses is answered with 400 and changes nothing. Any other is
  -- answered with its identifier, and one more notice is sent. Its run is stored with the pipeline,
  -- the submitter and the token, can be followed, and is shown as queued, without an entry of a job
  -- and without an error; its lockfile is not found yet. What other runs show does not change.
  pub submit_pipeline_cases :
      (run_id submitter credentials : Str) (source : Option Data) (s : Server)
      → let z = submit_pipeline float run_id submitter credentials source s in
        ((z ≡ (err (http_exception 400), s)) × (read_pipeline float source ≡ none))
        ⊎ ((config : PipelineConfig) × (read_pipeline float source ≡ some config)
            × (z.0 ≡ ok run_id)
            × (z.1.notices ≡ s.notices ++ pipeline_started ∷ [])
            × IsStored run_id submitter credentials config z.1
            × (get_run_status run_id z.1 ≡ ok (queued_view run_id))
            × (get_lockfile run_id z.1 ≡ err (http_exception 404))
            × ((k : Str) → k == run_id ≡ false → get_run_status k z.1 ≡ get_run_status k s))
  unfolding submit_pipeline get_run_status get_lockfile new_run
  submit_pipeline_cases run_id submitter credentials source s =
      elim (Option-cases (read_pipeline float source)) [
        | inl e ↦ inl (rw (e, submit_pipeline) refl, e)
        | inr (config, e) ↦
            let run = submitted run_id submitter credentials config in
            let here : lookup run_id (insert run_id run s.run_storage) ≡ some run =
              ground (arith, lookup-insert run_id run_id run s.run_storage) in
            inr (
              config,
              e,
              rw (e, submit_pipeline) refl,
              rw (e, submit_pipeline) refl,
              rw (e, submit_pipeline)
                  (record {
                    run = run;
                    stored = here;
                    pipeline = refl;
                    by = refl;
                    token = refl;
                    followed = ground arith;
                  }),
              rw (e, submit_pipeline) (rw (here, get_run_status) refl),
              rw (e, submit_pipeline) (rw (here, get_lockfile) refl),
              λ k ne.
                  let other : lookup k (insert run_id run s.run_storage) ≡ lookup k s.run_storage =
                    ground (arith, lookup-insert k run_id run s.run_storage, ne) in
                  rw (e, submit_pipeline) (rw (other, get_run_status) refl),
            )
      ]

module _ (float : Data → Option Float)
    (as_completed : Dict JobConfig → Dict (Result JobError JobDone))
    (completes : IsAsCompleted false as_completed) (client : RegistryClient) (fuel limit : ℕ) where
  -- What the engine holds of a run once it is over.
  pub record IsOver (run_id : Str) (config : PipelineConfig) (s s' : Server) : Type 0 where
    pub run : RunState
    pub stored : lookup run_id s'.run_storage ≡ some run
    pub orderly : IsOrderly config.jobs run.jobs
    pub success :
        run.status ≡ plain succeeded
        → (j : Str) → contains j (keys config.jobs) ≡ true
        → has_succeeded (lookup j run.jobs) ≡ true
    pub others : (k : Str) → k == run_id ≡ false → lookup k s'.run_storage ≡ lookup k s.run_storage
    pub unregistered : contains run_id s'.checkers ≡ false

  -- From the upload to the end of the run, where the futures of a level come once each: a submission
  -- that the parser accepts is run in the background to its end, whatever its jobs return or raise.
  -- Then a job is recorded as started only if all its
  -- needs are recorded as succeeded, the run is recorded as succeeded only if all its jobs are, the
  -- run is no longer followed, and no other run has changed.
  pub submit_pipeline-IsOver :
      (run_id submitter credentials : Str) (source : Option Data) (s : Server)
      (config : PipelineConfig)
      → read_pipeline float source ≡ some config
      → (s' : Server) × (run_in_background as_completed client fuel limit run_id
            (submit_pipeline float run_id submitter credentials source s).1
          ≡ some s')
        × IsOver run_id config s s'
  unfolding submit_pipeline run_in_background new_run
  submit_pipeline-IsOver run_id submitter credentials source s config accepted =
      let (value, e) = read_pipeline-accepted float source config accepted in
      let (unique, _) = parse_and_validate-IsClosed float value config e in
      let run = submitted run_id submitter credentials config in
      let runs = insert run_id run s.run_storage in
      let found : lookup run_id runs ≡ some run =
        ground (arith, lookup-insert run_id run_id run s.run_storage) in
      let over = execute_pipeline as_completed client fuel limit run in
      (
        record {
          run_storage = insert run_id over.0 runs;
          checkers = discard run_id (set_add run_id s.checkers);
          notices = s.notices ++ pipeline_started ∷ [] ++ over.1;
        },
        rw (accepted, submit_pipeline) (rw (found, run_in_background) refl),
        record {
          run = over.0;
          stored = ground (arith, lookup-insert run_id run_id over.0 runs);
          orderly =
              execute_pipeline-IsOrderly as_completed client fuel limit completes run unique refl;
          success = execute_pipeline-succeeded as_completed client fuel limit completes run unique;
          others = λ k ne. ground (
            arith,
            lookup-insert k run_id over.0 runs,
            lookup-insert k run_id run s.run_storage,
            ne,
          );
          unregistered = ground (arith, contains-discard run_id run_id (set_add run_id s.checkers));
        },
      )
