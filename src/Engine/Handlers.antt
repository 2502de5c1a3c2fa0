-- ===== src/Engine/Handlers.antt =====
-- engine/main.py: the handlers over the dictionary of runs. A submission is the data that the YAML
-- library reads, or `none`; the identifier of the run is an argument.
pub mod Submissions
mod Tests
use forge_ci_cd_platform.Base.{
  ◌≡◌, refl, ◌⊎◌, inl, inr, ℕ, List, [], ◌∷◌, ◌++◌, Option, none, some, Bool, true, false, not,
  arith, Str, ◌==◌, if◌then◌else◌, discard, set_add, codes, Bool-cases,
}
use forge_ci_cd_platform.Base.Dict.{Dict, lookup, insert, lookup-insert}
use forge_ci_cd_platform.Base.Result.{Result, ok, err, Result-cases}
use forge_ci_cd_platform.Pipeline.{JobConfig, PipelineConfig}
use forge_ci_cd_platform.Scheduler.{queued}
use forge_ci_cd_platform.Resolver.{LockedPackage, RegistryClient}
use forge_ci_cd_platform.Parser.{Data, Float, ParseError, parse_and_validate}
use forge_ci_cd_platform.Engine.{
  Status, plain, JobEntry, JobDone, JobError, RunState, new_run, EngineError, Notice,
  pipeline_started, execute_pipeline,
}

-- The runs, the runs whose status the log streamer can ask for, and the notices sent.
pub record Server : Type 0 where
  pub run_storage : Dict RunState
  pub checkers : List Str
  pub notices : List Notice

-- `HTTPException(status_code)`
pub data HttpError : Type 0 where
  http_exception : (status_code : ℕ) → HttpError

-- `to_dict`, without the times.
pub record RunView : Type 0 where
  pub status : Status
  pub jobs : Dict JobEntry
  pub lockfile_url : Str
  pub error : Option EngineError

pub to_dict : RunState → RunView
to_dict run = record {
  status = run.status;
  jobs = run.jobs;
  lockfile_url = codes "/runs/" ++ run.run_id ++ codes "/lockfile";
  error = run.error;
}

pub get_run_status : Str → Server → Result HttpError RunView
unfolding to_dict
get_run_status run_id s = elim (lookup run_id s.run_storage) [
  | none ↦ err (http_exception 404)
  | some run ↦ ok (to_dict run)
]

pub get_lockfile : Str → Server → Result HttpError (List LockedPackage)
get_lockfile run_id s = elim (lookup run_id s.run_storage) [
  | none ↦ err (http_exception 404)
  | some run ↦ elim run.lockfile [ none ↦ err (http_exception 404) | some lockfile ↦ ok lockfile ]
]

-- The run that a submission starts.
abbrev pub submitted : Str → Str → Str → PipelineConfig → RunState
submitted run_id submitter credentials config = record (new_run run_id config submitter) {
  forge_token = some credentials;
}

module _ (float : Data → Option Float) where
  abbrev pub read_pipeline : Option Data → Option PipelineConfig
  read_pipeline none = none
  read_pipeline (some source) = elim (parse_and_validate float source) [
    | err e ↦ none
    | ok config ↦ some config
  ]

  -- `submit_pipeline`, without the background task
  pub submit_pipeline : Str → Str → Str → Option Data → Server → Result HttpError Str × Server
  unfolding parse_and_validate new_run
  submit_pipeline run_id submitter credentials source s = elim (read_pipeline source) [
    | none ↦ (err (http_exception 400), s)
    | some config ↦ (
      ok run_id,
      record {
        run_storage = insert run_id (submitted run_id submitter credentials config) s.run_storage;
        checkers = set_add run_id s.checkers;
        notices = s.notices ++ pipeline_started ∷ [];
      },
    )
  ]

module _ (as_completed : Dict JobConfig → Dict (Result JobError JobDone)) (client : RegistryClient)
    (fuel limit : ℕ) where
  -- The background task of a submission: `execute_pipeline` on the stored run, which unregisters its
  -- status at the end. A KeyError of an unknown run is `none`.
  pub run_in_background : Str → Server → Option Server
  unfolding execute_pipeline
  run_in_background run_id s = elim (lookup run_id s.run_storage) [
    | none ↦ none
    | some run ↦
        let (run', sent) = execute_pipeline as_completed client fuel limit run in
        some (record {
          run_storage = insert run_id run' s.run_storage;
          checkers = discard run_id s.checkers;
          notices = s.notices ++ sent;
        })
  ]
