-- ===== src/Engine/State.antt =====
-- engine/main.py: RunState, the entries of its jobs, and what a run reports.
use forge_ci_cd_platform.Base.{ℕ, List, [], Option, none, some, Bool, true, false, Str}
use forge_ci_cd_platform.Base.Dict.{Dict}
use forge_ci_cd_platform.Pipeline.{PipelineConfig}
use forge_ci_cd_platform.Scheduler
use forge_ci_cd_platform.Scheduler.{JobStatus, queued, failed, skipped, DagScheduler}
use forge_ci_cd_platform.Resolver
use forge_ci_cd_platform.Resolver.{LockedPackage}

-- The texts of a status: those of `JobStatus`, and three more.
pub data Status : Type 0 where
  plain : JobStatus → Status
  integrity_failure cycle_failure conflict_failure : Status

pub record IntegrityError : Type 0 where
  pub name : Str
  pub version : Str
  pub expected : Str
  pub actual : Str

-- What `execute_job` raises: an `IntegrityError`, or any other exception.
pub data JobError : Type 0 where
  integrity_error : IntegrityError → JobError
  other_error : JobError

pub record PublishedArtifact : Type 0 where
  pub name : Str
  pub version : Str
  pub sha256 : Str

-- What `execute_job` returns, where `JobStatus(status)` is a value. The runner gives the texts of two
-- such statuses only, `succeeded` and `failed`.
pub record JobDone : Type 0 where
  pub exit_code : ℕ
  pub status : JobStatus
  pub artifacts : List PublishedArtifact

-- A value of `run_state.jobs`; the key `artifacts` may be missing.
pub record JobEntry : Type 0 where
  pub status : Status
  pub exit_code : Option ℕ
  pub artifacts : Option (List PublishedArtifact)

-- An exception that ends a run. `endless` is the model's own, for a recursion that the fuel does not
-- end.
pub data EngineError : Type 0 where
  resolution_error : Resolver.Error → EngineError
  scheduler_error : Scheduler.Error → EngineError
  job_error : JobError → EngineError
  key_error : Str → EngineError
  endless : EngineError

-- The calls of the Slack notifier.
pub data Notice : Type 0 where
  pipeline_started resolution_failed : Notice
  integrity_failed : IntegrityError → Notice
  pipeline_succeeded : Notice
  pipeline_failed : (failing : Option Str) → Notice

pub record RunState : Type 0 where
  pub run_id : Str
  pub pipeline_config : PipelineConfig
  pub submitter : Str
  pub status : Status
  pub jobs : Dict JobEntry
  pub lockfile : Option (List LockedPackage)
  pub forge_token : Option Str
  pub error : Option EngineError

-- `RunState(run_id, pipeline_config, submitter)`
unfoldable pub new_run : Str → PipelineConfig → Str → RunState
new_run run_id pipeline_config submitter = record {
  run_id = run_id;
  pipeline_config = pipeline_config;
  submitter = submitter;
  status = plain queued;
  jobs = [];
  lockfile = none;
  forge_token = none;
  error = none;
}

-- What the loop over the levels changes.
pub record Progress : Type 0 where
  pub jobs : Dict JobEntry
  pub scheduler : DagScheduler
  pub integrity_failed : Bool
  pub notices : List Notice

-- What is left of a loop that an exception ends.
pub record Aborted : Type 0 where
  pub jobs : Dict JobEntry
  pub error : EngineError
  pub notices : List Notice

abbrev pub skipped_entry : JobEntry
skipped_entry = record { status = plain skipped; exit_code = none; artifacts = none }

abbrev pub integrity_entry : JobEntry
integrity_entry = record { status = integrity_failure; exit_code = some 1; artifacts = none }

abbrev pub done_entry : JobDone → JobEntry
done_entry done = record {
  status = plain done.status;
  exit_code = some done.exit_code;
  artifacts = some done.artifacts;
}

abbrev pub is_failed : JobStatus → Bool
is_failed failed = true
is_failed _ = false

abbrev pub is_skipped : JobStatus → Bool
is_skipped skipped = true
is_skipped _ = false
