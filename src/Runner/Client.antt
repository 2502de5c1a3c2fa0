-- ===== src/Runner/Client.antt =====
-- engine/runner.py: the data of a container, the Docker client as operations on a world, and code that
-- runs in the world and may raise.
use forge_ci_cd_platform.Base.{ℕ, List, Option, Bool, Str}
use forge_ci_cd_platform.Base.Result.{Result, ok, err}

-- `ContainerError`, which `run_job` catches, and any other exception.
pub data RunError : Type 0 where
  container_error other_error : RunError

pub record Mount : Type 0 where
  pub target : Str
  pub source : Str
  pub read_only : Bool

-- The arguments of `containers.create`.
pub record Container : Type 0 where
  pub image : Str
  pub name : Str
  pub command : List Str
  pub mounts : List Mount
  pub working_dir : Str
  pub user : Str
  pub cap_drop : List Str
  pub security_opt : List Str
  pub pids_limit : ℕ
  pub read_only : Bool
  pub tmpfs : List (Str × Str)
  pub network : Str
  pub cpu_quota : ℕ
  pub cpu_period : ℕ
  pub mem_limit : ℕ
  pub memswap_limit : ℕ
  pub environment : List (Str × Str)

-- A call that changes containers.
pub data Call : Type 0 where
  created : Container → Call
  started : Call
  executed : (command : Str) → Call
  killed stopped removed : Call

-- The Docker client, `time.time` and the log callback, on a world `S`. An output is a list of the
-- lines of its chunks.
pub record Docker (S : Type 0) : Type 0 where
  pub now : S → ℕ × S
  pub has_image : Str → S → Bool × S
  pub pull : Str → S → Result RunError (Unit {0}) × S
  pub create : Container → S → Result RunError (Unit {0}) × S
  pub start : S → Result RunError (Unit {0}) × S
  pub exec : Str → Str → S → Result RunError (List (List Str)) × S
  pub kill : S → Result RunError (Unit {0}) × S
  pub exit_code : S → Result RunError (Option ℕ) × S
  pub oom_killed : S → Result RunError Bool × S
  pub stop : S → Result RunError (Unit {0}) × S
  pub remove : S → Result RunError (Unit {0}) × S
  pub log : Str → S → S

pub record World (S : Type 0) : Type 0 where
  pub docker : S
  pub calls : List Call

pub record JobResult : Type 0 where
  pub job_name : Str
  pub exit_code : ℕ
  pub status : Str
  pub log_path : Str
  pub duration_seconds : ℕ

pub record Runner : Type 0 where
  pub registry_url : Str
  pub storage_root : Str
  pub max_job_duration_sec : ℕ
  pub network_name : Str
  pub data_volume_name : Str

-- How the loop over the steps ends.
pub data Outcome : Type 0 where
  exited : (code : ℕ) → Outcome
  timed_out oom : Outcome

-- Code that runs in the world and may raise.
abbrev pub Run : Type 0 → Type 0 → Type 0
Run S A = World S → Result RunError A × World S

infixl 5 ◌>>=◌ ◌>>◌
abbrev pub after :
    {S A B : Type 0} → Result RunError A × World S → (A → Run S B) → Result RunError B × World S
after (err e, w) k = (err e, w)
after (ok a, w) k = k a w

abbrev pub ◌>>=◌ : {S A B : Type 0} → Run S A → (A → Run S B) → Run S B
(m >>= k) w = after (m w) k

abbrev pub ◌>>◌ : {S A B : Type 0} → Run S A → Run S B → Run S B
(m >> k) w = after (m w) (λ _. k)

abbrev pub pure : {S A : Type 0} → A → Run S A
pure a w = (ok a, w)
