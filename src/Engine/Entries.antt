-- ===== src/Engine/Entries.antt =====
-- engine/main.py, `run_state.jobs`: what the loops that fill in skipped jobs leave.
use forge_ci_cd_platform.Base.{
  ◌≡◌, refl, List, [], ◌∷◌, none, some, Bool, false, arith, Str, ◌==◌, if◌then◌else◌, codes,
  str_dec, contains, get_or, Nodup, Option, map,
}
use forge_ci_cd_platform.Base.Dict.{Dict, keys, lookup, insert, lookup-insert, contains-keys}
use forge_ci_cd_platform.Scheduler.{
  JobStatus, queued, running, succeeded, failed, skipped, value, DagScheduler, get_all_statuses,
}
use forge_ci_cd_platform.Engine.{JobEntry, skipped_entry, is_skipped, skip_missing, record_skipped}

abbrev pub was_skipped : Option JobStatus → Bool
was_skipped none = false
was_skipped (some status) = is_skipped status

pub skip_missing-lookup :
    (js : List Str) (jobs : Dict JobEntry) (k : Str)
    → lookup k (skip_missing js jobs)
      ≡ get_or (lookup k jobs) (if contains k js then some skipped_entry else none)
unfolding skip_missing
skip_missing-lookup [] jobs k = ground arith
skip_missing-lookup (j ∷ js) jobs k = ground (
  arith,
  skip_missing-lookup js jobs k,
  skip_missing-lookup js (insert j skipped_entry jobs) k,
  lookup-insert k j skipped_entry jobs,
  contains-keys j jobs,
)

value-skipped : (status : JobStatus) → (value status == codes "skipped") ≡ is_skipped status
unfolding str_dec
value-skipped queued = refl
value-skipped running = refl
value-skipped succeeded = refl
value-skipped failed = refl
value-skipped skipped = refl

record_skipped-lookup :
    (st : Dict JobStatus) (jobs : Dict JobEntry) (k : Str)
    → Nodup (keys st)
    → lookup k (record_skipped (map (λ (job, status). (job, value status)) st) jobs)
      ≡ get_or (lookup k jobs) (if was_skipped (lookup k st) then some skipped_entry else none)
unfolding record_skipped
record_skipped-lookup [] jobs k u = ground arith
record_skipped-lookup ((j, status) ∷ st) jobs k (fresh, u) = ground (
  arith,
  record_skipped-lookup st jobs k u,
  record_skipped-lookup st (insert j skipped_entry jobs) k u,
  lookup-insert k j skipped_entry jobs,
  contains-keys j jobs,
  contains-keys j st,
  fresh,
  value-skipped status,
)

pub record_skipped-get_all_statuses :
    (s : DagScheduler) (jobs : Dict JobEntry) (k : Str)
    → Nodup (keys s.job_statuses)
    → lookup k (record_skipped (get_all_statuses s) jobs)
      ≡ get_or
          (lookup k jobs)
          (if was_skipped (lookup k s.job_statuses) then some skipped_entry else none)
unfolding get_all_statuses
record_skipped-get_all_statuses s jobs k u = record_skipped-lookup s.job_statuses jobs k u
