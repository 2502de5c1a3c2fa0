-- ===== src/Engine/Handlers/Tests.antt =====
-- engine/main.py, a submission on a small server, and the theorems at concrete inputs.
use forge_ci_cd_platform.Base.{
  ◌≡◌, refl, ◌⊎◌, [], ◌∷◌, ◌++◌, none, some, false, Str, ◌==◌, codes, str_dec,
}
use forge_ci_cd_platform.Base.Result.{ok, err}
use forge_ci_cd_platform.Pipeline.{PipelineConfig, to_dict}
use forge_ci_cd_platform.Parser.Tests.{float, two_jobs, accepted, parse_two_jobs}
use forge_ci_cd_platform.Engine.{new_run, pipeline_started}
use forge_ci_cd_platform.Engine.Tests.{in_order, no_packages, all_succeed, all_complete}
use forge_ci_cd_platform.Engine.Handlers.{
  Server, http_exception, read_pipeline, submit_pipeline, run_in_background, get_run_status,
  get_lockfile,
}
use forge_ci_cd_platform.Engine.Handlers.Submissions.{
  IsOver, IsStored, queued_view, read_pipeline-some, submit_pipeline_cases, submit_pipeline-IsOver,
}

abbrev run_id : Str
run_id = codes "r2"

abbrev submitter : Str
submitter = codes "ci"

abbrev credentials : Str
credentials = codes "t0"

abbrev other_run : Str
other_run = codes "r1"

-- A server on which a run is queued.
abbrev server : Server
unfolding new_run
server = record {
  run_storage = (other_run, new_run other_run (to_dict accepted) submitter) ∷ [];
  checkers = other_run ∷ [];
  notices = [];
}

read_two_jobs : read_pipeline float (some two_jobs) ≡ some (to_dict accepted)
read_two_jobs = read_pipeline-some float two_jobs (to_dict accepted) parse_two_jobs

refuse_invalid_yaml :
    submit_pipeline float run_id submitter credentials none server
    ≡ (err (http_exception 400), server)
unfolding submit_pipeline
refuse_invalid_yaml = refl

missing_run : get_run_status run_id server ≡ err (http_exception 404)
unfolding get_run_status new_run str_dec
missing_run = refl

submit_pipeline_cases_example :
    let z = submit_pipeline float run_id submitter credentials (some two_jobs) server in
    ((z ≡ (err (http_exception 400), server)) × (read_pipeline float (some two_jobs) ≡ none))
    ⊎ ((config : PipelineConfig) × (read_pipeline float (some two_jobs) ≡ some config)
        × (z.0 ≡ ok run_id)
        × (z.1.notices ≡ server.notices ++ pipeline_started ∷ [])
        × IsStored run_id submitter credentials config z.1
        × (get_run_status run_id z.1 ≡ ok (queued_view run_id))
        × (get_lockfile run_id z.1 ≡ err (http_exception 404))
        × ((k : Str) → k == run_id ≡ false → get_run_status k z.1 ≡ get_run_status k server))
submit_pipeline_cases_example =
    submit_pipeline_cases float run_id submitter credentials (some two_jobs) server

submit_pipeline-IsOver_example :
    (s' : Server) × (run_in_background
        (in_order all_succeed)
        no_packages
        1
        4
        run_id
        (submit_pipeline float run_id submitter credentials (some two_jobs) server).1
      ≡ some s')
    × IsOver float
        (in_order all_succeed)
        all_complete
        no_packages
        1
        4
        run_id
        (to_dict accepted)
        server
        s'
submit_pipeline-IsOver_example =
    submit_pipeline-IsOver float (in_order all_succeed) all_complete no_packages 1 4 run_id
      submitter credentials (some two_jobs) server (to_dict accepted) read_two_jobs
