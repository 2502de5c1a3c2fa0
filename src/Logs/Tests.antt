-- ===== src/Logs/Tests.antt =====
-- engine/logs.py on a small log, and the theorems at concrete inputs.
use forge_ci_cd_platform.Base.{
  ◌≡◌, refl, List, [], ◌∷◌, ◌++◌, Option, none, some, Bool, true, false, Str, ◌==◌, if◌then◌else◌,
  str_dec, codes, map, all, not,
}
use forge_ci_cd_platform.Text.{is_nil, strip}
use forge_ci_cd_platform.Logs.{
  new_logs, LogCall, Round, is_line_break, iter_file_from, write_all, frame, stream_sse,
}
use forge_ci_cd_platform.Logs.Lines.{IsJson}
use forge_ci_cd_platform.Logs.Follow.{
  is_over, written_until_over, events_of, stream_sse-follow, stream_sse-backlog,
}

-- The JSON texts `true` and `false`: an event keeps whether its line is an error.
abbrev dumps : Bool → Str
dumps true = codes "true"
dumps false = codes "false"

abbrev loads : Str → Option Bool
loads s = if s == codes "true" then some true else if s == codes "false" then some false else none

abbrev event : Str → Str → Str → Bool
event ts job line = line == codes "error"

dumps_lem :
    (e : Bool)
    → (loads (dumps e) ≡ some e)
      × (strip (dumps e) ≡ dumps e)
      × (is_nil (dumps e) ≡ false)
      × (all (λ c. not (is_line_break c)) (dumps e) ≡ true)
unfolding str_dec strip
dumps_lem true = (refl, refl, refl, refl)
dumps_lem false = (refl, refl, refl, refl)

json : IsJson loads dumps event
json = record {
  reads = λ e. (dumps_lem e).0;
  trimmed = λ e. (dumps_lem e).1;
  full = λ e. (dumps_lem e).2;
  one_line = λ e. (dumps_lem e).3;
}

abbrev call : Str → Str → LogCall
call run_id line = record { ts = codes "12:00"; run_id = run_id; job = codes "build"; line = line }

abbrev run : Str
run = codes "r1"

abbrev other : Str
other = codes "r2"

abbrev started : List LogCall
started = call run (codes "Starting job build") ∷ call other (codes "error") ∷ []

abbrev rounds : List Round
rounds =
    record {
      before = call run (codes "error") ∷ [];
      status = some (codes "running");
      later = call run (codes "retry") ∷ [];
    }
    ∷ record {
      before = call other (codes "error") ∷ [];
      status = some (codes "failed");
      later = call run (codes "error") ∷ [];
    }
    ∷ []

-- A second reading from the offset of the first has the new lines only.
read_twice :
    (iter_file_from (some (codes "a\nb\n")) 2 ≡ (codes "b\n" ∷ [], 4))
    × (iter_file_from none 0 ≡ ([], 0))
unfolding iter_file_from
read_twice = (refl, refl)

stream_all :
    stream_sse loads dumps event
      (codes "12:01")
      run
      true
      0
      rounds
      (write_all loads dumps event started new_logs)
    ≡ codes "data: false\n\n"
      ∷ codes "data: true\n\n"
      ∷ codes "data: false\n\n"
      ∷ codes "data: true\n\n"
      ∷ []
unfolding stream_sse write_all str_dec
stream_all = refl

rounds_over : is_over rounds ≡ true
unfolding str_dec
rounds_over = refl

stream_sse-follow_example :
    stream_sse loads dumps event
      (codes "12:01")
      run
      true
      0
      rounds
      (write_all loads dumps event started new_logs)
    ≡ map
        (frame loads dumps event (codes "12:01"))
        (events_of loads dumps event run (started ++ written_until_over rounds))
stream_sse-follow_example =
    stream_sse-follow loads dumps event (codes "12:01") json run started rounds rounds_over

abbrev one_round : Round
one_round = record { before = call run (codes "error") ∷ []; status = none; later = [] }

stream_sse-backlog_example :
    stream_sse loads dumps event
      (codes "12:01")
      run
      false
      0
      (one_round ∷ [])
      (write_all loads dumps event started new_logs)
    ≡ map
        (frame loads dumps event (codes "12:01"))
        (events_of loads dumps event run (started ++ one_round.before))
stream_sse-backlog_example =
    stream_sse-backlog loads dumps event (codes "12:01") json run started one_round []
