-- ===== src/Logs.antt =====
-- engine/logs.py, LogStreamer: the files of a run's log, and `stream_sse` as it follows one of them. A
-- file is what text mode reads of it, so that each of its line breaks is one character. The JSON
-- library is an argument: `event` builds an event of its time, job and line. The time at which an
-- unreadable line is sent, `now`, is an argument too.
pub mod Lines
pub mod Follow
mod Tests
use forge_ci_cd_platform.Base.{
  ℕ, ◌+◌, List, [], ◌∷◌, ◌++◌, Option, none, some, Bool, true, false, not, ◌&&◌, ◌||◌, Str, ◌==◌,
  eqb, ltb, leb, if◌then◌else◌, length, codes,
}
use forge_ci_cd_platform.Base.Dict.{Dict, lookup, insert}
use forge_ci_cd_platform.Text.{is_nil, strip, drop, cons_head}

-- The log of each job, by its run and its name, and the combined log of each run.
pub record Logs : Type 0 where
  pub job_logs : Dict Str
  pub combined : Dict Str

abbrev pub new_logs : Logs
new_logs = record { job_logs = []; combined = [] }

-- A call of `write`, at its time.
pub record LogCall : Type 0 where
  pub ts : Str
  pub run_id : Str
  pub job : Str
  pub line : Str

-- One round of the loop of `stream_sse`: what is written before the file is read, what the status
-- checker answers if there is one, and what is written until the next call of the loop's body.
pub record Round : Type 0 where
  pub before : List LogCall
  pub status : Option Str
  pub later : List LogCall

-- The characters at which `str.splitlines` ends a line.
abbrev pub is_line_break : ℕ → Bool
is_line_break c =
    (leb 10 c && leb c 13)
    || ((leb 28 c && leb c 30) || (eqb c 0x85 || (eqb c 0x2028 || eqb c 0x2029)))

-- `s.splitlines(keepends=True)`
abbrev pub splitlines : Str → List Str
splitlines [] = []
splitlines (c ∷ s) =
    let rest = splitlines s in if is_line_break c then (c ∷ []) ∷ rest else cons_head c rest

-- The value, or a text in its place.
abbrev pub text_or : Str → Option Str → Str
text_or other none = other
text_or other (some s) = s

-- `open(path, "a")` and one call of write
abbrev pub append_to : Str → Str → Dict Str → Dict Str
append_to path text files = insert path (text_or [] (lookup path files) ++ text) files

-- `_iter_file_from`; `none` is a file that does not exist.
pub iter_file_from : Option Str → ℕ → List Str × ℕ
iter_file_from none offset = ([], offset)
iter_file_from (some content) offset =
    let chunk = drop offset content in (splitlines chunk, offset + length chunk)

-- `status in ("queued", "running")`, where the status is "unknown" without a checker
abbrev pub is_active : Option Str → Bool
is_active status =
    text_or (codes "unknown") status == codes "queued"
    || text_or (codes "unknown") status == codes "running"

module _ {J : Type 0} (loads : Str → Option J) (dumps : J → Str) (event : Str → Str → Str → J) where
  -- A line of the log.
  abbrev pub payload : J → Str
  payload e = dumps e ++ 10 ∷ []

  -- `write`
  pub write : LogCall → Logs → J × Logs
  write call logs =
      let e = event call.ts call.job call.line in
      (
        e,
        record {
          job_logs = append_to (call.run_id ++ codes "/" ++ call.job) (payload e) logs.job_logs;
          combined = append_to call.run_id (payload e) logs.combined;
        },
      )

  pub write_all : List LogCall → Logs → Logs
  unfolding write
  write_all [] logs = logs
  write_all (call ∷ calls) logs = write_all calls (write call logs).1

  module _ (now : Str) where
    abbrev pub frame : J → Str
    frame e = codes "data: " ++ dumps e ++ 10 ∷ 10 ∷ []

    -- `json.loads(raw)`, or an event of the system for a line that is no JSON.
    abbrev pub event_of : Str → J
    event_of raw = elim (loads raw) [ none ↦ event now (codes "system") raw | some e ↦ e ]

    -- The loop over the lines.
    pub frames : List Str → List Str
    unfolding strip
    frames [] = []
    frames (raw ∷ lines) =
        let rest = frames lines in
        if is_nil (strip raw) then rest else frame (event_of (strip raw)) ∷ rest

    -- `stream_sse` from an offset, on the rounds in which it is resumed.
    pub stream_sse : Str → Bool → ℕ → List Round → Logs → List Str
    unfolding iter_file_from frames write_all
    stream_sse run_id follow offset [] logs = []
    stream_sse run_id follow offset (r ∷ rounds) logs =
        let logs1 = write_all r.before logs in
        let (lines, offset1) = iter_file_from (lookup run_id logs1.combined) offset in
        let logs2 = write_all r.later logs1 in
        let drained = frames (iter_file_from (lookup run_id logs2.combined) offset1).0 in
        let next = stream_sse run_id follow offset1 rounds logs2 in
        frames lines ++ (if not follow then [] else if is_active r.status then next else drained)
