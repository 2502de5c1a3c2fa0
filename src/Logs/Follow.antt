-- ===== src/Logs/Follow.antt =====
-- engine/logs.py: `stream_sse` sends the events that `write` has appended.
use mathlib.Core.List.{append_assoc, append-nil, map-append}
use forge_ci_cd_platform.Base.{
  ◌≡◌, refl, sym, ap, ◌∙◌, inl, inr, ℕ, List, [], ◌∷◌, ◌++◌, Option, some, Bool, true, false, not,
  ◌||◌, arith, Str, ◌==◌, if◌then◌else◌, map, length, Bool-cases,
}
use forge_ci_cd_platform.Base.Dict.{Dict, lookup, insert, lookup-insert}
use forge_ci_cd_platform.Logs.{
  Logs, new_logs, LogCall, Round, text_or, append_to, iter_file_from, payload, write, write_all,
  frame, frames, stream_sse, is_active,
}
use forge_ci_cd_platform.Logs.Lines.{
  IsJson, written, log_of, written-append, iter_file_from-log_of, frames-payloads, text_or-log_of,
  log_of-snoc, written-one, log_of-nil,
}

-- The run is over in some round, for the status checker.
abbrev pub is_over : List Round → Bool
is_over [] = false
is_over (r ∷ rounds) = not (is_active r.status) || is_over rounds

-- What is written up to the end of the round in which the run is over.
abbrev pub written_until_over : List Round → List LogCall
written_until_over [] = []
written_until_over (r ∷ rounds) =
    let rest = written_until_over rounds in
    r.before ++ r.later ++ (if is_active r.status then rest else [])

module _ {J : Type 0} (loads : Str → Option J) (dumps : J → Str) (event : Str → Str → Str → J) where
  -- The events of a run among all calls of `write`.
  abbrev pub events_of : Str → List LogCall → List J
  events_of run_id [] = []
  events_of run_id (call ∷ calls) =
      let rest = events_of run_id calls in
      if call.run_id == run_id then event call.ts call.job call.line ∷ rest else rest

  events_of-append :
      (run_id : Str) (xs ys : List LogCall)
      → events_of run_id (xs ++ ys) ≡ events_of run_id xs ++ events_of run_id ys
  events_of-append run_id [] ys = refl
  events_of-append run_id (call ∷ xs) ys = ground (arith, events_of-append run_id xs ys)

  -- The combined log of a run has these events.
  abbrev HasLog : Str → List J → Logs → Type 0
  HasLog run_id es logs = lookup run_id logs.combined ≡ log_of loads dumps event es

  append_to-log :
      (run_id k : Str) (es : List J) (e : J) (files : Dict Str)
      → lookup run_id files ≡ log_of loads dumps event es
      → lookup run_id (append_to k (payload loads dumps event e) files)
        ≡ log_of loads dumps event (es ++ (if k == run_id then e ∷ [] else []))
  append_to-log run_id k es e files h =
      let text = text_or [] (lookup k files) ++ payload loads dumps event e in
      let stored = lookup-insert run_id k text files in
      elim (Bool-cases (k == run_id)) [
        | inl same ↦
            let eq : k ≡ run_id = ground (arith, same) in
            let here : lookup run_id (insert k text files) ≡ some text =
              ground (arith, stored, same) in
            let was : text ≡ written loads dumps event (es ++ e ∷ []) =
              rw
                (
                  eq,
                  h,
                  text_or-log_of loads dumps event es,
                  written-append loads dumps event es (e ∷ []),
                  written-one loads dumps event e,
                )
                refl in
            rw (same, here, was, log_of-snoc loads dumps event es e) refl
        | inr other ↦
            let there : lookup run_id (insert k text files) ≡ lookup run_id files =
              ground (arith, stored, other) in
            rw (other, there, append-nil es) h
      ]

  write_all-HasLog :
      (run_id : Str) (es : List J) (calls : List LogCall) (logs : Logs)
      → HasLog run_id es logs
      → HasLog run_id (es ++ events_of run_id calls) (write_all loads dumps event calls logs)
  unfolding write_all write
  write_all-HasLog run_id es [] logs h = rw (append-nil es) h
  write_all-HasLog run_id es (call ∷ calls) logs h =
      let e = event call.ts call.job call.line in
      let one = if call.run_id == run_id then e ∷ [] else [] in
      let more = append_to-log run_id call.run_id es e logs.combined h in
      let glue : es ++ events_of run_id (call ∷ calls) ≡ (es ++ one) ++ events_of run_id calls =
        elim (Bool-cases (call.run_id == run_id)) [
          | inl same ↦ rw same (sym (append_assoc es (e ∷ []) (events_of run_id calls)))
          | inr other ↦ rw (other, append-nil es) refl
        ] in
      rw glue (write_all-HasLog run_id (es ++ one) calls (write loads dumps event call logs).1 more)

  module _ (now : Str) (json : IsJson loads dumps event) where
    -- One reading of the file, from where the events so far end.
    read-sent :
        (run_id : Str) (es fs : List J) (logs : Logs)
        → HasLog run_id (es ++ fs) logs
        → (frames loads dumps event now
              (iter_file_from
                (lookup run_id logs.combined)
                (length (written loads dumps event es))).0
            ≡ map (frame loads dumps event now) fs)
          × ((iter_file_from
                (lookup run_id logs.combined)
                (length (written loads dumps event es))).1
              ≡ length (written loads dumps event (es ++ fs)))
    read-sent run_id es fs logs h =
        let read = iter_file_from-log_of loads dumps event json es fs in
        (rw (h, read) (frames-payloads loads dumps event now json fs), rw (h, read) refl)

    frames-joined :
        (ps eb rest : List J)
        → map (frame loads dumps event now) (ps ++ eb) ++ map (frame loads dumps event now) rest
          ≡ map (frame loads dumps event now) (ps ++ (eb ++ rest))
    frames-joined ps eb rest =
        sym (map-append (frame loads dumps event now) (ps ++ eb) rest)
        ∙ ap (λ es. map (frame loads dumps event now) es) (append_assoc ps eb rest)

    -- The log after the two parts of a round.
    abbrev after_before : Round → Logs → Logs
    after_before r logs = write_all loads dumps event r.before logs

    abbrev after_round : Round → Logs → Logs
    after_round r logs = write_all loads dumps event r.later (after_before r logs)

    abbrev read_at : Str → Logs → ℕ → List Str × ℕ
    read_at run_id logs k = iter_file_from (lookup run_id logs.combined) k

    stream_sse-step :
        (run_id : Str) (k : ℕ) (r : Round) (rounds : List Round) (logs : Logs)
        → let z = read_at run_id (after_before r logs) k in
          stream_sse loads dumps event now run_id true k (r ∷ rounds) logs
          ≡ frames loads dumps event now z.0
            ++ (if is_active r.status
                then stream_sse loads dumps event now run_id true z.1 rounds (after_round r logs)
                else frames loads dumps event now (read_at run_id (after_round r logs) z.1).0)
    unfolding stream_sse
    stream_sse-step run_id k r rounds logs = refl

    -- A reader who has read `es`, of which `ps` is not read yet, sends `ps` and all that comes.
    follow-sent :
        (run_id : Str) (rounds : List Round) (es ps : List J) (logs : Logs)
        → HasLog run_id (es ++ ps) logs
        → is_over rounds ≡ true
        → stream_sse loads dumps event now run_id true
            (length (written loads dumps event es))
            rounds
            logs
          ≡ map (frame loads dumps event now) (ps ++ events_of run_id (written_until_over rounds))
    follow-sent run_id [] es ps logs h over = absurd (cc (over))
    follow-sent run_id (r ∷ rounds) es ps logs h over =
        let eb = events_of run_id r.before in
        let el = events_of run_id r.later in
        let es1 = es ++ (ps ++ eb) in
        let log1 : HasLog run_id es1 (after_before r logs) =
          rw (← append_assoc es ps eb) (write_all-HasLog run_id (es ++ ps) r.before logs h) in
        let log2 = write_all-HasLog run_id es1 r.later (after_before r logs) log1 in
        let (first, offset) = read-sent run_id es (ps ++ eb) (after_before r logs) log1 in
        let (last, _) = read-sent run_id es1 el (after_round r logs) log2 in
        let k = length (written loads dumps event es) in
        elim (Bool-cases (is_active r.status)) [
          | inl e ↦
              let rest =
                follow-sent run_id rounds es1 el (after_round r logs) log2
                  (ground (arith, e, over)) in
              rw (stream_sse-step run_id k r rounds logs, first, offset, e, rest)
                (rw
                  (
                    events_of-append run_id (r.before ++ r.later) (written_until_over rounds),
                    events_of-append run_id r.before r.later,
                    append_assoc eb el (events_of run_id (written_until_over rounds)),
                  )
                  (frames-joined ps eb (el ++ events_of run_id (written_until_over rounds))))
          | inr e ↦
              rw (stream_sse-step run_id k r rounds logs, first, offset, e, last)
                (rw (append-nil (r.before ++ r.later), events_of-append run_id r.before r.later)
                  (frames-joined ps eb el))
        ]

    -- Where the JSON library reads what it writes, on one line: whoever follows a run from any time on
    -- is sent every event of the run, those that were there
    -- and those that come, each once and in the order in which they are written, up to the end of the
    -- round in which the status checker says that the run is over; nothing of another run is sent.
    pub stream_sse-follow :
        (run_id : Str) (calls : List LogCall) (rounds : List Round)
        → is_over rounds ≡ true
        → stream_sse loads dumps event now run_id true 0 rounds
            (write_all loads dumps event calls new_logs)
          ≡ map
              (frame loads dumps event now)
              (events_of run_id (calls ++ written_until_over rounds))
    stream_sse-follow run_id calls rounds over =
        let (none_yet, start) = log_of-nil loads dumps event in
        let log = write_all-HasLog run_id [] calls new_logs none_yet in
        rw (start, events_of-append run_id calls (written_until_over rounds))
          (follow-sent run_id rounds [] (events_of run_id calls)
            (write_all loads dumps event calls new_logs) log over)

    -- Where the JSON library reads what it writes, on one line: whoever does not follow is sent the events of the run that are written when the file is read, in
    -- their order, and nothing else.
    pub stream_sse-backlog :
        (run_id : Str) (calls : List LogCall) (r : Round) (rounds : List Round)
        → stream_sse loads dumps event now run_id false 0
            (r ∷ rounds)
            (write_all loads dumps event calls new_logs)
          ≡ map (frame loads dumps event now) (events_of run_id (calls ++ r.before))
    unfolding stream_sse
    stream_sse-backlog run_id calls r rounds =
        let (none_yet, start) = log_of-nil loads dumps event in
        let logs = write_all loads dumps event calls new_logs in
        let log = write_all-HasLog run_id [] calls new_logs none_yet in
        let log1 = write_all-HasLog run_id (events_of run_id calls) r.before logs log in
        let es = events_of run_id calls ++ events_of run_id r.before in
        let (first, _) = read-sent run_id [] es (after_before r logs) log1 in
        rw (start, first, events_of-append run_id calls r.before)
          (append-nil (map (frame loads dumps event now) es))
