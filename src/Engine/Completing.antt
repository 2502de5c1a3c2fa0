-- ===== src/Engine/Completing.antt =====
-- engine/main.py, the body of the loop over `as_completed`: what it keeps of a run's progress.
use mathlib.Core.Path.{subst}
use forge_ci_cd_platform.Base.{
  ap, ◌≡◌, refl, ◌∙◌, inl, inr, [], ◌∷◌, ◌++◌, none, some, Option, Bool, true, false, not, ◌&&◌,
  ◌||◌, arith, Str, ◌==◌, if◌then◌else◌, contains, is_some, get_or, Nodup, Bool-cases,
}
use forge_ci_cd_platform.Base.Dict.{
  Dict, keys, lookup, insert, lookup-insert, insert-Nodup, insert_again,
}
use forge_ci_cd_platform.Base.Result.{Result, ok, err, ◌>>=◌}
use forge_ci_cd_platform.Scheduler.{
  JobStatus, queued, running, succeeded, failed, skipped, DagScheduler, mark_job_failed,
  update_job_status,
}
use forge_ci_cd_platform.Scheduler.Graph.{IsGraph}
use forge_ci_cd_platform.Scheduler.Order.{IsSorted}
use forge_ci_cd_platform.Scheduler.Failure.{Skips, Reached, is_live, mark_job_failed_lem}
use forge_ci_cd_platform.Scheduler.Statuses.{mark_job_failed-Nodup}
use forge_ci_cd_platform.Engine.{
  IntegrityError, Status, plain, integrity_failure, JobEntry, JobDone, JobError, integrity_error,
  other_error, job_error, Progress, Aborted, abort, skipped_entry, integrity_entry, done_entry,
  complete, mark, integrity_failed, note_skipped, finish,
}
use forge_ci_cd_platform.Engine.Failing.{
  Statuses, is_done, IsSound, IsPending, IsStep, succeeded-IsStep, failed-IsStep,
}
use forge_ci_cd_platform.Engine.Entries.{was_skipped, record_skipped-get_all_statuses}

-- An entry's status against the scheduler's, and whether a package of the run was corrupt: only then
-- is a job's entry ahead of its status.
abbrev pub matches : Bool → Status → Option JobStatus → Bool
matches corrupt (plain succeeded) (some succeeded) = true
matches corrupt (plain failed) (some failed) = true
matches corrupt (plain skipped) o = not (is_done o) && (corrupt || was_skipped o)
matches corrupt integrity_failure (some failed) = corrupt
matches _ _ _ = false

abbrev pub agrees : Bool → Option JobEntry → Option JobStatus → Bool
agrees corrupt none o = not (is_done o)
agrees corrupt (some e) o = matches corrupt e.status o

matches_more :
    (b : Bool) (s : Status) (o : Option JobStatus) → matches b s o ≡ true → matches true s o ≡ true
matches_more true s o h = h
matches_more false s o h = ground (arith, h)

agrees_more :
    (b : Bool) (e : Option JobEntry) (o : Option JobStatus)
    → agrees b e o ≡ true
    → agrees true e o ≡ true
agrees_more b none o h = h
agrees_more b (some e) o h = matches_more b e.status o h

matches_skip :
    (b : Bool) (s : Status) (o : Option JobStatus)
    → matches b s o ≡ true
    → is_done o ≡ false
    → matches b s (some skipped) ≡ true
matches_skip b s o h e = ground (arith, h, e)

matches_ran :
    (b : Bool) (status : JobStatus)
    → is_done (some status) ≡ true
    → matches b (plain status) (some status) ≡ true
matches_ran b status h = ground (arith, h)

agrees_skip :
    (b : Bool) (e : Option JobEntry) (o : Option JobStatus)
    → agrees b e o ≡ true
    → is_done o ≡ false
    → agrees b e (some skipped) ≡ true
agrees_skip b none o h u = refl
agrees_skip b (some e) o h u = matches_skip b e.status o h u

agrees_noted :
    (b : Bool) (e : Option JobEntry) (o : Option JobStatus)
    → agrees b e o ≡ true
    → agrees b (get_or e (if was_skipped o then some skipped_entry else none)) o ≡ true
agrees_noted b none o h = ground (arith, h)
agrees_noted b (some e) o h = h

-- What `future.result()` returns is of a job that succeeded or failed. If the run is calm, the only
-- exceptions are those of corrupt packages.
abbrev pub IsResult : Bool → Result JobError JobDone → Type 0
IsResult calm (ok done) = is_done (some done.status) ≡ true
IsResult calm (err (integrity_error e)) = Unit
IsResult calm (err other_error) = calm ≡ false

module _ (s : DagScheduler) where
  -- The scheduler of the run, with other statuses.
  abbrev pub at : Statuses → DagScheduler
  at st = record s { job_statuses = st }

  pub record IsProgress (p : Progress) : Type 0 where
    pub steady : p.scheduler ≡ at p.scheduler.job_statuses
    pub keyed : Nodup (keys p.scheduler.job_statuses)
    pub sound : IsSound s.graph p.scheduler.job_statuses
    pub recorded :
        (j : Str)
        → agrees p.integrity_failed (lookup j p.jobs) (lookup j p.scheduler.job_statuses) ≡ true

  -- From one progress to a later one, the entries stay.
  abbrev pub Keeps : Progress → Progress → Type 0
  Keeps p p' = (k : Str) → is_some (lookup k p.jobs) ≡ true → is_some (lookup k p'.jobs) ≡ true

  -- A job is completed: it has its entry, and its status is one of a job that was run.
  pub record IsCompleted (job : Str) (p p' : Progress) : Type 0 where
    pub progress : IsProgress p'
    pub status : JobStatus
    pub ran : is_done (some status) ≡ true
    pub step : IsStep s.graph job status p.scheduler.job_statuses p'.scheduler.job_statuses
    pub entry : is_some (lookup job p'.jobs) ≡ true
    pub keeps : Keeps p p'

module _ (s : DagScheduler) (calm : Bool) where
  -- A loop ends in a progress of a kind, or with the exception of a job, after a sound progress.
  abbrev pub Ends : (Progress → Type 0) → Result Aborted Progress → Type 0
  Ends Q (ok p) = Q p
  Ends Q (err a) =
      (p : Progress) × IsProgress s p × (calm ≡ false) × (a ≡ abort p (job_error other_error))

  pub Ends->>= :
      (Q R : Progress → Type 0) (m : Result Aborted Progress)
      (next : Progress → Result Aborted Progress)
      → Ends Q m
      → ((p : Progress) → Q p → Ends R (next p))
      → Ends R (m >>= next)
  Ends->>= Q R (ok p) next h f = f p h
  Ends->>= Q R (err a) next h f = h

  pub Ends-imp :
      (Q R : Progress → Type 0) (m : Result Aborted Progress)
      → Ends Q m
      → ((p : Progress) → Q p → R p)
      → Ends R m
  Ends-imp Q R (ok p) h f = f p h
  Ends-imp Q R (err a) h f = h

  module _ (graph : IsGraph s.graph) (order : IsSorted s.graph s.sorted_jobs) where
    mark-IsStep :
        (job : Str) (st st1 : Statuses)
        → IsSound s.graph st
        → IsPending s.graph st job
        → contains job (keys s.graph) ≡ true
        → Nodup (keys st1)
        → insert job failed st1 ≡ insert job failed st
        → (st' : Statuses) × (mark_job_failed job (at s st1) ≡ some (at s st'))
          × IsStep s.graph job failed st st'
          × Nodup (keys st')
    mark-IsStep job st st1 sound pending known u e =
        let (s', p, self, skips, same) = mark_job_failed_lem job (at s st1) graph order known in
        let st' = s'.job_statuses in
        let skips' = subst (λ t. Skips (Reached s.graph (is_live t) job) t st') e skips in
        (
          st',
          p ∙ ap some same,
          failed-IsStep s.graph graph st sound job pending st' self skips',
          mark_job_failed-Nodup job (at s st1) s' u p,
        )

    -- The entries agree with the statuses after a step.
    agrees-step :
        (b : Bool) (job : Str) (status : JobStatus) (e : JobEntry) (jobs : Dict JobEntry)
        (st st' : Statuses)
        → IsStep s.graph job status st st'
        → ((j : Str) → agrees b (lookup j jobs) (lookup j st) ≡ true)
        → matches b e.status (some status) ≡ true
        → (j : Str) → agrees b (lookup j (insert job e jobs)) (lookup j st') ≡ true
    agrees-step b job status e jobs st st' step h m j = elim (Bool-cases (j == job)) [
      | inl same ↦
          let same' : j ≡ job = ground (arith, same) in
          let here : lookup j st' ≡ some status = rw same' step.self in
          rw (lookup-insert j job e jobs, same, here) m
      | inr other ↦
          rw (lookup-insert j job e jobs, other)
            (elim (step.others j other) [
              | inl stays ↦ rw stays (h j)
              | inr (undone, now, _) ↦
                  rw now (agrees_skip b (lookup j jobs) (lookup j st) (h j) undone)
            ])
    ]

    entry-insert :
        (job k : Str) (e : JobEntry) (jobs : Dict JobEntry)
        → is_some (lookup k jobs) ≡ true
        → is_some (lookup k (insert job e jobs)) ≡ true
    entry-insert job k e jobs h = ground (arith, lookup-insert k job e jobs, h)

    mark-at :
        (job : Str) (p : Progress) (st' : Statuses)
        → mark_job_failed job p.scheduler ≡ some (at s st')
        → mark job p ≡ ok (record p { scheduler = at s st' })
    mark-at job p st' h = rw (h, mark) refl

    integrity-IsCompleted :
        (job : Str) (e : IntegrityError) (p : Progress)
        → IsProgress s p
        → IsPending s.graph p.scheduler.job_statuses job
        → contains job (keys s.graph) ≡ true
        → Ends (IsCompleted s job p) (complete job (err (integrity_error e)) p)
    unfolding complete
    integrity-IsCompleted job e p inv pending known =
        let st = p.scheduler.job_statuses in
        let (st', m, step, u) = mark-IsStep job st st inv.sound pending known inv.keyed refl in
        let marked =
          mark-at job
            (record p {
              jobs = insert job integrity_entry p.jobs;
              integrity_failed = true;
              notices = p.notices ++ integrity_failed e ∷ [];
            })
            st' (rw inv.steady m) in
        rw marked (record {
          progress = record {
            steady = refl;
            keyed = u;
            sound = step.sound;
            recorded =
                agrees-step true job failed integrity_entry p.jobs st st' step
                  (λ j.
                    agrees_more p.integrity_failed (lookup j p.jobs) (lookup j st) (inv.recorded j))
                  refl;
          };
          status = failed;
          ran = refl;
          step = step;
          entry = ground (arith, lookup-insert job job integrity_entry p.jobs);
          keeps = λ k. entry-insert job k integrity_entry p.jobs;
        })

    -- The end of a job that was run: what it skipped gets its entries.
    noted-IsCompleted :
        (job : Str) (done : JobDone) (p : Progress) (st' : Statuses)
        → IsProgress s p
        → is_done (some done.status) ≡ true
        → IsStep s.graph job done.status p.scheduler.job_statuses st'
        → Nodup (keys st')
        → IsCompleted s job p (
            note_skipped
              (record p { jobs = insert job (done_entry done) p.jobs; scheduler = at s st' }))
    noted-IsCompleted job done p st' inv ran step u =
        let jobs = insert job (done_entry done) p.jobs in
        let noted = λ (k : Str). record_skipped-get_all_statuses (at s st') jobs k u in
        record {
          progress = record {
            steady = refl;
            keyed = u;
            sound = step.sound;
            recorded = λ j. rw (noted j) (
                agrees_noted p.integrity_failed (lookup j jobs) (lookup j st') (
                  agrees-step p.integrity_failed job done.status (done_entry done) p.jobs
                    p.scheduler.job_statuses st' step inv.recorded
                    (matches_ran p.integrity_failed done.status ran) j));
          };
          status = done.status;
          ran = ran;
          step = step;
          entry = ground (arith, noted job, lookup-insert job job (done_entry done) p.jobs);
          keeps = λ k h. ground (arith, noted k, entry-insert job k (done_entry done) p.jobs h);
        }

    -- The statuses that a job which was run leaves.
    finish-IsStep :
        (job : Str) (status : JobStatus) (p : Progress) (jobs : Dict JobEntry)
        → IsProgress s p
        → IsPending s.graph p.scheduler.job_statuses job
        → contains job (keys s.graph) ≡ true
        → is_done (some status) ≡ true
        → (st' : Statuses) × (finish job status
              (record p { jobs = jobs; scheduler = update_job_status job status p.scheduler })
            ≡ ok (record p { jobs = jobs; scheduler = at s st' }))
          × IsStep s.graph job status p.scheduler.job_statuses st'
          × Nodup (keys st')
    unfolding update_job_status
    finish-IsStep job succeeded p jobs inv pending known ran =
        let st = p.scheduler.job_statuses in
        let same : update_job_status job succeeded p.scheduler ≡ at s (insert job succeeded st) =
          ap {A = DagScheduler} {B = DagScheduler}
            (λ t. record t { job_statuses = insert job succeeded st }) inv.steady in
        (
          insert job succeeded st,
          ap {A = DagScheduler} {B = Result Aborted Progress}
              (λ t. ok (record p { jobs = jobs; scheduler = t })) same,
          succeeded-IsStep s.graph graph st inv.sound job pending,
          insert-Nodup job succeeded st inv.keyed,
        )
    finish-IsStep job failed p jobs inv pending known ran =
        let st = p.scheduler.job_statuses in
        let (st', m, step, u) =
          mark-IsStep job st (insert job failed st) inv.sound pending known
            (insert-Nodup job failed st inv.keyed) (insert_again job failed st) in
        let same : update_job_status job failed p.scheduler ≡ at s (insert job failed st) =
          ap {A = DagScheduler} {B = DagScheduler}
            (λ t. record t { job_statuses = insert job failed st }) inv.steady in
        (
          st',
          mark-at job
              (record p { jobs = jobs; scheduler = update_job_status job failed p.scheduler }) st'
              (rw same m),
          step,
          u,
        )
    finish-IsStep job queued p jobs inv pending known ran = cc
    finish-IsStep job running p jobs inv pending known ran = cc
    finish-IsStep job skipped p jobs inv pending known ran = cc

    pub complete_lem :
        (job : Str) (result : Result JobError JobDone) (p : Progress)
        → IsProgress s p
        → IsPending s.graph p.scheduler.job_statuses job
        → contains job (keys s.graph) ≡ true
        → IsResult calm result
        → Ends (IsCompleted s job p) (complete job result p)
    unfolding complete
    complete_lem job (err (integrity_error e)) p inv pending known ran =
        integrity-IsCompleted job e p inv pending known
    complete_lem job (err other_error) p inv pending known ran = (p, inv, ran, refl)
    complete_lem job (ok done) p inv pending known ran =
        let jobs = insert job (done_entry done) p.jobs in
        let (st', e, step, u) = finish-IsStep job done.status p jobs inv pending known ran in
        rw e (noted-IsCompleted job done p st' inv ran step u)
