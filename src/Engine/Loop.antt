-- ===== src/Engine/Loop.antt =====
-- engine/main.py, `execute_pipeline`: the loop over the levels of the plan.
use forge_ci_cd_platform.Base.{
  ◌≡◌, refl, ◌∙◌, sym, ◌⊎◌, inl, inr, List, [], ◌∷◌, ◌++◌, none, some, Option, Bool, true, false,
  ◌||◌, arith, Str, contains, is_some, get_or, Nodup, Subset, Bool-cases, contains-append, if_true,
  if◌then◌else◌,
}
use forge_ci_cd_platform.Base.Dict.{Dict, keys, lookup}
use forge_ci_cd_platform.Base.Result.{Result, ok}
use forge_ci_cd_platform.Pipeline.{JobConfig}
use forge_ci_cd_platform.Scheduler.{Graph, JobStatus, queued, skipped, needs_of, DagScheduler}
use forge_ci_cd_platform.Scheduler.Graph.{IsGraph}
use forge_ci_cd_platform.Scheduler.Order.{IsSorted}
use forge_ci_cd_platform.Scheduler.Plan.{IsPlan}
use forge_ci_cd_platform.Engine.{
  start, JobDone, JobError, JobEntry, Progress, skipped_entry, run_level, run_levels, skip_missing,
}
use forge_ci_cd_platform.Engine.Failing.{is_done, is_bad, Met}
use forge_ci_cd_platform.Engine.Entries.{was_skipped, skip_missing-lookup}
use forge_ci_cd_platform.Engine.Completing.{IsProgress, Ends, Ends->>=, Ends-imp, agrees}
use forge_ci_cd_platform.Engine.Levels.{IsAsCompleted, IsRound, run_level_lem}

-- The processed jobs of a plan are jobs of the graph.
IsPlan-known :
    (g : Graph) (levels : List (List Str)) (processed : List Str)
    → IsPlan g processed levels
    → Subset processed (keys g)
IsPlan-known g [] processed plan j m = sym (plan j) ∙ m
IsPlan-known g (level ∷ levels) processed plan j m =
    IsPlan-known g levels (processed ++ level) plan.3 j
      (ground (arith, contains-append j processed level, m))

append-Nodup_right : (xs ys : List Str) → Nodup (xs ++ ys) → Nodup ys
append-Nodup_right [] ys u = u
append-Nodup_right (x ∷ xs) ys u = append-Nodup_right xs ys u.1

append-Nodup_apart :
    (xs ys : List Str) (j : Str) → Nodup (xs ++ ys) → contains j ys ≡ true → contains j xs ≡ false
append-Nodup_apart [] ys j u m = refl
append-Nodup_apart (x ∷ xs) ys j (fresh, u) m =
    ground (arith, append-Nodup_apart xs ys j u m, contains-append x xs ys, fresh, m)

-- A job without an entry gets that of a skipped job, once a package of the run was corrupt.
agrees_missing :
    (b : Bool) (e : Option JobEntry) (o : Option JobStatus)
    → agrees true e o ≡ true
    → agrees true (get_or e (if b then some skipped_entry else none)) o ≡ true
agrees_missing b none o h = ground (arith, h)
agrees_missing b (some e) o h = h

module _ (s : DagScheduler) where
  -- The jobs of the levels that were gone through have their entries. Until a package is corrupt,
  -- they were run or skipped, and the other jobs were not run.
  record IsReached (processed : List Str) (p : Progress) : Type 0 where
    progress : IsProgress s p
    entries : (j : Str) → contains j processed ≡ true → is_some (lookup j p.jobs) ≡ true
    settled :
        p.integrity_failed ≡ false
        → (j : Str) → contains j processed ≡ true
        → (is_done (lookup j p.scheduler.job_statuses)
            || was_skipped (lookup j p.scheduler.job_statuses))
          ≡ true
    fresh :
        p.integrity_failed ≡ false
        → (j : Str) → contains j processed ≡ false
        → contains j (keys s.graph) ≡ true
        → (lookup j p.scheduler.job_statuses ≡ some queued)
          ⊎ (lookup j p.scheduler.job_statuses ≡ some skipped)

  -- All jobs have their entries.
  pub record IsRecorded (p : Progress) : Type 0 where
    pub progress : IsProgress s p
    pub entries : (j : Str) → contains j (keys s.graph) ≡ true → is_some (lookup j p.jobs) ≡ true

  -- A need that was settled without failing has succeeded.
  Met-settled :
      (processed : List Str) (p : Progress) (j : Str)
      → IsReached processed p
      → p.integrity_failed ≡ false
      → ((d : Str) → contains d (needs_of s.graph j) ≡ true → contains d processed ≡ true)
      → lookup j p.scheduler.job_statuses ≡ some queued
      → Met s.graph p.scheduler.job_statuses j
  Met-settled processed p j reached clean needs e d m =
      elim (Bool-cases (is_bad (lookup d p.scheduler.job_statuses))) [
        | inl bad ↦ absurd (cc (reached.progress.sound.blocked j d m bad, e))
        | inr good ↦
            let settled = reached.settled clean d (needs d m) in ground (arith, settled, good)
      ]

  IsReached-corrupt :
      (processed level : List Str) (p : Progress)
      → IsReached processed p
      → p.integrity_failed ≡ true
      → IsReached (processed ++ level) (record p { jobs = skip_missing level p.jobs })
  IsReached-corrupt processed level p reached corrupt =
      let found = λ (j : Str). skip_missing-lookup level p.jobs j in
      record {
        progress = record {
          steady = reached.progress.steady;
          keyed = reached.progress.keyed;
          sound = reached.progress.sound;
          recorded = λ j.
              rw (found j, corrupt)
                (agrees_missing (contains j level) (lookup j p.jobs)
                  (lookup j p.scheduler.job_statuses)
                  (rw corrupt at (reached.progress.recorded j)));
        };
        entries =
            λ j m. ground (arith, found j, reached.entries j, contains-append j processed level, m);
        settled = λ clean. cc;
        fresh = λ clean. cc;
      }

  IsReached-round :
      (processed level : List Str) (p p' : Progress)
      → IsReached processed p
      → p.integrity_failed ≡ false
      → Nodup (processed ++ level)
      → IsRound s level p p'
      → IsReached (processed ++ level) p'
  IsReached-round processed level p p' reached clean u round =
      let split = λ (j : Str). contains-append j processed level in
      record {
        progress = round.progress;
        entries = λ j m. elim (Bool-cases (contains j level)) [
          | inl e ↦ round.entries j e
          | inr e ↦ round.keeps j (reached.entries j (ground (arith, split j, m, e)))
        ];
        settled = λ _ j m. elim (Bool-cases (contains j level)) [
          | inl e ↦ round.settled j e
          | inr e ↦
              let before = reached.settled clean j (ground (arith, split j, m, e)) in
              elim (round.others j e) [ inl same ↦ rw same before | inr (_, now) ↦ rw now refl ]
        ];
        fresh = λ _ j m known.
            let before = reached.fresh clean j (ground (arith, split j, m)) known in
            elim (round.others j (ground (arith, split j, m))) [
              | inl same ↦ rw same before
              | inr (_, now) ↦ inr now
            ];
      }

  module _ (as_completed : Dict JobConfig → Dict (Result JobError JobDone)) (calm : Bool)
      (completes : IsAsCompleted calm as_completed) (graph : IsGraph s.graph)
      (order : IsSorted s.graph s.sorted_jobs) (jobs_config : Dict JobConfig)
      (same_keys : (j : Str) → contains j (keys s.graph) ≡ contains j (keys jobs_config)) where
    run_level-IsReached :
        (processed level : List Str) (levels : List (List Str)) (p : Progress)
        → IsPlan s.graph processed (level ∷ levels)
        → IsReached processed p
        → Ends s calm (IsReached (processed ++ level)) (run_level as_completed jobs_config level p)
    unfolding run_level
    run_level-IsReached processed level levels p plan reached =
        elim (Bool-cases p.integrity_failed) [
          | inl corrupt ↦
              let opened : run_level as_completed jobs_config level p
                  ≡ ok (record p { jobs = skip_missing level p.jobs }) =
                if_true p.integrity_failed _ _ corrupt in
              rw opened (IsReached-corrupt processed level p reached corrupt)
          | inr clean ↦
              let u = plan.1 in
              let known : (j : Str) → contains j level ≡ true → contains j (keys s.graph) ≡ true =
                λ j m.
                  IsPlan-known s.graph levels (processed ++ level) plan.3 j
                    (ground (arith, contains-append j processed level, m)) in
              Ends-imp s calm (IsRound s level p) (IsReached (processed ++ level))
                (run_level as_completed jobs_config level p)
                (run_level_lem s as_completed calm completes graph order jobs_config level p
                  reached.progress clean (append-Nodup_right processed level u) known
                  (λ j m.
                    let apart = append-Nodup_apart processed level j u m in
                    (
                      sym (same_keys j) ∙ known j m,
                      elim (reached.fresh clean j apart (known j m)) [
                        | inl e ↦ inl (
                          e,
                          Met-settled processed p j reached clean (λ d need. plan.2 j d m need) e,
                        )
                        | inr e ↦ inr e
                      ],
                    )))
                (λ p' round. IsReached-round processed level p p' reached clean u round)
        ]

    run_levels-IsReached :
        (levels : List (List Str)) (processed : List Str) (p : Progress)
        → IsPlan s.graph processed levels
        → IsReached processed p
        → Ends s calm IsRecorded (run_levels as_completed jobs_config levels p)
    unfolding run_levels
    run_levels-IsReached [] processed p plan reached = record {
      progress = reached.progress;
      entries = λ j m. reached.entries j (plan j ∙ m);
    }
    run_levels-IsReached (level ∷ levels) processed p plan reached =
        Ends->>= s calm (IsReached (processed ++ level)) IsRecorded
          (run_level as_completed jobs_config level p) (run_levels as_completed jobs_config levels)
          (run_level-IsReached processed level levels p plan reached)
          (λ p' reached'. run_levels-IsReached levels (processed ++ level) p' plan.3 reached')

    -- The loop over the levels of a plan, from the start, ends with an entry for every job, or with
    -- the exception of a job.
    pub run_levels-IsRecorded :
        (levels : List (List Str))
        → IsPlan s.graph [] levels
        → Nodup (keys s.job_statuses)
        → ((j : Str)
            → lookup j s.job_statuses
              ≡ (if contains j (keys jobs_config) then some queued else none))
        → Ends s calm IsRecorded (run_levels as_completed jobs_config levels (start s))
    run_levels-IsRecorded levels plan keyed all_queued =
        run_levels-IsReached levels [] (start s) plan (record {
          progress = record {
            steady = refl;
            keyed = keyed;
            sound = record {
              executed = λ j h d m. absurd (ground (arith, all_queued j, h));
              blocked = λ j d m h. absurd (ground (arith, all_queued d, h));
              caused = λ j h. absurd (ground (arith, all_queued j, h));
            };
            recorded = λ j. ground (arith, all_queued j);
          };
          entries = λ j m. cc;
          settled = λ _ j m. cc;
          fresh = λ _ j _ known. inl (ground (arith, all_queued j, same_keys j, known));
        })
