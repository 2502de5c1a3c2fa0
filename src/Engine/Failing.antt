-- ===== src/Engine/Failing.antt =====
-- engine/main.py with engine/scheduler.py: what a completed job does to the statuses of all jobs.
use forge_ci_cd_platform.Base.{
  ◌≡◌, ◌∙◌, sym, ◌⊎◌, inl, inr, Option, some, Bool, true, false, arith, Str, ◌==◌, contains,
  Bool-cases,
}
use forge_ci_cd_platform.Base.Dict.{Dict, lookup, insert, lookup-insert}
use forge_ci_cd_platform.Scheduler.{
  Graph, JobStatus, succeeded, failed, skipped, queued, needs_of, dependents_of, is_succeeded,
}
use forge_ci_cd_platform.Scheduler.Graph.{IsGraph, count-ne_zero, contains_of_count}
use forge_ci_cd_platform.Scheduler.Failure.{Skips, Reached, direct, through, is_live, Reached-live}

abbrev pub Statuses : Type 0
Statuses = Dict JobStatus

-- A job that has been run.
abbrev pub is_done : Option JobStatus → Bool
is_done (some succeeded) = true
is_done (some failed) = true
is_done _ = false

abbrev pub is_bad : Option JobStatus → Bool
is_bad (some failed) = true
is_bad (some skipped) = true
is_bad _ = false

-- All needs of a job have succeeded.
abbrev pub Met : Graph → Statuses → Str → Type 0
Met g st j = (d : Str) → contains d (needs_of g j) ≡ true → is_succeeded (lookup d st) ≡ true

-- A job that has been run has its needs met, a job with a failed or skipped need is skipped, and
-- no job is skipped unless one has failed.
pub record IsSound (g : Graph) (st : Statuses) : Type 0 where
  pub executed : (j : Str) → is_done (lookup j st) ≡ true → Met g st j
  pub blocked :
      (j d : Str)
      → contains d (needs_of g j) ≡ true
      → is_bad (lookup d st) ≡ true
      → lookup j st ≡ some skipped
  pub caused : (j : Str) → lookup j st ≡ some skipped → (f : Str) × (lookup f st ≡ some failed)

-- The status of a job that is not in question stays, or the job is skipped before it is run, for a
-- need that is not met.
abbrev pub Stays : Graph → Statuses → Statuses → Str → Type 0
Stays g st st' k =
    (lookup k st' ≡ lookup k st)
    ⊎ ((is_done (lookup k st) ≡ false) × (lookup k st' ≡ some skipped) × (¬ Met g st k))

-- A queued job with its needs met.
abbrev pub IsPending : Graph → Statuses → Str → Type 0
IsPending g st j = (lookup j st ≡ some queued) × Met g st j

-- The step of one job.
pub record IsStep (g : Graph) (job : Str) (status : JobStatus) (st st' : Statuses) : Type 0 where
  pub sound : IsSound g st'
  pub self : lookup job st' ≡ some status
  pub others : (k : Str) → k == job ≡ false → Stays g st st' k

module _ (g : Graph) (graph : IsGraph g) where
  need_of_dependent :
      (j d : Str) → contains d (dependents_of g j) ≡ true → contains j (needs_of g d) ≡ true
  need_of_dependent j d m =
      contains_of_count j (needs_of g d)
        (λ z. count-ne_zero d (dependents_of g j) m (graph.linked d j ∙ z))

  dependent_of_need :
      (j d : Str) → contains j (needs_of g d) ≡ true → contains d (dependents_of g j) ≡ true
  dependent_of_need j d m =
      contains_of_count d (dependents_of g j)
        (λ z. count-ne_zero j (needs_of g d) m (sym (graph.linked d j) ∙ z))

  Reached-snoc :
      {live : Str → Bool} (a k j : Str)
      → Reached g live a k
      → contains k (needs_of g j) ≡ true
      → live j ≡ true
      → Reached g live a j
  Reached-snoc a k j (direct m l) need alive =
      through m l (direct (dependent_of_need k j need) alive)
  Reached-snoc a k j (through {d = d} m l r) need alive =
      through m l (Reached-snoc d k j r need alive)

  module _ (st : Statuses) (sound : IsSound g st) (job : Str) (pending : IsPending g st job) where
    -- The statuses when the failed job is marked.
    abbrev pub before : Statuses
    before = insert job failed st

    live-st : (k : Str) → is_live before k ≡ true → is_succeeded (lookup k st) ≡ false
    live-st k l = ground (arith, l, lookup-insert k job failed st, pending.0)

    not_Met_of_Reached :
        (a k : Str)
        → is_succeeded (lookup a st) ≡ false
        → Reached g (is_live before) a k
        → ¬ Met g st k
    not_Met_of_Reached a k no_success (direct m l) met =
        cc (met a (need_of_dependent a k m), no_success)
    not_Met_of_Reached a k no_success (through {d = d} m l r) met =
        not_Met_of_Reached d k (live-st d l) r met

    Reached-job : (k : Str) → Reached g (is_live before) job k → ¬ Met g st k
    Reached-job k r = not_Met_of_Reached job k (ground (arith, pending.0)) r

    pub succeeded-IsStep : IsStep g job succeeded st (insert job succeeded st)
    succeeded-IsStep = record {
      sound = record {
        executed = λ j h d m.
            let done : is_done (lookup j st) ≡ true → is_succeeded (lookup d st) ≡ true =
              λ e. sound.executed j e d m in
            ground (
              arith,
              lookup-insert j job succeeded st,
              lookup-insert d job succeeded st,
              done,
              pending.1 d,
              m,
              h,
            );
        blocked = λ j d m h. ground (
          arith,
          lookup-insert j job succeeded st,
          lookup-insert d job succeeded st,
          sound.blocked j d m,
          h,
          pending.0,
        );
        caused = λ j h.
            let (f, e) = sound.caused j (ground (arith, lookup-insert j job succeeded st, h)) in
            (f, ground (arith, lookup-insert f job succeeded st, e, pending.0));
      };
      self = ground (arith, lookup-insert job job succeeded st);
      others = λ k ne. inl (ground (arith, lookup-insert k job succeeded st, ne));
    }

    module _ (st' : Statuses) (self : lookup job st' ≡ some failed)
        (skips : Skips (Reached g (is_live before) job) before st') where
      -- A success stands.
      keeps_success :
          (d : Str) → is_succeeded (lookup d st) ≡ true → is_succeeded (lookup d st') ≡ true
      keeps_success d e = elim (skips.only d) [
        | inl same ↦ ground (arith, same, lookup-insert d job failed st, e, pending.0)
        | inr (_, r) ↦ absurd (cc (live-st d (Reached-live job d r), e))
      ]

      skipped_others : (k : Str) → k == job ≡ false → Stays g st st' k
      skipped_others k ne = elim (skips.only k) [
        | inl same ↦ inl (ground (arith, same, lookup-insert k job failed st, ne))
        | inr (now, r) ↦
            let unmet = Reached-job k r in
            elim (Bool-cases (is_done (lookup k st))) [
              | inl e ↦ absurd (unmet (sound.executed k e))
              | inr e ↦ inr (e, now, unmet)
            ]
      ]

      skipped_executed : (j : Str) → is_done (lookup j st') ≡ true → Met g st' j
      skipped_executed j h d m = keeps_success d (elim (Bool-cases (j == job)) [
        | inl e ↦ let e' : j ≡ job = ground (arith, e) in pending.1 d (rw e' at m)
        | inr e ↦ elim (skipped_others j e) [
          | inl same ↦ sound.executed j (rw same at h) d m
          | inr (_, now, _) ↦ absurd (cc (now, h))
        ]
      ])

      -- A job that needs one that was not done and is now failed or skipped is reached.
      reached_need :
          (j d : Str)
          → contains d (needs_of g j) ≡ true
          → is_succeeded (lookup d st) ≡ false
          → is_live before j ≡ true
      reached_need j d m no_success = elim (Bool-cases (is_done (lookup j st))) [
        | inl e ↦ absurd (cc (sound.executed j e d m, no_success))
        | inr e ↦ ground (arith, e, lookup-insert j job failed st)
      ]

      skipped_blocked :
          (j d : Str)
          → contains d (needs_of g j) ≡ true
          → is_bad (lookup d st') ≡ true
          → lookup j st' ≡ some skipped
      skipped_blocked j d m h = elim (Bool-cases (d == job)) [
        | inl e ↦
            let e' : d ≡ job = ground (arith, e) in
            let m' : contains job (needs_of g j) ≡ true = rw e' at m in
            skips.every j (
              direct (dependent_of_need job j m')
                (reached_need j job m' (ground (arith, pending.0))))
        | inr e ↦ elim (skips.only d) [
          | inl same ↦
              let before_skip =
                sound.blocked j d m (ground (arith, same, lookup-insert d job failed st, e, h)) in
              elim (skips.only j) [
                | inl stays ↦
                    ground (arith, stays, lookup-insert j job failed st, before_skip, pending.0)
                | inr (now, _) ↦ now
              ]
          | inr (_, r) ↦
              skips.every j
                (Reached-snoc job d j r m (reached_need j d m (live-st d (Reached-live job d r))))
        ]
      ]

      pub failed-IsStep : IsStep g job failed st st'
      failed-IsStep = record {
        sound = record {
          executed = skipped_executed;
          blocked = skipped_blocked;
          caused = λ j h. (job, self);
        };
        self = self;
        others = skipped_others;
      }
