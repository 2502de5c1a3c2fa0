-- ===== src/Runner/Cleanup.antt =====
-- engine/runner.py, `run_job`: the life of the container, on every path.
use mathlib.Core.List.{append_assoc, append-nil}
use forge_ci_cd_platform.Base.{
  ℕ, ◌+◌, ◌≡◌, ◌⊎◌, refl, sym, ap, ◌∙◌, inl, inr, List, [], ◌∷◌, ◌++◌, Option, Str, arith, eqb,
  if◌then◌else◌, codes, Option-cases,
}
use forge_ci_cd_platform.Base.Result.{Result, ok, err}
use forge_ci_cd_platform.Pipeline.{PipelineStep, JobConfig}
use forge_ci_cd_platform.Runner.{
  RunError, container_error, other_error, Container, Call, created, started, stopped, removed,
  Docker, World, JobResult, Runner, Outcome, exited, timed_out, oom, exit_code_of, ◌>>◌, pure,
  raising, recorded, result_at, job_result, caught, cleanup, run_started, ensure_image,
  run_container, prepare, container, parse_memory, run_job,
}
use forge_ci_cd_platform.Runner.Calls.{
  Holds, Makes, Makes-pure, Makes-if, Makes->>=, Makes-then, Makes-silent, Makes-recorded,
  Makes-raising, Holds-Makes, Holds-extend, Holds-any,
}
use forge_ci_cd_platform.Runner.Steps.{IsTrace, nil-IsTrace, commands, Ends, Makes-run_steps}

-- A result that says that the job succeeded.
abbrev pub Succeeds : JobResult → Type 0
Succeeds result = result.status ≡ codes "succeeded"

-- The container is started and executes commands of the steps, all of them if the job succeeds.
abbrev Body : List PipelineStep → JobResult → List Call → Type 0
Body steps result cs =
    (ds : List Call) × (cs ≡ started ∷ ds)
    × IsTrace steps ds
    × (Succeeds result → ds ≡ commands steps)

abbrev BodyRaised : List PipelineStep → List Call → Type 0
BodyRaised steps cs = (ds : List Call) × (cs ≡ started ∷ ds) × IsTrace steps ds

-- The last calls: the container is stopped, and removed or not.
abbrev pub IsCleanup : List Call → Type 0
IsCleanup cs = (cs ≡ stopped ∷ []) ⊎ (cs ≡ stopped ∷ removed ∷ [])

-- A result that claims success comes with the commands of all steps.
abbrev pub Runs : List PipelineStep → Result RunError JobResult → List Call → Type 0
Runs steps (err e) ds = Unit
Runs steps (ok result) ds = Succeeds result → ds ≡ commands steps

abbrev pub NotStarted : List Call → Type 0
NotStarted cs = (cs ≡ []) ⊎ ((c : Container) × (cs ≡ created c ∷ []))

abbrev pub NoSuccess : Result RunError JobResult → Type 0
NoSuccess (err e) = Unit
NoSuccess (ok result) = ¬ Succeeds result

-- Either no container came to be, or one was created, started, used for commands of the steps, and
-- stopped.
abbrev pub IsLife : List PipelineStep → Result RunError JobResult → List Call → Type 0
IsLife steps r cs =
    (NotStarted cs × NoSuccess r)
    ⊎ ((c : Container) × (ds : List Call) × (es : List Call) × (cs
          ≡ created c ∷ started ∷ (ds ++ es))
        × IsTrace steps ds
        × IsCleanup es
        × Runs steps r ds)

exit_code_zero : (outcome : Outcome) → exit_code_of outcome ≡ 0 → outcome ≡ exited 0
exit_code_zero (exited code) e = ap exited e
exit_code_zero timed_out e = absurd (omega (arith, e))
exit_code_zero oom e = absurd (omega (arith, e))

status_zero :
    (code : ℕ)
    → (if eqb code 0 then codes "succeeded" else codes "failed") ≡ codes "succeeded"
    → code ≡ 0
status_zero code e = ground (arith, e)

module _ {S : Type 0} (docker : Docker S) (runner : Runner) (job_name : Str) where
  Makes-job_result :
      (start_time code : ℕ) (R : JobResult → List Call → Type 0) (E : List Call → Type 0)
      → ((result : JobResult) → (Succeeds result → code ≡ 0) → R result [])
      → E []
      → Makes (job_result docker runner job_name start_time code) R E
  Makes-job_result start_time code R E r e =
      Makes-then _ _ [] _ _ (Makes-silent docker docker.now _ _ (λ _. refl)) e (λ time.
        Makes-pure S (result_at runner job_name start_time code time) _ _ (r _ (status_zero code)))

  Makes-run_started :
      (job : JobConfig) (workspace_path : Str) (start_time : ℕ)
      → Makes
          (run_started docker runner job_name job workspace_path start_time)
          (Body job.steps)
          (BodyRaised job.steps)
  Makes-run_started job workspace_path start_time =
      Makes-then _ _ (started ∷ []) _ _
        (Makes-recorded docker started docker.start _ _ (λ _. refl) refl)
        ([], refl, nil-IsTrace job.steps)
        (λ _.
          Makes->>= _ _ (Ends job.steps) (IsTrace job.steps) _ _
            (Makes-run_steps docker runner.max_job_duration_sec job.resources.memory workspace_path
              (start_time + runner.max_job_duration_sec) job.steps)
            (λ cs t. (cs, refl, t))
            (λ outcome cs (t, all_run).
              Makes-job_result start_time (exit_code_of outcome) _ _
                (λ result z. (
                  cs ++ [],
                  refl,
                  rw (append-nil cs) t,
                  λ succeeds. rw (append-nil cs) (all_run (exit_code_zero outcome (z succeeds))),
                ))
                (cs ++ [], refl, rw (append-nil cs) t)))

  caught-Body :
      (steps : List PipelineStep) (start_time : ℕ) (w : World S)
      (z : Result RunError JobResult × World S)
      → Holds (Body steps) (BodyRaised steps) w z
      → Holds (Body steps) (BodyRaised steps) w (caught docker runner job_name start_time z)
  caught-Body steps start_time w (ok result, w') h = h
  caught-Body steps start_time w (err other_error, w') h = h
  caught-Body steps start_time w (err container_error, w') (cs, p, (ds, e, t)) =
      Holds-extend (job_result docker runner job_name start_time 1 w') w w' cs (Body steps)
        (BodyRaised steps) p
        (Holds-Makes (job_result docker runner job_name start_time 1)
          (λ b es. Body steps b (cs ++ es)) (λ es. BodyRaised steps (cs ++ es)) w'
          (Makes-job_result start_time 1 _ _
            (λ result z. (ds, rw (append-nil cs) e, t, λ s. absurd (omega (arith, z s))))
            (ds, rw (append-nil cs) e, t)))

  Makes-stop_and_remove :
      Makes
        (recorded docker stopped docker.stop >> recorded docker removed docker.remove)
        (λ _ es. IsCleanup es)
        IsCleanup
  Makes-stop_and_remove =
      Makes-then _ _ (stopped ∷ []) _ _
        (Makes-recorded docker stopped docker.stop _ _ (λ _. refl) refl) (inl refl)
        (λ _. Makes-recorded docker removed docker.remove _ _ (λ _. inr refl) (inr refl))

  cleanup_calls :
      (z : Result RunError JobResult × World S)
      → ((cleanup docker z).0 ≡ z.0)
        × ((es : List Call) × ((cleanup docker z).1.calls ≡ z.1.calls ++ es) × IsCleanup es)
  cleanup_calls (r, w) = (
    refl,
    Holds-any IsCleanup w _
        (Holds-Makes _ (λ _ es. IsCleanup es) IsCleanup w Makes-stop_and_remove),
  )

  Body-Runs :
      (steps : List PipelineStep) (w : World S) (z : Result RunError JobResult × World S)
      → Holds (Body steps) (BodyRaised steps) w z
      → (ds : List Call) × (z.1.calls ≡ w.calls ++ started ∷ ds)
        × IsTrace steps ds
        × Runs steps z.0 ds
  Body-Runs steps w (ok result, w') (cs, p, (ds, e, t, s)) =
      (ds, p ∙ ap (λ l. w.calls ++ l) e, t, s)
  Body-Runs steps w (err x, w') (cs, p, (ds, e, t)) = (ds, p ∙ ap (λ l. w.calls ++ l) e, t, tt)

  started-IsLife :
      (job : JobConfig) (workspace_path : Str) (start_time : ℕ) (w1 : World S)
      → let z = cleanup docker (
          caught docker runner job_name start_time
            (run_started docker runner job_name job workspace_path start_time w1)) in
        (ds : List Call) × (es : List Call) × (z.1.calls ≡ w1.calls ++ started ∷ (ds ++ es))
        × IsTrace job.steps ds
        × IsCleanup es
        × Runs job.steps z.0 ds
  started-IsLife job workspace_path start_time w1 =
      let z =
        caught docker runner job_name start_time
          (run_started docker runner job_name job workspace_path start_time w1) in
      let (ds, p, t, s) = Body-Runs job.steps w1 z (
        caught-Body job.steps start_time w1 _ (
          Holds-Makes (run_started docker runner job_name job workspace_path start_time)
            (Body job.steps) (BodyRaised job.steps) w1
            (Makes-run_started job workspace_path start_time))) in
      let (same, (es, q, c)) = cleanup_calls z in
      (ds, es, q ∙ ap (λ l. l ++ es) p ∙ append_assoc w1.calls (started ∷ ds) es, t, c, s)

  abbrev Prepared : Unit {0} → List Call → Type 0
  Prepared _ cs = (c : Container) × (cs ≡ created c ∷ [])

  Makes-ensure_image :
      (image : Str) → Makes (ensure_image docker image) (λ _ cs. cs ≡ []) (λ cs. cs ≡ [])
  Makes-ensure_image image =
      Makes-then _ _ [] _ _ (Makes-silent docker (docker.has_image image) _ _ (λ _. refl)) refl
        (λ present.
          Makes-if present (pure tt) (raising docker (docker.pull image)) _ _
            (λ _. Makes-pure S tt _ _ refl)
            (λ _. Makes-raising docker (docker.pull image) _ _ (λ _. refl) refl))

  Makes-prepare :
      (job : JobConfig) (workspace_path forge_token : Str) (memory_bytes : ℕ)
      → Makes
          (prepare docker runner job_name job workspace_path forge_token memory_bytes)
          Prepared
          NotStarted
  Makes-prepare job workspace_path forge_token memory_bytes =
      Makes-then _ _ [] _ _ (Makes-ensure_image job.runtime) (inl refl) (λ _.
        Makes-then _ _ [] _ _ (Makes-silent docker docker.now _ _ (λ _. refl)) (inl refl) (λ time.
          let c =
            container runner job.runtime job_name job.resources.cpu memory_bytes workspace_path
              forge_token time in
          Makes-recorded docker (created c) (docker.create c) _ _ (λ _. (c, refl)) (inr (c, refl))))

  failed-IsLife :
      (steps : List PipelineStep) (start_time : ℕ) (w w1 : World S) (cs : List Call) (e : RunError)
      → w1.calls ≡ w.calls ++ cs
      → NotStarted cs
      → let z = caught docker runner job_name start_time (err e, w1) in
        (ds : List Call) × (z.1.calls ≡ w.calls ++ ds) × IsLife steps z.0 ds
  failed-IsLife steps start_time w w1 cs other_error p n = (cs, p, inl (n, tt))
  failed-IsLife steps start_time w w1 cs container_error p n =
      (cs, p, inl (n, λ s. absurd (omega (arith, status_zero 1 s))))

  run_container-IsLife :
      (job : JobConfig) (workspace_path : Str) (start_time : ℕ) (w : World S)
      (p : Result RunError (Unit {0}) × World S)
      → Holds Prepared NotStarted w p
      → let z = run_container docker runner job_name job workspace_path start_time p in
        (cs : List Call) × (z.1.calls ≡ w.calls ++ cs) × IsLife job.steps z.0 cs
  run_container-IsLife job workspace_path start_time w (err e, w1) (cs, p, n) =
      failed-IsLife job.steps start_time w w1 cs e p n
  run_container-IsLife job workspace_path start_time w (ok _, w1) (cs, p, (c, e)) =
      let (ds, es, q, t, l, s) = started-IsLife job workspace_path start_time w1 in
      (
        created c ∷ started ∷ (ds ++ es),
        q
            ∙ ap (λ l. l ++ started ∷ (ds ++ es)) (p ∙ ap (λ l. w.calls ++ l) e)
            ∙ append_assoc w.calls (created c ∷ []) (started ∷ (ds ++ es)),
        inr (c, ds, es, refl, t, l, s),
      )

  -- On every path of `run_job`, the calls it makes are: none, or the creation of the container alone,
  -- and then the job is not reported as succeeded; or the creation, the start, the commands of the
  -- steps in their order up to some step, of which only the last may be killed, and at the end the
  -- stop, alone or with the removal behind it. If the job is reported as succeeded, the commands are
  -- those of all steps, and no step is killed.
  pub run_job-IsLife :
      (scaled : Str → ℕ → Option ℕ) (job : JobConfig) (workspace_path forge_token : Str)
      (w : World S)
      → let z = run_job docker scaled runner job_name job workspace_path forge_token w in
        (cs : List Call) × (z.1.calls ≡ w.calls ++ cs) × IsLife job.steps z.0 cs
  unfolding run_job
  run_job-IsLife scaled job workspace_path forge_token w =
      elim (Option-cases (parse_memory scaled job.resources.memory)) [
        | inl e ↦ rw (e, run_job) ([], sym (append-nil w.calls), inl (inl refl, tt))
        | inr (memory_bytes, e) ↦
            rw (e, run_job)
              (let (time, s) = docker.now w.docker in
                let w1 = record w { docker = s } in
                run_container-IsLife job workspace_path time w1
                  (prepare docker runner job_name job workspace_path forge_token memory_bytes w1)
                  (Holds-Makes
                    (prepare docker runner job_name job workspace_path forge_token memory_bytes)
                    Prepared NotStarted w1
                    (Makes-prepare job workspace_path forge_token memory_bytes)))
      ]
