-- ===== src/Runner/Steps.antt =====
-- engine/runner.py, `_exec_step` and the loop of `run_job`: which commands a job executes.
use mathlib.Core.List.{append-nil}
use forge_ci_cd_platform.Base.{
  ℕ, ◌≡◌, ◌⊎◌, refl, ap, inl, inr, List, [], ◌∷◌, ◌++◌, Bool, true, false, Str, arith, eqb, ltb,
  leb, codes,
}
use forge_ci_cd_platform.Text.{decimal}
use forge_ci_cd_platform.Pipeline.{PipelineStep}
use forge_ci_cd_platform.Runner.{
  Call, executed, killed, Docker, Outcome, exited, timed_out, oom, pure, read_output, exec_step,
  code_of, step_result, log_lines, run_steps,
}
use forge_ci_cd_platform.Runner.Calls.{
  Makes, Makes-pure, Makes-if, Makes->>=, Makes-then, Makes-weaken, Makes-silent, Makes-recorded,
  Makes-raising, Makes-log,
}

-- The commands of the steps, in their order, up to some step; only the last may have been killed.
abbrev pub IsTrace : List PipelineStep → List Call → Type 0
IsTrace [] cs = cs ≡ []
IsTrace (step ∷ steps) cs =
    (cs ≡ [])
    ⊎ ((cs ≡ executed step.run ∷ killed ∷ [])
        ⊎ ((ds : List Call) × (cs ≡ executed step.run ∷ ds) × IsTrace steps ds))

-- The commands of all steps.
abbrev pub commands : List PipelineStep → List Call
commands [] = []
commands (step ∷ steps) = executed step.run ∷ commands steps

pub nil-IsTrace : (steps : List PipelineStep) → IsTrace steps []
nil-IsTrace [] = refl
nil-IsTrace (step ∷ steps) = inl refl

-- A trace of the steps, and of all of them if the job's exit code is 0.
abbrev pub Ends : List PipelineStep → Outcome → List Call → Type 0
Ends steps outcome cs = IsTrace steps cs × (outcome ≡ exited 0 → cs ≡ commands steps)

module _ {S : Type 0} (docker : Docker S) where
  Makes-log_lines :
      (step_name : Str) (lines : List Str)
      → Makes (log_lines docker step_name lines) (λ _ cs. cs ≡ []) (λ cs. cs ≡ [])
  Makes-log_lines step_name [] = Makes-pure S tt _ _ refl
  Makes-log_lines step_name (line ∷ lines) =
      Makes-then _ _ [] _ _ (Makes-log docker _) refl (λ _. Makes-log_lines step_name lines)

  -- Reading to the end changes no container; a deadline that passes kills it.
  abbrev Reads : Bool → List Call → Type 0
  Reads true cs = cs ≡ []
  Reads false cs = cs ≡ killed ∷ []

  abbrev ReadsSome : List Call → Type 0
  ReadsSome cs = (cs ≡ []) ⊎ (cs ≡ killed ∷ [])

  Makes-read_output :
      (step_name : Str) (deadline : ℕ) (chunks : List (List Str))
      → Makes (read_output docker step_name deadline chunks) Reads ReadsSome
  unfolding read_output
  Makes-read_output step_name deadline [] = Makes-pure S true _ _ refl
  Makes-read_output step_name deadline (lines ∷ chunks) =
      Makes-then _ _ [] _ _ (Makes-silent docker docker.now _ _ (λ _. refl)) (inl refl) (λ time.
        Makes-if (ltb deadline time) _ _ _ _
          (λ late.
            Makes-then _ _ (killed ∷ []) _ _
              (Makes-recorded docker killed docker.kill _ _ (λ _. refl) refl) (inr refl)
              (λ _.
                Makes-then _ _ [] _ _
                  (Makes-log docker (codes "[" ++ step_name ++ codes "] Job timed out")) (inr refl)
                  (λ _. Makes-pure S false _ _ refl)))
          (λ early.
            Makes-then _ _ [] _ _ (Makes-log_lines step_name lines) (inl refl)
              (λ _. Makes-read_output step_name deadline chunks)))

  -- The command, and a kill if the deadline passes, which makes the exit code 124.
  abbrev Execs : PipelineStep → ℕ × Bool → List Call → Type 0
  Execs step (code, by_oom) cs =
      (cs ≡ executed step.run ∷ [])
      ⊎ ((cs ≡ executed step.run ∷ killed ∷ []) × (code ≡ 124) × (by_oom ≡ false))

  abbrev ExecsSome : PipelineStep → List Call → Type 0
  ExecsSome step cs = (cs ≡ executed step.run ∷ []) ⊎ (cs ≡ executed step.run ∷ killed ∷ [])

  Makes-step_result :
      (step : PipelineStep) (in_time : Bool) (cs : List Call)
      → Reads in_time cs
      → Makes
          (step_result docker step in_time)
          (λ b ds. Execs step b (executed step.run ∷ cs ++ ds))
          (λ ds. ExecsSome step (executed step.run ∷ cs ++ ds))
  Makes-step_result step false cs h = rw h (Makes-pure S (124, false) _ _ (inr (refl, refl, refl)))
  Makes-step_result step true cs h = rw h (
      Makes-then _ _ [] _ _ (Makes-raising docker docker.exit_code _ _ (λ _. refl) refl) (inl refl)
        (λ code.
          Makes-then _ _ [] _ _ (Makes-raising docker docker.oom_killed _ _ (λ _. refl) refl)
            (inl refl)
            (λ by_oom.
              Makes-then _ _ [] _ _
                (Makes-if by_oom _ (pure tt) _ _
                  (λ _. Makes-log docker (
                    codes "["
                    ++ step.name
                    ++ codes "] OOM killed — container exceeded memory limit"))
                  (λ _. Makes-pure S tt _ _ refl))
                (inl refl) (λ _. Makes-pure S (code_of code, by_oom) _ _ (inl refl)))))

  Makes-exec_step :
      (workdir : Str) (step : PipelineStep) (deadline : ℕ)
      → Makes (exec_step docker workdir step deadline) (Execs step) (ExecsSome step)
  unfolding exec_step
  Makes-exec_step workdir step deadline =
      Makes-then _ _ (executed step.run ∷ []) _ _
        (Makes-recorded docker (executed step.run) (docker.exec step.run workdir) _ _ (λ _. refl)
          refl)
        (inl refl)
        (λ chunks.
          Makes->>= _ _ Reads ReadsSome _ _ (Makes-read_output step.name deadline chunks)
            (λ cs h. elim h [
              | inl e ↦ inl (ap (λ l. executed step.run ∷ l) e)
              | inr e ↦ inr (ap (λ l. executed step.run ∷ l) e)
            ])
            (λ in_time cs h. Makes-step_result step in_time cs h))

  IsTrace-of_exec :
      (step : PipelineStep) (steps : List PipelineStep) (cs : List Call)
      → ExecsSome step cs
      → IsTrace (step ∷ steps) cs
  IsTrace-of_exec step steps cs (inl e) = inr (inr ([], e, nil-IsTrace steps))
  IsTrace-of_exec step steps cs (inr e) = inr (inl e)

  some_of_exec :
      (step : PipelineStep) (code : ℕ) (by_oom : Bool) (cs : List Call)
      → Execs step (code, by_oom) cs
      → ExecsSome step cs
  some_of_exec step code by_oom cs (inl e) = inl e
  some_of_exec step code by_oom cs (inr (e, _, _)) = inr e

  passed_exec :
      (step : PipelineStep) (code : ℕ) (by_oom : Bool) (cs : List Call)
      → Execs step (code, by_oom) cs
      → eqb code 0 ≡ true
      → cs ≡ executed step.run ∷ []
  passed_exec step code by_oom cs (inl e) z = e
  passed_exec step code by_oom cs (inr (e, c, _)) z = absurd (ground (arith, c, z))

  snoc-IsTrace :
      (step : PipelineStep) (steps : List PipelineStep) (code : ℕ) (by_oom : Bool) (cs : List Call)
      → Execs step (code, by_oom) cs
      → IsTrace (step ∷ steps) (cs ++ [])
  snoc-IsTrace step steps code by_oom cs h =
      rw (append-nil cs) (IsTrace-of_exec step steps cs (some_of_exec step code by_oom cs h))

  pub Makes-run_steps :
      (limit : ℕ) (memory workdir : Str) (deadline : ℕ) (steps : List PipelineStep)
      → Makes (run_steps docker limit memory workdir deadline steps) (Ends steps) (IsTrace steps)
  unfolding run_steps
  Makes-run_steps limit memory workdir deadline [] = Makes-pure S (exited 0) _ _ (refl, λ _. refl)
  Makes-run_steps limit memory workdir deadline (step ∷ steps) =
      Makes-then _ _ [] _ _ (Makes-silent docker docker.now _ _ (λ _. refl)) (inl refl) (λ time.
        Makes-if (leb deadline time) _ _ _ _
          (λ late.
            Makes-then _ _ [] _ _
              (Makes-log docker (
                codes "["
                ++ step.name
                ++ codes "] Job timed out after "
                ++ decimal limit
                ++ codes "s"))
              (inl refl) (λ _. Makes-pure S timed_out _ _ (inl refl, λ z. cc)))
          (λ early.
            Makes->>= _ _ (Execs step) (ExecsSome step) _ _ (Makes-exec_step workdir step deadline)
              (IsTrace-of_exec step steps)
              (λ (code, by_oom) cs h.
                Makes-if by_oom _ _ _ _
                  (λ o.
                    Makes-then _ _ [] _ _
                      (Makes-log docker (
                        codes "["
                        ++ step.name
                        ++ codes "] OOM killed — memory limit "
                        ++ memory
                        ++ codes " exceeded"))
                      (snoc-IsTrace step steps code by_oom cs h)
                      (λ _.
                        Makes-pure S oom _ _ (snoc-IsTrace step steps code by_oom cs h, λ z. cc)))
                  (λ o.
                    Makes-if (eqb code 0) _ _ _ _
                      (λ z.
                        Makes-weaken _ (Ends steps) _ (IsTrace steps) _
                          (Makes-run_steps limit memory workdir deadline steps)
                          (λ outcome ds r.
                            let e = passed_exec step code by_oom cs h z in
                            (
                              rw e (inr (inr (ds, refl, r.0))),
                              λ x. rw e (ap (λ l. executed step.run ∷ l) (r.1 x)),
                            ))
                          (λ ds r.
                            rw (passed_exec step code by_oom cs h z) (inr (inr (ds, refl, r)))))
                      (λ z. Makes-pure S (exited code) _ _ (
                        snoc-IsTrace step steps code by_oom cs h,
                        λ x. absurd (ground (arith, z, x)),
                      ))))))
