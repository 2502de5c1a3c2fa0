-- ===== src/Parser/Needs.antt =====
-- engine/parser.py, `_parse_jobs`: the needs of accepted jobs, as the scheduler reads them.
use forge_ci_cd_platform.Base.{
  ◌⊎◌, ◌≡◌, ◌≢◌, refl, inl, inr, List, [], ◌∷◌, Option, none, some, true, false, arith, Str, ◌==◌,
  if◌then◌else◌, contains, Nodup, All, Bool-cases, map,
}
use forge_ci_cd_platform.Base.Dict.{Dict, keys, values, lookup, insert, insert-Nodup}
use forge_ci_cd_platform.Base.Result.{ok, >>=-eq-ok}
use forge_ci_cd_platform.Text.{is_nil, strip}
use forge_ci_cd_platform.Pipeline.{PipelineJob, JobConfig, job_to_dict}
use forge_ci_cd_platform.Scheduler.{config_needs}
use forge_ci_cd_platform.Scheduler.Graph.{job_needs}
use forge_ci_cd_platform.Parser.{
  text, list, dict, null, scalar, ParseError, checked, is_named, bad_name, Context, Data, Float,
  Fields, check_job_needs, check_all_needs, parse_job, parse_job_list,
}

-- The jobs of `to_dict`.
abbrev pub jobs_to_dict : Dict PipelineJob → Dict JobConfig
jobs_to_dict jobs = map (λ (name, job). (name, job_to_dict job)) jobs

pub keys-jobs_to_dict : (jobs : Dict PipelineJob) → keys (jobs_to_dict jobs) ≡ keys jobs
keys-jobs_to_dict [] = refl
keys-jobs_to_dict ((name, j) ∷ jobs) = ground (arith, keys-jobs_to_dict jobs)

-- The needs that a job was declared with.
abbrev pub declared : Dict PipelineJob → Str → List Str
declared jobs job = elim (lookup job jobs) [ none ↦ [] | some j ↦ j.needs ]

config_needs-with :
    (j : PipelineJob) (ns : List Str) → config_needs (job_to_dict (record j { needs = ns })) ≡ ns
unfolding job_to_dict
config_needs-with j [] = refl
config_needs-with j (n ∷ ns) = refl

config_needs-job_to_dict : (j : PipelineJob) → config_needs (job_to_dict j) ≡ j.needs
config_needs-job_to_dict j = config_needs-with j j.needs

pub job_needs-jobs_to_dict :
    (jobs : Dict PipelineJob) (job : Str) → job_needs (jobs_to_dict jobs) job ≡ declared jobs job
job_needs-jobs_to_dict [] job = refl
job_needs-jobs_to_dict ((name, j) ∷ jobs) job = elim (Bool-cases (job == name)) [
  | inl e ↦ rw (e, job_needs, declared) (config_needs-job_to_dict j)
  | inr e ↦ rw (e, job_needs, declared) (job_needs-jobs_to_dict jobs job)
]

declared-first :
    (name job : Str) (j : PipelineJob) (jobs : Dict PipelineJob)
    → declared ((name, j) ∷ jobs) job ≡ (if job == name then j.needs else declared jobs job)
declared-first name job j jobs = ground arith

check_job_needs-ok :
    (names : List Str) (job : Str) (needs : List Str) (n : Str)
    → check_job_needs names job needs ≡ ok tt
    → contains n needs ≡ true
    → (contains n names ≡ true) × (n == job ≡ false)
unfolding check_job_needs
check_job_needs-ok names job [] n h m = cc
check_job_needs-ok names job (x ∷ xs) n h m = elim (Bool-cases (n == x)) [
  | inl e ↦ let e' : n ≡ x = ground (arith, e) in rw e' (ground (arith, h))
  | inr e ↦ check_job_needs-ok names job xs n (ground (arith, h)) (ground (arith, m, e))
]

-- What the loop over the needs leaves true of every job.
pub check_all_needs-ok :
    (names : List Str) (jobs : Dict PipelineJob) (job n : Str)
    → check_all_needs names jobs ≡ ok tt
    → contains n (declared jobs job) ≡ true
    → (contains n names ≡ true) × (n == job ≡ false)
unfolding check_all_needs
check_all_needs-ok names [] job n h m = cc
check_all_needs-ok names ((name, j) ∷ jobs) job n h m =
    let (_, first, rest) = >>=-eq-ok (check_job_needs names name j.needs) _ h in
    let here = rw (declared-first name job j jobs) at m in
    elim (Bool-cases (job == name)) [
      | inl e ↦
          let e' : job ≡ name = ground (arith, e) in
          rw e' (check_job_needs-ok names name j.needs n first (rw e at here))
      | inr e ↦ check_all_needs-ok names jobs job n rest (rw e at here)
    ]

-- A name with a character that is not whitespace.
abbrev pub IsNamed : Str → Type 0
IsNamed s = is_nil (strip s) ≡ false

insert-All :
    (P : PipelineJob → Type 0) (k : Str) (j : PipelineJob) (jobs : Dict PipelineJob)
    → All P (values jobs)
    → P j
    → All P (values (insert k j jobs))
insert-All P k j [] h p = (p, tt)
insert-All P k j ((i, w) ∷ jobs) h p = elim (Bool-cases (k == i)) [
  | inl e ↦ rw e (p, h.1)
  | inr e ↦ rw e (h.0, insert-All P k j jobs h.1 p)
]

insert-IsNamed :
    (k : Str) (j : PipelineJob) (jobs : Dict PipelineJob)
    → All IsNamed (keys jobs)
    → IsNamed k
    → All IsNamed (keys (insert k j jobs))
insert-IsNamed k j [] h p = (p, tt)
insert-IsNamed k j ((i, w) ∷ jobs) h p = elim (Bool-cases (k == i)) [
  | inl e ↦ rw e (p, h.1)
  | inr e ↦ rw e (h.0, insert-IsNamed k j jobs h.1 p)
]

checked-IsNamed :
    (raised : ParseError) (value : Data) (s : Str)
    → checked is_named raised value ≡ ok s
    → IsNamed s
checked-IsNamed raised (text s) t h = elim (Bool-cases (is_nil (strip s))) [
  | inl e ↦ absurd (ground (arith, h, e))
  | inr e ↦ let same : s ≡ t = ground (arith, h, e) in rw same at e
]
checked-IsNamed raised (list xs) t h = absurd (cc (h))
checked-IsNamed raised (dict d) t h = absurd (cc (h))
checked-IsNamed raised null t h = absurd (cc (h))
checked-IsNamed raised (scalar s) t h = absurd (cc (h))

insert-full : (k : Str) (j : PipelineJob) (jobs : Dict PipelineJob) → insert k j jobs ≢ []
insert-full k j [] h = cc
insert-full k j ((i, w) ∷ jobs) h = ground (arith, h)

module _ (float : Data → Option Float) (P : PipelineJob → Type 0)
    (parsed : (name : Str) (value : Data) (j : PipelineJob)
      → parse_job float name value ≡ ok j
      → P j) where
  -- The jobs have their names once and no blank name, each is one that was parsed, and there is one.
  pub parse_job_list-ok :
      (d : Fields) (jobs result : Dict PipelineJob)
      → parse_job_list float d jobs ≡ ok result
      → Nodup (keys jobs)
      → All P (values jobs)
      → All IsNamed (keys jobs)
      → Nodup (keys result)
        × All P (values result)
        × All IsNamed (keys result)
        × ((d ≢ []) ⊎ (jobs ≢ []) → result ≢ [])
  unfolding parse_job_list
  parse_job_list-ok [] jobs result h u all_jobs named =
      let e : jobs ≡ result = ground (arith, h) in
      (
        rw e at u,
        rw e at all_jobs,
        rw e at named,
        λ some_job. elim some_job [ inl ne ↦ absurd (ne refl) | inr ne ↦ rw e at ne ],
      )
  parse_job_list-ok ((key, value) ∷ d) jobs result h u all_jobs named =
      let (name, passed, h1) = >>=-eq-ok (checked is_named (bad_name Context.all_jobs) key) _ h in
      let (j, e, h2) = >>=-eq-ok (parse_job float name value) _ h1 in
      let (unique, all_result, all_named, full) =
        parse_job_list-ok d (insert name j jobs) result h2 (insert-Nodup name j jobs u)
          (insert-All P name j jobs all_jobs (parsed name value j e))
          (insert-IsNamed name j jobs named
            (checked-IsNamed (bad_name Context.all_jobs) key name passed)) in
      (unique, all_result, all_named, λ _. full (inr (insert-full name j jobs)))
