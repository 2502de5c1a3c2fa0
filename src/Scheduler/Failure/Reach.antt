-- ===== src/Scheduler/Failure/Reach.antt =====
-- engine/scheduler.py, `mark_job_failed`: the jobs that one call of its recursion skips.
use mathlib.Core.Path.{subst}
use forge_ci_cd_platform.Base.{
  ◌≡◌, refl, ◌⊎◌, ◌∙◌, sym, inl, inr, List, [], ◌∷◌, Option, some, Bool, true, false, not, arith,
  Str, ◌==◌, contains, Bool-cases,
}
use forge_ci_cd_platform.Base.Dict.{Dict, lookup, insert, lookup-insert}
use forge_ci_cd_platform.Scheduler.{
  Graph, JobStatus, skipped, dependents_of, is_succeeded, skip_each,
}

-- The jobs that a job's failure reaches: dependents, through dependents that have not succeeded.
pub data Reached (g : Graph) (live : Str → Bool) : Str → Str → Type 0 where
  direct :
      {job d : Str} → contains d (dependents_of g job) ≡ true → live d ≡ true → Reached g live job d
  through :
      {job d k : Str}
      → contains d (dependents_of g job) ≡ true
      → live d ≡ true
      → Reached g live d k
      → Reached g live job k

abbrev pub is_live : Dict JobStatus → Str → Bool
is_live st k = not (is_succeeded (lookup k st))

-- From `st` to `st'`, the jobs that satisfy `R` become skipped and no other job changes.
pub record Skips (R : Str → Type 0) (st st' : Dict JobStatus) : Type 0 where
  pub only : (k : Str) → (lookup k st' ≡ lookup k st) ⊎ ((lookup k st' ≡ some skipped) × R k)
  pub every : (k : Str) → R k → lookup k st' ≡ some skipped

module _ {R : Str → Type 0} {live : Str → Bool} (alive : (k : Str) → R k → live k ≡ true) where
  pub Skips-live :
      {st st' : Dict JobStatus}
      → ((k : Str) → is_live st k ≡ live k)
      → Skips R st st'
      → (k : Str) → is_live st' k ≡ live k
  Skips-live agree s k = elim (s.only k) [
    | inl e ↦ rw e (agree k)
    | inr (e, r) ↦ rw e (sym (alive k r))
  ]

pub Reached-live :
    {g : Graph} {live : Str → Bool} (job k : Str) → Reached g live job k → live k ≡ true
Reached-live job k (direct m l) = l
Reached-live job k (through {d = d} m l r) = Reached-live d k r

-- The loop: the dependents in the list that are live, and what they reach.
pub data Under (g : Graph) (live : Str → Bool) (ds : List Str) : Str → Type 0 where
  listed : {d : Str} → contains d ds ≡ true → live d ≡ true → Under g live ds d
  below :
      {d k : Str} → contains d ds ≡ true → live d ≡ true → Reached g live d k → Under g live ds k

pub Under-live :
    {g : Graph} {live : Str → Bool} {ds : List Str} (k : Str) → Under g live ds k → live k ≡ true
Under-live k (listed m l) = l
Under-live k (below {d = d} m l r) = Reached-live d k r

pub Skips-refl :
    {g : Graph} {live : Str → Bool} (st : Dict JobStatus) → Skips (Under g live []) st st
Skips-refl st = record { only = λ k. inl refl; every = λ k u. none_under k u }
  where
    none_under :
        {g : Graph} {live : Str → Bool} (k : Str) → Under g live [] k → lookup k st ≡ some skipped
    none_under k (listed m l) = cc
    none_under k (below m l r) = cc

pub Under-tail :
    {g : Graph} {live : Str → Bool} (d : Str) (ds : List Str) (k : Str)
    → Under g live ds k
    → Under g live (d ∷ ds) k
Under-tail d ds k (listed m l) = listed (ground arith) l
Under-tail d ds k (below {d = x} m l r) = below {d = x} (ground arith) l r

pub Under-head :
    {g : Graph} {live : Str → Bool} (d : Str) (ds : List Str) (k : Str)
    → Under g live (d ∷ ds) k
    → ((k ≡ d) ⊎ Reached g live d k) × (live d ≡ true) ⊎ Under g live ds k
Under-head d ds k (listed m l) = elim (Bool-cases (k == d)) [
  | inl e ↦ let e' : k ≡ d = ground (arith, e) in inl (inl e', rw e' at l)
  | inr e ↦ inr (listed (ground arith) l)
]
Under-head {g} {live} d ds k (below {d = x} m l r) = elim (Bool-cases (x == d)) [
  | inl e ↦
      let e' : x ≡ d = ground (arith, e) in
      inl (inr (subst (λ y. Reached g live y k) e' r), rw e' at l)
  | inr e ↦ inr (below {d = x} (ground arith) l r)
]

module _ {g : Graph} {live : Str → Bool} (d : Str) (ds : List Str) where
  pub Skips-cons :
      {st st2 st3 : Dict JobStatus}
      → live d ≡ true
      → Skips (Reached g live d) (insert d skipped st) st2
      → Skips (Under g live ds) st2 st3
      → Skips (Under g live (d ∷ ds)) st st3
  Skips-cons {st} {st2} l s2 s3 = record {
    only = λ k. elim (s3.only k) [
      | inr (e, u) ↦ inr (e, Under-tail d ds k u)
      | inl e3 ↦ elim (s2.only k) [
        | inr (e2, r) ↦ inr (e3 ∙ e2, below {d = d} (ground arith) l r)
        | inl e2 ↦ elim (Bool-cases (k == d)) [
          | inl same ↦
              let p : k ≡ d = ground (arith, same) in
              inr (
                ground (arith, e3, e2, lookup-insert k d skipped st),
                listed (ground arith) (rw p l),
              )
          | inr other ↦ inl (ground (arith, e3, e2, lookup-insert k d skipped st))
        ]
      ]
    ];
    every = λ k u. elim (Under-head d ds k u) [
      | inr u' ↦ s3.every k u'
      | inl (how, _) ↦
          let marked : lookup k st2 ≡ some skipped = elim how [
            | inr r ↦ s2.every k r
            | inl same ↦ elim (s2.only k) [
              | inr (e, _) ↦ e
              | inl e ↦ ground (arith, e, same, lookup-insert k d skipped st)
            ]
          ] in
          elim (s3.only k) [ inr (e, _) ↦ e | inl e ↦ e ∙ marked ]
    ];
  }

  pub Skips-pass :
      {st st3 : Dict JobStatus}
      → live d ≡ false
      → Skips (Under g live ds) st st3
      → Skips (Under g live (d ∷ ds)) st st3
  Skips-pass dead s = record {
    only = λ k. elim (s.only k) [ inl e ↦ inl e | inr (e, u) ↦ inr (e, Under-tail d ds k u) ];
    every = λ k u. elim (Under-head d ds k u) [ inr u' ↦ s.every k u' | inl (how, l) ↦ cc ];
  }

pub Skips-Reached :
    {g : Graph} {live : Str → Bool} (job : Str) {st st' : Dict JobStatus}
    → Skips (Under g live (dependents_of g job)) st st'
    → Skips (Reached g live job) st st'
Skips-Reached {g} {live} job s = record {
  only = λ k. elim (s.only k) [ inl e ↦ inl e | inr (e, u) ↦ inr (e, reached k u) ];
  every = λ k r. s.every k (under k r);
}
  where
    reached : (k : Str) → Under g live (dependents_of g job) k → Reached g live job k
    reached k (listed m l) = direct m l
    reached k (below m l r) = through m l r

    under : (k : Str) → Reached g live job k → Under g live (dependents_of g job) k
    under k (direct m l) = listed m l
    under k (through m l r) = below m l r

abbrev pub Skipping : Graph → (Str → Bool) → Str → Dict JobStatus → Option (Dict JobStatus) → Type 0
Skipping g live job st result =
    (st' : Dict JobStatus) × (result ≡ some st') × Skips (Reached g live job) st st'

pub skip_each_lem :
    (g : Graph) (live : Str → Bool) (skip : Str → Dict JobStatus → Option (Dict JobStatus))
    (ds : List Str) (st : Dict JobStatus)
    → ((d : Str) (st : Dict JobStatus)
        → contains d ds ≡ true
        → ((k : Str) → is_live st k ≡ live k)
        → Skipping g live d st (skip d st))
    → ((k : Str) → is_live st k ≡ live k)
    → (st' : Dict JobStatus) × (skip_each skip ds st ≡ some st') × Skips (Under g live ds) st st'
unfolding skip_each
skip_each_lem g live skip [] st spec agree = (st, refl, Skips-refl st)
skip_each_lem g live skip (d ∷ ds) st spec agree = elim (Bool-cases (is_succeeded (lookup d st))) [
  | inl e ↦
      let (st', p, s) = skip_each_lem g live skip ds st (λ x t m. spec x t (ground arith)) agree in
      (st', rw (e, skip_each) p, Skips-pass d ds (ground (arith, e, agree d)) s)
  | inr e ↦
      let alive : live d ≡ true = ground (arith, e, agree d) in
      let agree1 : (k : Str) → is_live (insert d skipped st) k ≡ live k =
        λ k. ground (arith, agree k, alive, lookup-insert k d skipped st) in
      let (st2, p2, s2) = spec d (insert d skipped st) (ground arith) agree1 in
      let agree2 = Skips-live (λ k r. Reached-live d k r) agree1 s2 in
      let (st3, p3, s3) =
        skip_each_lem g live skip ds st2 (λ x t m. spec x t (ground arith)) agree2 in
      (st3, rw (e, p2, skip_each) p3, Skips-cons d ds alive s2 s3)
]
