-- ===== src/Engine/Jobs/Pulls.antt =====
-- engine/main.py, `execute_job`: what is extracted, run and uploaded.
use mathlib.Core.List.{append_assoc, append-nil}
use forge_ci_cd_platform.Base.{
  ◌≡◌, ◌≢◌, refl, ◌∙◌, sym, ap, ◌⊎◌, inl, inr, List, [], ◌∷◌, ◌++◌, Bool, true, false, arith, Str,
  ◌==◌, eqb, codes, Bool-cases,
}
use forge_ci_cd_platform.Base.Dict.{Dict}
use forge_ci_cd_platform.Base.Result.{Result, ok, err}
use forge_ci_cd_platform.Resolver.{LockedPackage, lockfile_as_deps_dict}
use forge_ci_cd_platform.Engine.{JobError, other_error}
use forge_ci_cd_platform.Engine.Jobs.{
  Response, Host, JobWorld, archive_of, corrupt, extracted, pull_answer, pull_one, pull_each,
  pull_deps, after,
}

module _ {W : Type 0} (host : Host W) (digest : Str → Str) where
  -- What stops the loop at a package: an exception of the registry or of the extraction, or content
  -- of another checksum, which the error names.
  abbrev pub IsCulprit : Str → LockedPackage → JobError → Type 0
  IsCulprit name pkg e =
      (e ≡ other_error)
      ⊎ ((c : Str) × (e ≡ corrupt host digest name pkg c) × (digest c ≢ pkg.sha256))

  -- All packages were extracted, in their order, each with content of its checksum.
  pub data Pulled : Dict LockedPackage → List (Str × Str) → Type 0 where
    complete : Pulled [] []
    next :
        {name c : Str} {pkg : LockedPackage} {deps : Dict LockedPackage} {ps : List (Str × Str)}
        → digest c ≡ pkg.sha256
        → Pulled deps ps
        → Pulled ((name, pkg) ∷ deps) ((name, c) ∷ ps)

  -- The packages before the one that stops the loop were extracted so.
  pub data Stopped : Dict LockedPackage → List (Str × Str) → JobError → Type 0 where
    here :
        {name : Str} {pkg : LockedPackage} {deps : Dict LockedPackage} {e : JobError}
        → IsCulprit name pkg e
        → Stopped ((name, pkg) ∷ deps) [] e
    later :
        {name c : Str} {pkg : LockedPackage} {deps : Dict LockedPackage} {ps : List (Str × Str)}
        {e : JobError}
        → digest c ≡ pkg.sha256
        → Stopped deps ps e
        → Stopped ((name, pkg) ∷ deps) ((name, c) ∷ ps) e

  abbrev pub IsPull : Dict LockedPackage → List (Str × Str) → Result JobError (Unit {0}) → Type 0
  IsPull deps ps (ok _) = Pulled deps ps
  IsPull deps ps (err e) = Stopped deps ps e

  -- From one world to a later one, these packages were extracted and nothing was uploaded.
  abbrev pub Extracts : JobWorld W → List (Str × Str) → JobWorld W → Type 0
  Extracts w ps w' = (w'.pulled ≡ w.pulled ++ ps) × (w'.uploads ≡ w.uploads)

  -- One package: it is extracted, or it stops the loop.
  OnePull : Str → LockedPackage → JobWorld W → Result JobError (Unit {0}) × JobWorld W → Type 0
  OnePull name pkg w (ok _, w') =
      (c : Str) × (digest c ≡ pkg.sha256) × Extracts w ((name, c) ∷ []) w'
  OnePull name pkg w (err e, w') = IsCulprit name pkg e × Extracts w [] w'

  unchanged : (w : JobWorld W) (h : W) → Extracts w [] (record w { host = h })
  unchanged w h = (sym (append-nil w.pulled), refl)

  extracted-OnePull :
      (job name c : Str) (pkg : LockedPackage) (w : JobWorld W) (z : Bool × W)
      → digest c ≡ pkg.sha256
      → OnePull name pkg w (extracted host digest job name c w z)
  unfolding OnePull
  extracted-OnePull job name c pkg w (false, h) same = (inl refl, unchanged w h)
  extracted-OnePull job name c pkg w (true, h) same = (c, same, (refl, refl))

  pull_answer-OnePull :
      (job name : Str) (pkg : LockedPackage) (resp : Response) (w : JobWorld W)
      → OnePull name pkg w (pull_answer host digest job name pkg resp w)
  unfolding pull_answer OnePull
  pull_answer-OnePull job name pkg resp w = elim (Bool-cases (eqb resp.status_code 200)) [
    | inr e ↦ rw e (inl refl, unchanged w w.host)
    | inl e ↦ elim (Bool-cases (digest resp.content == pkg.sha256)) [
      | inr differ ↦
          rw (e, differ)
            (
              inr (resp.content, refl, λ q. ground (arith, differ, q)),
              unchanged w (host.log job (codes "Checksum mismatch for " ++ name) w.host),
            )
      | inl same ↦
          rw (e, same)
            (extracted-OnePull job name resp.content pkg w
              (host.unpack name (archive_of resp.content) w.host) (ground (arith, same)))
    ]
  ]

  Extracts-trans :
      (w w1 w2 : JobWorld W) (ps qs : List (Str × Str))
      → Extracts w ps w1
      → Extracts w1 qs w2
      → Extracts w (ps ++ qs) w2
  Extracts-trans w w1 w2 ps qs (p, u) (q, v) =
      (q ∙ ap (λ l. l ++ qs) p ∙ append_assoc w.pulled ps qs, v ∙ u)

  -- What a loop over packages leaves.
  abbrev IsLoop : Dict LockedPackage → JobWorld W → Result JobError (Unit {0}) × JobWorld W → Type 0
  IsLoop deps w z = (ps : List (Str × Str)) × Extracts w ps z.1 × IsPull deps ps z.0

  IsLoop-cons :
      (name c : Str) (pkg : LockedPackage) (deps : Dict LockedPackage) (w w1 : JobWorld W)
      (z : Result JobError (Unit {0}) × JobWorld W)
      → digest c ≡ pkg.sha256
      → Extracts w ((name, c) ∷ []) w1
      → IsLoop deps w1 z
      → IsLoop ((name, pkg) ∷ deps) w z
  IsLoop-cons name c pkg deps w w1 (ok _, w2) same first (ps, rest, pulled) =
      ((name, c) ∷ ps, Extracts-trans w w1 w2 ((name, c) ∷ []) ps first rest, next same pulled)
  IsLoop-cons name c pkg deps w w1 (err e, w2) same first (ps, rest, stopped) =
      ((name, c) ∷ ps, Extracts-trans w w1 w2 ((name, c) ∷ []) ps first rest, later same stopped)

  IsLoop-after :
      (job name : Str) (pkg : LockedPackage) (deps : Dict LockedPackage) (w : JobWorld W)
      (z : Result JobError (Unit {0}) × JobWorld W)
      → OnePull name pkg w z
      → ((w1 : JobWorld W) → IsLoop deps w1 (pull_each host digest job deps w1))
      → IsLoop
          ((name, pkg) ∷ deps)
          w
          (after host digest z (λ _ w1. pull_each host digest job deps w1))
  unfolding OnePull
  IsLoop-after job name pkg deps w (err e, w1) (culprit, same) loop = ([], same, here culprit)
  IsLoop-after job name pkg deps w (ok _, w1) (c, same, first) loop =
      IsLoop-cons name c pkg deps w w1 (pull_each host digest job deps w1) same first (loop w1)

  pull_one-OnePull :
      (job name : Str) (pkg : LockedPackage) (w : JobWorld W)
      → OnePull name pkg w (pull_one host digest job name pkg w)
  unfolding OnePull
  pull_one-OnePull job name pkg w =
      let (resp, h) = host.get name pkg.version w.host in
      pull_answer-OnePull job name pkg resp (record w { host = h })

  pull_each_lem :
      (job : Str) (deps : Dict LockedPackage) (w : JobWorld W)
      → IsLoop deps w (pull_each host digest job deps w)
  unfolding pull_each
  pull_each_lem job [] w = ([], (sym (append-nil w.pulled), refl), complete)
  pull_each_lem job ((name, pkg) ∷ deps) w =
      IsLoop-after job name pkg deps w (pull_one host digest job name pkg w)
        (pull_one-OnePull job name pkg w) (pull_each_lem job deps)

  -- Pulling the packages of a lockfile uploads nothing. If it returns, each package was extracted, in
  -- the lockfile's order, with content of the checksum that the lockfile names. If it raises, that
  -- holds of the packages before one that was not extracted, and an integrity failure names that
  -- package, its checksum in the lockfile and the checksum of the content, which differs.
  pub pull_deps-IsPull :
      (job : Str) (lockfile : List LockedPackage) (w : JobWorld W)
      → let z = pull_deps host digest job lockfile w in
        (ps : List (Str × Str)) × Extracts w ps z.1
        × IsPull (lockfile_as_deps_dict lockfile []) ps z.0
  unfolding pull_deps
  pull_deps-IsPull job lockfile w = pull_each_lem job (lockfile_as_deps_dict lockfile []) w
