-- ===== src/Resolver/Sound/Roots.antt =====
-- registry/resolver.py, `_resolve_graph`: its loop over the required names.
use mathlib.Core.Path.{subst}
use forge_ci_cd_platform.Base.{
  ℕ, ◌≡◌, refl, ◌∙◌, sym, ap, inl, inr, List, [], ◌∷◌, ◌++◌, some, true, arith, Str, ◌==◌, contains,
  All, Bool-cases, Option-cases,
}
use forge_ci_cd_platform.Base.Dict.{lookup, keys, contains-keys-insert}
use forge_ci_cd_platform.Base.Result.{ok, >>=-eq-ok}
use forge_ci_cd_platform.Semver.{SemVer}
use forge_ci_cd_platform.Resolver.{
  Dep, RegistryClient, Requirement, Requirements, requirements_of, add_requirement, ResolvedPackage,
  State, make_requirement, resolve_name, resolve_roots, root_requirements, pipeline_via,
}
use forge_ci_cd_platform.Resolver.Select.{Meets}
use forge_ci_cd_platform.Resolver.Invariant.{
  Recorded, InvBut, Inv, Grows, Grows-refl, Grows-trans, narrows-add, added,
}
use forge_ci_cd_platform.Resolver.Sound.Steps.{make_requirement_ok}
use forge_ci_cd_platform.Resolver.Sound.Calls.{resolve_name_lem}

-- The loop over the required names: each of them is resolved.
pub resolve_roots_lem :
    (client : RegistryClient) (fuel : ℕ) (names : List Str) (s s' : State)
    → Inv client s
    → resolve_roots client fuel names s ≡ ok s'
    → Inv client s'
      × Grows s s'
      × ((x : Str)
          → contains x names ≡ true
          → (pkg : ResolvedPackage) × (lookup x s'.resolved ≡ some pkg))
unfolding resolve_roots
resolve_roots_lem client fuel [] s s' inv h =
    let same : s ≡ s' = ground (arith, h) in
    (subst (Inv client) same inv, subst (Grows s) same (Grows-refl s), λ x m. cc)
resolve_roots_lem client fuel (name ∷ names) s s' inv h =
    elim (Option-cases (lookup name s.resolved)) [
      | inr (pkg, there) ↦
          let (inv2, grows, all_in) =
            resolve_roots_lem client fuel names s s' inv (rw (there, resolve_roots) at h) in
          (
            inv2,
            grows,
            λ x m. elim (Bool-cases (x == name)) [
              | inl e ↦
                  let x_is : x ≡ name = ground (arith, e) in
                  (pkg, ap (λ y. lookup y s'.resolved) x_is ∙ grows.keeps name pkg there)
              | inr e ↦ all_in x (ground (arith, e, m))
            ],
          )
      | inl absent ↦
          let (s1, e1, h1) =
            >>=-eq-ok (resolve_name client fuel name s) _ (rw (absent, resolve_roots) at h) in
          let but : InvBut client name s = record {
            meets = λ x pkg ne k. inv.meets x pkg k;
            known = inv.known;
            apart = inv.apart;
          } in
          let done = resolve_name_lem client fuel name s s1 but e1 in
          let (inv2, grows, all_in) = resolve_roots_lem client fuel names s1 s' done.inv h1 in
          (
            inv2,
            Grows-trans done.grows grows,
            λ x m. elim (Bool-cases (x == name)) [
              | inl e ↦
                  let x_is : x ≡ name = ground (arith, e) in
                  (
                    done.pkg,
                    ap (λ y. lookup y s'.resolved) x_is ∙ grows.keeps name done.pkg done.resolved,
                  )
              | inr e ↦ all_in x (ground (arith, e, m))
            ],
          )
    ]

abbrev pub fresh : Requirements → State
fresh r = record { requirements = r; resolved = []; visiting = []; path_stack = [] }

pub Inv-fresh : (client : RegistryClient) (r : Requirements) → Inv client (fresh r)
Inv-fresh client r = record {
  meets = λ x pkg h. absurd (cc h);
  known = λ x pkg h. absurd (cc h);
  apart = λ x m. refl;
}

pub added_key :
    (req : Requirement) (r : Requirements) → contains req.name (keys (add_requirement req r)) ≡ true
unfolding add_requirement
added_key req r =
    ground
      (arith, contains-keys-insert req.name req.name (requirements_of r req.name ++ req ∷ []) r)

pub kept_key :
    (req : Requirement) (r : Requirements) (x : Str)
    → contains x (keys r) ≡ true
    → contains x (keys (add_requirement req r)) ≡ true
unfolding add_requirement
kept_key req r x m =
    ground (arith, contains-keys-insert x req.name (requirements_of r req.name ++ req ∷ []) r)

-- The requirements of the pipeline: each is recorded under its name.
pub root_requirements_lem :
    (ds : List Dep) (r r' : Requirements)
    → root_requirements ds r ≡ ok r'
    → ((x : Str) (v : SemVer) → Meets (requirements_of r' x) v → Meets (requirements_of r x) v)
      × ((x : Str) → contains x (keys r) ≡ true → contains x (keys r') ≡ true)
      × All (λ d. (contains d.name (keys r') ≡ true) × Recorded r' d) ds
unfolding root_requirements
root_requirements_lem [] r r' h =
    let same : r ≡ r' = ground (arith, h) in (λ x v m. rw same m, λ x m. rw (← same) m, tt)
root_requirements_lem (d ∷ ds) r r' h =
    let (req, e, h1) = >>=-eq-ok (make_requirement d pipeline_via) _ h in
    let (named, parsed) = make_requirement_ok d pipeline_via e in
    let (narrows, keeps, rest) = root_requirements_lem ds (add_requirement req r) r' h1 in
    let here : contains d.name (keys (add_requirement req r)) ≡ true =
      subst (λ n. contains n (keys (add_requirement req r)) ≡ true) named (added_key req r) in
    (
      λ x v m. narrows-add req r x v (narrows x v m),
      λ x m. keeps x (kept_key req r x m),
      (
        (
          keeps d.name here,
          (
            req.constraint_set,
            parsed,
            λ v m. added req r v (
                subst (λ n. Meets (requirements_of (add_requirement req r) n) v) (sym named)
                  (narrows d.name v m)),
          ),
        ),
        rest,
      ),
    )
