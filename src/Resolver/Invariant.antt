-- ===== src/Resolver/Invariant.antt =====
-- registry/resolver.py: what the shared dictionaries of a resolution satisfy, and how they grow.
use forge_ci_cd_platform.Base.{
  ◌≡◌, ◌≢◌, refl, ◌∙◌, inl, inr, List, [], ◌∷◌, ◌++◌, some, none, true, arith, Str, ◌==◌,
  if◌then◌else◌, contains, All, Bool-cases,
}
use forge_ci_cd_platform.Base.Dict.{lookup, lookup-insert}
use forge_ci_cd_platform.Base.Result.{ok}
use forge_ci_cd_platform.Semver.{SemVer, parse}
use forge_ci_cd_platform.Constraint.{ConstraintSet, satisfies, from_string}
use forge_ci_cd_platform.Resolver.{
  Dep, PackageMeta, RegistryClient, Requirement, Requirements, requirements_of, add_requirement,
  ResolvedPackage, State,
}
use forge_ci_cd_platform.Resolver.Select.{Meets}

-- The package's version parses and meets the requirements on the name.
abbrev pub Fits : Requirements → Str → ResolvedPackage → Type 0
Fits r x pkg = (v : SemVer) × (parse pkg.version ≡ some v) × Meets (requirements_of r x) v

-- Whatever meets the requirements on the dependency's name satisfies its constraint.
abbrev pub Recorded : Requirements → Dep → Type 0
Recorded r d =
    (cs : ConstraintSet) × (from_string d.version ≡ some cs)
    × ((v : SemVer) → Meets (requirements_of r d.name) v → satisfies cs v ≡ true)

abbrev pub Locked : State → Dep → Type 0
Locked s d =
    ((pkg : ResolvedPackage) × (lookup d.name s.resolved ≡ some pkg)) × Recorded s.requirements d

-- A resolved package is what the registry says of it, and its dependencies are locked.
pub record IsPackage (client : RegistryClient) (s : State) (x : Str) (pkg : ResolvedPackage)
    : Type 0 where
  pub name : pkg.name ≡ x
  pub version : SemVer
  pub parses : parse pkg.version ≡ some version
  pub meta : PackageMeta
  pub fetched : client.get_metadata x pkg.version ≡ ok meta
  pub sha256 : pkg.sha256 ≡ meta.sha256
  pub deps : All (Locked s) meta.deps

-- The requirements on one name may not be met yet: those on the name that is looked at next.
pub record InvBut (client : RegistryClient) (but : Str) (s : State) : Type 0 where
  pub meets :
      (x : Str) (pkg : ResolvedPackage)
      → x ≢ but
      → lookup x s.resolved ≡ some pkg
      → Fits s.requirements x pkg
  pub known :
      (x : Str) (pkg : ResolvedPackage) → lookup x s.resolved ≡ some pkg → IsPackage client s x pkg
  pub apart : (x : Str) → contains x s.visiting ≡ true → lookup x s.resolved ≡ none

pub record Inv (client : RegistryClient) (s : State) : Type 0 where
  pub meets :
      (x : Str) (pkg : ResolvedPackage) → lookup x s.resolved ≡ some pkg → Fits s.requirements x pkg
  pub known :
      (x : Str) (pkg : ResolvedPackage) → lookup x s.resolved ≡ some pkg → IsPackage client s x pkg
  pub apart : (x : Str) → contains x s.visiting ≡ true → lookup x s.resolved ≡ none

-- How the state grows in a call: resolved packages stay, requirements are only added, and none is
-- added on a name that is being visited.
pub record Grows (s s' : State) : Type 0 where
  pub visiting : s'.visiting ≡ s.visiting
  pub frozen :
      (x : Str)
      → contains x s.visiting ≡ true
      → requirements_of s'.requirements x ≡ requirements_of s.requirements x
  pub keeps :
      (x : Str) (pkg : ResolvedPackage)
      → lookup x s.resolved ≡ some pkg
      → lookup x s'.resolved ≡ some pkg
  pub narrows :
      (x : Str) (v : SemVer)
      → Meets (requirements_of s'.requirements x) v
      → Meets (requirements_of s.requirements x) v

pub Grows-refl : (s : State) → Grows s s
Grows-refl s = record {
  visiting = refl;
  frozen = λ x m. refl;
  keeps = λ x pkg h. h;
  narrows = λ x v h. h;
}

pub Grows-trans : {s t u : State} → Grows s t → Grows t u → Grows s u
Grows-trans a b = record {
  visiting = b.visiting ∙ a.visiting;
  frozen = λ x m. b.frozen x (rw a.visiting m) ∙ a.frozen x m;
  keeps = λ x pkg h. b.keeps x pkg (a.keeps x pkg h);
  narrows = λ x v h. a.narrows x v (b.narrows x v h);
}

-- A wider resolution and narrower requirements keep a dependency locked.
pub Locked-mono :
    (s t : State) (d : Dep)
    → ((x : Str) (pkg : ResolvedPackage)
        → lookup x s.resolved ≡ some pkg
        → (q : ResolvedPackage) × (lookup x t.resolved ≡ some q))
    → ((x : Str) (v : SemVer)
        → Meets (requirements_of t.requirements x) v
        → Meets (requirements_of s.requirements x) v)
    → Locked s d
    → Locked t d
Locked-mono s t d keeps narrows ((pkg, h), (cs, e, r)) =
    (keeps d.name pkg h, (cs, e, λ v m. r v (narrows d.name v m)))

all-snoc :
    (reqs : List Requirement) (r : Requirement) (v : SemVer)
    → Meets (reqs ++ r ∷ []) v
    → Meets reqs v × (satisfies r.constraint_set v ≡ true)
all-snoc [] r v h = (refl, ground arith)
all-snoc (q ∷ qs) r v h = ground (arith, all-snoc qs r v)

module _ (req : Requirement) (r : Requirements) where
  requirements-add :
      (x : Str)
      → requirements_of (add_requirement req r) x
        ≡ (if x == req.name then requirements_of r req.name ++ req ∷ [] else requirements_of r x)
  unfolding add_requirement
  requirements-add x =
      ground (arith, lookup-insert x req.name (requirements_of r req.name ++ req ∷ []) r)

  pub requirements-add_ne :
      (x : Str) → x ≢ req.name → requirements_of (add_requirement req r) x ≡ requirements_of r x
  requirements-add_ne x h = ground (arith, requirements-add x)

  pub narrows-add :
      (x : Str) (v : SemVer)
      → Meets (requirements_of (add_requirement req r) x) v
      → Meets (requirements_of r x) v
  narrows-add x v h = elim (Bool-cases (x == req.name)) [
    | inl e ↦
        let same : x ≡ req.name = ground (arith, e) in
        let h' : Meets (requirements_of r req.name ++ req ∷ []) v = rw (requirements-add, e) at h in
        rw same (all-snoc (requirements_of r req.name) req v h').0
    | inr e ↦ rw (requirements-add, e) at h
  ]

  pub added :
      (v : SemVer)
      → Meets (requirements_of (add_requirement req r) req.name) v
      → satisfies req.constraint_set v ≡ true
  added v h =
      let e : requirements_of (add_requirement req r) req.name
          ≡ requirements_of r req.name ++ req ∷ [] =
        ground (arith, requirements-add req.name) in
      (all-snoc (requirements_of r req.name) req v (rw e at h)).1
