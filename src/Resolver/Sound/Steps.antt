-- ===== src/Resolver/Sound/Steps.antt =====
-- registry/resolver.py, `resolve_name`: its loop over the dependencies of a package.
use mathlib.Core.Path.{subst}
use forge_ci_cd_platform.Base.{
  All-imp, ◌≡◌, refl, sym, ap, List, [], ◌∷◌, some, false, arith, Str, contains, All,
}
use forge_ci_cd_platform.Base.Dict.{lookup}
use forge_ci_cd_platform.Base.Result.{Result, ok, >>=-eq-ok}
use forge_ci_cd_platform.Constraint.{from_string}
use forge_ci_cd_platform.Resolver.{
  Error, Dep, RegistryClient, Requirement, requirements_of, add_requirement, ResolvedPackage, State,
  make_requirement, resolve_deps,
}
use forge_ci_cd_platform.Resolver.Select.{Meets}
use forge_ci_cd_platform.Resolver.Invariant.{
  Locked, IsPackage, InvBut, Inv, Grows, Grows-refl, Grows-trans, Locked-mono, requirements-add_ne,
  narrows-add, added,
}

pub make_requirement_ok :
    (d : Dep) (via : Str) {req : Requirement}
    → make_requirement d via ≡ ok req
    → (req.name ≡ d.name) × (from_string d.version ≡ some req.constraint_set)
make_requirement_ok d via h = ground arith

abbrev pub adding : Requirement → State → State
adding req s = record s { requirements = add_requirement req s.requirements }

pub IsPackage-mono :
    (client : RegistryClient) (s t : State) (x : Str) (pkg : ResolvedPackage)
    → ((d : Dep) → Locked s d → Locked t d)
    → IsPackage client s x pkg
    → IsPackage client t x pkg
IsPackage-mono client s t x pkg f p = record {
  name = p.name;
  version = p.version;
  parses = p.parses;
  meta = p.meta;
  fetched = p.fetched;
  sha256 = p.sha256;
  deps = All-imp p.meta.deps f p.deps;
}

pub InvBut-adding :
    (client : RegistryClient) (req : Requirement) (s : State)
    → Inv client s
    → InvBut client req.name (adding req s)
InvBut-adding client req s inv = record {
  meets = λ x pkg ne h.
      let (v, p, m) = inv.meets x pkg h in
      (v, p, rw (requirements-add_ne req s.requirements x ne) m);
  known = λ x pkg h.
      IsPackage-mono client s (adding req s) x pkg
        (λ d. Locked-mono s (adding req s) d (λ y q k. (q, k)) (narrows-add req s.requirements))
        (inv.known x pkg h);
  apart = inv.apart;
}

pub Grows-adding :
    (req : Requirement) (s : State) → contains req.name s.visiting ≡ false → Grows s (adding req s)
Grows-adding req s new = record {
  visiting = refl;
  frozen =
      λ x m. requirements-add_ne req s.requirements x (λ e. cc (ap (λ y. contains y s.visiting) e));
  keeps = λ x pkg h. h;
  narrows = narrows-add req s.requirements;
}

-- What a successful call gives.
pub record Done (client : RegistryClient) (name : Str) (s s' : State) : Type 0 where
  pub inv : Inv client s'
  pub grows : Grows s s'
  pub new : contains name s.visiting ≡ false
  pub pkg : ResolvedPackage
  pub resolved : lookup name s'.resolved ≡ some pkg

abbrev pub Resolves : RegistryClient → (Str → State → Result Error State) → Type 0
Resolves client resolve =
    (name : Str) (s s' : State)
    → InvBut client name s
    → resolve name s ≡ ok s'
    → Done client name s s'

-- The loop over the dependencies locks each of them.
pub resolve_deps_lem :
    (client : RegistryClient) (resolve : Str → State → Result Error State) (via : Str)
    (ds : List Dep) (s s' : State)
    → Resolves client resolve
    → Inv client s
    → resolve_deps resolve via ds s ≡ ok s'
    → Inv client s' × Grows s s' × All (Locked s') ds
unfolding resolve_deps
resolve_deps_lem client resolve via [] s s' spec inv h =
    let same : s ≡ s' = ground (arith, h) in
    (subst (Inv client) same inv, subst (Grows s) same (Grows-refl s), tt)
resolve_deps_lem client resolve via (d ∷ ds) s s' spec inv h =
    let (req, e, h1) = >>=-eq-ok (make_requirement d via) _ h in
    let (named, parsed) = make_requirement_ok d via e in
    let (s1, e1, h2) = >>=-eq-ok (resolve d.name (adding req s)) _ h1 in
    let done =
      spec d.name (adding req s) s1
        (subst (λ n. InvBut client n (adding req s)) named (InvBut-adding client req s inv)) e1 in
    let (inv2, grows2, locked) = resolve_deps_lem client resolve via ds s1 s' spec done.inv h2 in
    let grows1 = Grows-trans (Grows-adding req s (rw named done.new)) done.grows in
    let here : Locked s1 d = (
      (done.pkg, done.resolved),
      (
        req.constraint_set,
        parsed,
        λ v m. added req s.requirements v (
            subst (λ n. Meets (requirements_of (add_requirement req s.requirements) n) v)
              (sym named) (done.grows.narrows d.name v m)),
      ),
    ) in
    (
      inv2,
      Grows-trans grows1 grows2,
      (Locked-mono s1 s' d (λ x pkg k. (pkg, grows2.keeps x pkg k)) grows2.narrows here, locked),
    )
