-- ===== src/Resolver/Sound/Leave.antt =====
-- registry/resolver.py, `resolve_name`: the end of a call.
use mathlib.Core.Path.{subst}
use forge_ci_cd_platform.Base.{
  ◌≡◌, sym, ap, inl, inr, ◌∷◌, some, none, true, false, arith, Str, ◌==◌, if◌then◌else◌, contains,
  Bool-cases, discard-absent,
}
use forge_ci_cd_platform.Base.Dict.{lookup, lookup-insert}
use forge_ci_cd_platform.Resolver.{Dep, RegistryClient, ResolvedPackage, State, enter, leave}
use forge_ci_cd_platform.Resolver.Invariant.{
  Fits, Locked, IsPackage, InvBut, Inv, Grows, Locked-mono,
}
use forge_ci_cd_platform.Resolver.Sound.Steps.{IsPackage-mono}

pub Inv-enter :
    (client : RegistryClient) (name : Str) (s : State)
    → InvBut client name s
    → lookup name s.resolved ≡ none
    → Inv client (enter name s)
Inv-enter client name s inv absent = record {
  meets = λ x pkg h. elim (Bool-cases (x == name)) [
    | inl e ↦ let same : x ≡ name = ground (arith, e) in cc (ap (λ y. lookup y s.resolved) same)
    | inr e ↦ inv.meets x pkg (ground (arith, e)) h
  ];
  known = λ x pkg h. IsPackage-mono client s (enter name s) x pkg (λ d l. l) (inv.known x pkg h);
  apart = λ x m. elim (Bool-cases (x == name)) [
    | inl e ↦ let same : x ≡ name = ground (arith, e) in rw same absent
    | inr e ↦ inv.apart x (ground (arith, e, m))
  ];
}

-- The package is recorded under its name, and every dependency of it is locked.
module _ (client : RegistryClient) (name : Str) (s s1 : State) (pkg : ResolvedPackage)
    (inv : Inv client s1) (grows : Grows (enter name s) s1)
    (new : contains name s.visiting ≡ false) where
  pub entered : (enter name s).visiting ≡ name ∷ s.visiting
  entered = ground (arith, new)

  pub lookup-leave :
      (x : Str)
      → lookup x (leave name pkg s1).resolved
        ≡ (if x == name then some pkg else lookup x s1.resolved)
  lookup-leave x = lookup-insert x name pkg s1.resolved

  pub absent_name : lookup name s1.resolved ≡ none
  absent_name = inv.apart name (rw (grows.visiting, entered) (ground arith))

  pub visiting-leave : (leave name pkg s1).visiting ≡ s.visiting
  visiting-leave = rw (grows.visiting, entered) (ground (arith, discard-absent name s.visiting))

  pub keeps-leave :
      (x : Str) (q : ResolvedPackage)
      → lookup x s1.resolved ≡ some q
      → lookup x (leave name pkg s1).resolved ≡ some q
  keeps-leave x q h = ground (arith, lookup-leave x, absent_name)

  pub Locked-leave : (d : Dep) → Locked s1 d → Locked (leave name pkg s1) d
  Locked-leave d =
      Locked-mono s1 (leave name pkg s1) d (λ x q h. (q, keeps-leave x q h)) (λ x v h. h)

  pub Inv-leave :
      IsPackage client s1 name pkg → Fits s1.requirements name pkg → Inv client (leave name pkg s1)
  Inv-leave is_package fits = record {
    meets = λ x q h. elim (Bool-cases (x == name)) [
      | inl e ↦
          let same : x ≡ name = ground (arith, e) in
          let q_is : pkg ≡ q = ground (arith, lookup-leave x, e, h) in
          subst (λ y. Fits s1.requirements y q) (sym same)
            (subst (λ p. Fits s1.requirements name p) q_is fits)
      | inr e ↦ inv.meets x q (ground (arith, lookup-leave x, e, h))
    ];
    known = λ x q h. elim (Bool-cases (x == name)) [
      | inl e ↦
          let same : x ≡ name = ground (arith, e) in
          let q_is : pkg ≡ q = ground (arith, lookup-leave x, e, h) in
          IsPackage-mono client s1 (leave name pkg s1) x q Locked-leave (
            subst (λ y. IsPackage client s1 y q) (sym same)
              (subst (λ p. IsPackage client s1 name p) q_is is_package))
      | inr e ↦
          IsPackage-mono client s1 (leave name pkg s1) x q Locked-leave
            (inv.known x q (ground (arith, lookup-leave x, e, h)))
    ];
    apart = λ x m.
        let m' : contains x s.visiting ≡ true = rw visiting-leave at m in
        let other : (x == name) ≡ false = elim (Bool-cases (x == name)) [
          | inr e ↦ e
          | inl e ↦
              let same : x ≡ name = ground (arith, e) in cc (ap (λ y. contains y s.visiting) same)
        ] in
        let before = inv.apart x (rw (grows.visiting, entered) (ground (arith, m'))) in
        ground (arith, lookup-leave x, other, before);
  }

  pub Grows-leave : Grows s (leave name pkg s1)
  Grows-leave = record {
    visiting = visiting-leave;
    frozen = λ x m. grows.frozen x (rw entered (ground (arith, m)));
    keeps = λ x q h. keeps-leave x q (grows.keeps x q h);
    narrows = λ x v h. grows.narrows x v h;
  }

  -- The package is new in the resolution, so that the entry point of the call has it.
  pub lookup-leave_self : lookup name (leave name pkg s1).resolved ≡ some pkg
  lookup-leave_self = ground (arith, lookup-leave name)
