-- ===== src/Resolver/Rings.antt =====
-- registry/resolver.py, `resolve_name`: rings of packages that depend on one another.
use mathlib.Core.Path.{subst}
use forge_ci_cd_platform.Base.{
  ◌≡◌, ◌≢◌, refl, ◌∙◌, inl, inr, List, [], ◌∷◌, ◌++◌, true, arith, Str, ◌==◌, contains, Bool-cases,
}
use forge_ci_cd_platform.Base.Result.{ok, err}
use forge_ci_cd_platform.Scheduler.{from_index}
use forge_ci_cd_platform.Resolver.{cycle, Dep, PackageMeta, RegistryClient, insert_dep, sort_deps}
use forge_ci_cd_platform.Resolver.Sound.Sorts.{insert_dep_cases}
pub mod Calls

-- The names that dependencies are on.
abbrev pub dep_names : List Dep → List Str
dep_names [] = []
dep_names (d ∷ ds) = d.name ∷ dep_names ds

contains-insert_dep :
    (x : Str) (d : Dep) (ds : List Dep)
    → contains x (dep_names (insert_dep d ds)) ≡ contains x (dep_names (d ∷ ds))
unfolding insert_dep
contains-insert_dep x d [] = refl
contains-insert_dep x d (e ∷ es) = elim (insert_dep_cases d e es) [
  | inl q ↦ rw q refl
  | inr q ↦ rw q (ground (arith, contains-insert_dep x d es))
]

pub contains-sort_deps :
    (x : Str) (ds : List Dep) → contains x (dep_names (sort_deps ds)) ≡ contains x (dep_names ds)
unfolding sort_deps
contains-sort_deps x [] = refl
contains-sort_deps x (d ∷ ds) =
    contains-insert_dep x d (sort_deps ds) ∙ ground (arith, contains-sort_deps x ds)

module _ (client : RegistryClient) where
  -- Some version of the first package has a dependency on the second.
  abbrev pub Depends : Str → Str → Type 0
  Depends a b =
      (version : Str) × (meta : PackageMeta) × (client.get_metadata a version ≡ ok meta)
      × (contains b (dep_names meta.deps) ≡ true)

  -- From the first package over those of the list to the last, each depends on the next.
  abbrev pub IsPath : Str → List Str → Str → Type 0
  IsPath a [] z = Depends a z
  IsPath a (b ∷ bs) z = Depends a b × IsPath b bs z

  -- At least one package, each of which depends on the next, and the last on the first.
  abbrev pub IsRing : List Str → Type 0
  IsRing [] = ⊥
  IsRing (n ∷ ns) = IsPath n ns n

  -- The client raises no CycleError, which is the resolver's own exception.
  pub record IsCalm : Type 0 where
    pub lists : (name : Str) (path : List Str) → client.list_versions name ≢ err (cycle path)
    pub fetches :
        (name version : Str) (path : List Str) → client.get_metadata name version ≢ err (cycle path)

  -- The packages that are being resolved lead to this one.
  abbrev pub Leads : List Str → Str → Type 0
  Leads [] z = Unit
  Leads (a ∷ as') z = IsPath a as' z

  IsPath-snoc :
      (a : Str) (bs : List Str) (n z : Str)
      → IsPath a bs n
      → Depends n z
      → IsPath a (bs ++ n ∷ []) z
  IsPath-snoc a [] n z p d = (p, d)
  IsPath-snoc a (b ∷ bs) n z (p, q) d = (p, IsPath-snoc b bs n z q d)

  pub Leads-snoc :
      (stack : List Str) (n z : Str) → Leads stack n → Depends n z → Leads (stack ++ n ∷ []) z
  Leads-snoc [] n z h d = d
  Leads-snoc (a ∷ as') n z h d = IsPath-snoc a as' n z h d

  Leads-tail : (a : Str) (as' : List Str) (z : Str) → IsPath a as' z → Leads as' z
  Leads-tail a [] z h = tt
  Leads-tail a (b ∷ bs) z (_, h) = h

  pub from_index-IsRing :
      (name : Str) (stack : List Str)
      → contains name stack ≡ true
      → Leads stack name
      → IsRing (from_index name stack)
  from_index-IsRing name [] m h = absurd (cc (m))
  from_index-IsRing name (a ∷ as') m h = elim (Bool-cases (name == a)) [
    | inl e ↦ let same : name ≡ a = ground (arith, e) in rw e (subst (λ z. IsPath a as' z) same h)
    | inr e ↦ rw e (from_index-IsRing name as' (ground (arith, m, e)) (Leads-tail a as' name h))
  ]
