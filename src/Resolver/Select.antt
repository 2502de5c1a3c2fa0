-- ===== src/Resolver/Select.antt =====
-- registry/resolver.py, `_select_version`: what is chosen among the listed versions.
mod Sorting
use Prim.Native.Nat.{Ordering}
use mathlib.Core.Path.{subst}
use mathlib.Core.Option.{some-injective}
use forge_ci_cd_platform.Base.{
  All-imp, ◌≡◌, ◌≢◌, refl, ◌⊎◌, ◌∙◌, sym, ap, inl, inr, List, [], ◌∷◌, some, true, arith, Str, ◌==◌,
  all, contains, All, Bool-cases, Option-cases,
}
use forge_ci_cd_platform.Base.Result.{ok, err, >>=-eq-ok}
use forge_ci_cd_platform.Semver.{SemVer, parse, VersionKey, compare_keys, compare_versions}
use forge_ci_cd_platform.Semver.Key.{
  compare_keys-IsOrder, compare_keys_releases, keys_prefer_prerelease,
}
use forge_ci_cd_platform.Constraint.{satisfies}
use forge_ci_cd_platform.Resolver.{
  Requirement, RegistryClient, sort_descending, candidates, first_text, select_version, conflict,
  not_found,
}
use forge_ci_cd_platform.Resolver.Select.Sorting.{
  All-sort, All_of_sort, IsDescending, sort-IsDescending,
}
pub use forge_ci_cd_platform.Resolver.Select.Sorting.{Ordering-cases}

-- The version meets every requirement.
abbrev pub Meets : List Requirement → SemVer → Type 0
Meets reqs v = all (λ r. satisfies r.constraint_set v) reqs ≡ true

-- A listed version that parses and meets the requirements.
pub record IsCandidate (reqs : List Requirement) (available : List Str) (k : VersionKey)
    : Type 0 where
  pub member : contains k.text available ≡ true
  pub parses : parse k.text ≡ some k.parsed
  pub meets : Meets reqs k.parsed

module _ (reqs : List Requirement) where
  candidates_cases :
      (ver : Str) (vers : List Str)
      → ((v : SemVer) × (parse ver ≡ some v)
          × Meets reqs v
          × (candidates reqs (ver ∷ vers)
              ≡ record { parsed = v; text = ver } ∷ candidates reqs vers))
        ⊎ ((candidates reqs (ver ∷ vers) ≡ candidates reqs vers)
            × ((v : SemVer) → parse ver ≡ some v → ¬ Meets reqs v))
  unfolding candidates
  candidates_cases ver vers = elim (Option-cases (parse ver)) [
    | inl e ↦ inr (rw (e, candidates), λ v p m. cc)
    | inr (v, e) ↦ elim (Bool-cases (all (λ r. satisfies r.constraint_set v) reqs)) [
      | inl m ↦ inl (v, e, m, rw (e, m, candidates))
      | inr m ↦ inr (
        rw (e, m, candidates),
        λ u p n. let same : u ≡ v = ground (arith, e, p) in cc (rw same at n),
      )
    ]
  ]

  candidates-IsCandidate : (vers : List Str) → All (IsCandidate reqs vers) (candidates reqs vers)
  unfolding candidates
  candidates-IsCandidate [] = tt
  candidates-IsCandidate (ver ∷ vers) =
      let rest =
        All-imp (candidates reqs vers)
          (λ (k : VersionKey) (c : IsCandidate reqs vers k).
            let kept : IsCandidate reqs (ver ∷ vers) k = record {
              member = ground (arith, c.member);
              parses = c.parses;
              meets = c.meets;
            } in
            kept)
          (candidates-IsCandidate vers) in
      elim (candidates_cases ver vers) [
        | inl (v, p, m, e) ↦ rw e (record { member = ground arith; parses = p; meets = m }, rest)
        | inr (e, _) ↦ rw e rest
      ]

  -- What holds of all candidates holds of each listed version that qualifies.
  candidates_complete :
      (P : VersionKey → Type 0) (vers : List Str) (k : VersionKey)
      → All P (candidates reqs vers)
      → IsCandidate reqs vers k
      → P k
  unfolding candidates
  candidates_complete P [] k h c = absurd (cc (c.member))
  candidates_complete P (ver ∷ vers) k h c = elim (Bool-cases (k.text == ver)) [
    | inl same ↦
        let t : k.text ≡ ver = ground (arith, same) in
        let parses : parse ver ≡ some k.parsed = ap parse (sym t) ∙ c.parses in
        elim (candidates_cases ver vers) [
          | inl (v, p, m, e) ↦
              let h' : All P (record { parsed = v; text = ver } ∷ candidates reqs vers) =
                rw e at h in
              let q : v ≡ k.parsed = some-injective v k.parsed (sym p ∙ parses) in
              subst P (λ i. record { parsed = q i; text = sym t i }) h'.0
          | inr (e, none_meets) ↦ absurd (none_meets k.parsed parses c.meets)
        ]
    | inr other ↦
        let c' : IsCandidate reqs vers k = record {
          member = ground (arith, c.member, other);
          parses = c.parses;
          meets = c.meets;
        } in
        elim (candidates_cases ver vers) [
          | inl (v, p, m, e) ↦
              let h' : All P (record { parsed = v; text = ver } ∷ candidates reqs vers) =
                rw e at h in
              candidates_complete P vers k h'.1 c'
          | inr (e, _) ↦ candidates_complete P vers k (rw e at h) c'
        ]
  ]

-- A choice of a version: the registry lists it, it parses and meets every requirement, and no
-- listed version that does so has a higher key.
pub record IsChosen (client : RegistryClient) (name : Str) (reqs : List Requirement) (version : Str)
    : Type 0 where
  pub available : List Str
  pub listed : client.list_versions name ≡ ok available
  pub key : VersionKey
  pub text : key.text ≡ version
  pub candidate : IsCandidate reqs available key
  pub highest : (k : VersionKey) → IsCandidate reqs available k → compare_keys key k ≢ Ordering.lt

compare_keys_self : (k : VersionKey) → compare_keys k k ≢ Ordering.lt
compare_keys_self k = ground (arith, compare_keys-IsOrder.flips k k)

IsChosen-first :
    (client : RegistryClient) (name : Str) (reqs : List Requirement) (available : List Str)
    (k : VersionKey) (ks : List VersionKey)
    → client.list_versions name ≡ ok available
    → sort_descending (candidates reqs available) ≡ k ∷ ks
    → IsChosen client name reqs k.text
IsChosen-first client name reqs available k ks listed e = record {
  available = available;
  listed = listed;
  key = k;
  text = refl;
  candidate = kept.0;
  highest = λ j c.
      candidates_complete reqs (λ x. compare_keys k x ≢ Ordering.lt) available j
        (All_of_sort (λ x. compare_keys k x ≢ Ordering.lt) (candidates reqs available)
          (rw e (compare_keys_self k, below.0)))
        c;
}
  where
    kept : All (IsCandidate reqs available) (k ∷ ks)
    kept = rw e at (
        All-sort (IsCandidate reqs available) (candidates reqs available)
          (candidates-IsCandidate reqs available))

    below : IsDescending (k ∷ ks)
    below = rw e at (sort-IsDescending (candidates reqs available))

first_text_cases :
    (name : Str) (ks : List VersionKey)
    → ((k : VersionKey) × (rest : List VersionKey) × (ks ≡ k ∷ rest)
        × (first_text name ks ≡ ok k.text))
      ⊎ ((ks ≡ []) × (first_text name ks ≡ err (conflict name)))
first_text_cases name [] = inr (refl, refl)
first_text_cases name (k ∷ ks) = inl (k, ks, refl, refl)

-- `_select_version` chooses the highest qualifying version by its key, raises a conflict just if
-- versions are listed and none qualifies, and raises not-found just if none is listed. There is no
-- other outcome but an exception of the registry client.
pub select_version_cases :
    (client : RegistryClient) (name : Str) (reqs : List Requirement) (available : List Str)
    → client.list_versions name ≡ ok available
    → ((v : Str) × (select_version client name reqs ≡ ok v) × IsChosen client name reqs v)
      ⊎ (((select_version client name reqs ≡ err (conflict name))
            × (available ≢ [])
            × ((k : VersionKey) → ¬ IsCandidate reqs available k))
          ⊎ ((select_version client name reqs ≡ err (not_found name)) × (available ≡ [])))
unfolding select_version
select_version_cases client name reqs [] listed = inr (inr (rw (listed, select_version), refl))
select_version_cases client name reqs (v ∷ vs) listed =
    elim (first_text_cases name (sort_descending (candidates reqs (v ∷ vs)))) [
      | inl (k, ks, e, p) ↦ inl (
        k.text,
        rw (listed, select_version) p,
        IsChosen-first client name reqs (v ∷ vs) k ks listed e,
      )
      | inr (e, p) ↦ inr (
          inl (
            rw (listed, select_version) p,
            (λ z. cc),
            λ k c.
                candidates_complete reqs (λ x. ⊥) (v ∷ vs) k
                  (All_of_sort (λ x. ⊥) (candidates reqs (v ∷ vs)) (rw e tt)) c,
          ))
    ]

pub select_version-IsChosen :
    (client : RegistryClient) (name : Str) (reqs : List Requirement) (v : Str)
    → select_version client name reqs ≡ ok v
    → IsChosen client name reqs v
unfolding select_version
select_version-IsChosen client name reqs v h =
    let (available, listed, _) = >>=-eq-ok (client.list_versions name) _ h in
    elim (select_version_cases client name reqs available listed) [
      | inl (w, e, c) ↦
          let same : w ≡ v = ground (arith, e) in subst (IsChosen client name reqs) same c
      | inr (inl (e, _, _)) ↦ cc
      | inr (inr (e, _)) ↦ cc
    ]

-- The choice among a known list, with its parsed version.
select_version-beats :
    (client : RegistryClient) (name : Str) (reqs : List Requirement) (available : List Str)
    (v : Str) (chosen : SemVer) (k : VersionKey)
    → client.list_versions name ≡ ok available
    → select_version client name reqs ≡ ok v
    → parse v ≡ some chosen
    → IsCandidate reqs available k
    → compare_keys (record { parsed = chosen; text = v }) k ≢ Ordering.lt
select_version-beats client name reqs available v chosen k listed h parsed c =
    let best = select_version-IsChosen client name reqs v h in
    let lists : available ≡ best.available = cc (listed, best.listed) in
    let same : best.key.parsed ≡ chosen =
      some-injective best.key.parsed chosen
        (sym best.candidate.parses ∙ ap parse best.text ∙ parsed) in
    subst (λ key. compare_keys key k ≢ Ordering.lt)
      (λ i. record { parsed = same i; text = best.text i })
      (best.highest k (subst (λ l. IsCandidate reqs l k) lists c))

-- Among releases `_select_version` chooses the highest by `compare_versions`: if it returns a release,
-- then no listed release that parses and meets all requirements is higher.
pub select_version-highest_release :
    (client : RegistryClient) (name : Str) (reqs : List Requirement) (available : List Str)
    (v : Str) (chosen : SemVer) (text : Str) (other : SemVer)
    → client.list_versions name ≡ ok available
    → select_version client name reqs ≡ ok v
    → parse v ≡ some chosen
    → chosen.prerelease ≡ []
    → contains text available ≡ true
    → parse text ≡ some other
    → Meets reqs other
    → other.prerelease ≡ []
    → compare_versions chosen other ≢ Ordering.lt
select_version-highest_release client name reqs available v chosen text other listed h parsed
      release member parses meets other_release lower =
    let key : VersionKey = record { parsed = chosen; text = v } in
    let k : VersionKey = record { parsed = other; text = text } in
    select_version-beats client name reqs available v chosen k listed h parsed
      (record { member = member; parses = parses; meets = meets })
      (ground (arith, compare_keys_releases key k release other_release, lower))

-- `_select_version` never returns a release while a prerelease of the same three numbers is listed and
-- meets all requirements.
pub select_version-not_release :
    (client : RegistryClient) (name : Str) (reqs : List Requirement) (available : List Str)
    (v : Str) (chosen : SemVer) (text : Str) (early : SemVer)
    → client.list_versions name ≡ ok available
    → select_version client name reqs ≡ ok v
    → parse v ≡ some chosen
    → contains text available ≡ true
    → parse text ≡ some early
    → Meets reqs early
    → early.prerelease ≢ []
    → chosen.major ≡ early.major
    → chosen.minor ≡ early.minor
    → chosen.patch ≡ early.patch
    → chosen.prerelease ≢ []
select_version-not_release client name reqs available v chosen text early listed h parsed member
      parses meets is_early a b d release =
    let key : VersionKey = record { parsed = chosen; text = v } in
    let k : VersionKey = record { parsed = early; text = text } in
    select_version-beats client name reqs available v chosen k listed h parsed
      (record { member = member; parses = parses; meets = meets })
      (keys_prefer_prerelease key k a b d release is_early).1
