-- ===== src/Resolver/Select/Sorting.antt =====
-- registry/resolver.py, `_select_version`: the sort of the candidates.
use Prim.Native.Nat.{Ordering}
use forge_ci_cd_platform.Base.{All-imp, ◌≡◌, ◌≢◌, refl, ◌⊎◌, inl, inr, List, [], ◌∷◌, arith, All}
use forge_ci_cd_platform.Semver.{VersionKey, compare_keys}
use forge_ci_cd_platform.Semver.Order.{IsOrder}
use forge_ci_cd_platform.Semver.Key.{compare_keys-IsOrder}
use forge_ci_cd_platform.Resolver.{insert_key, sort_descending}

pub Ordering-cases : (o : Ordering) → (o ≡ Ordering.lt) ⊎ ((o ≡ Ordering.eq) ⊎ (o ≡ Ordering.gt))
Ordering-cases Ordering.lt = inl refl
Ordering-cases Ordering.eq = inr (inl refl)
Ordering-cases Ordering.gt = inr (inr refl)

pub insert_key_cases :
    (k j : VersionKey) (js : List VersionKey)
    → (compare_keys k j ≢ Ordering.lt) × (insert_key k (j ∷ js) ≡ k ∷ j ∷ js)
      ⊎ (compare_keys k j ≡ Ordering.lt) × (insert_key k (j ∷ js) ≡ j ∷ insert_key k js)
unfolding insert_key
insert_key_cases k j js = elim (Ordering-cases (compare_keys k j)) [
  | inl e ↦ inr (e, rw (e, insert_key))
  | inr (inl e) ↦ inl (ground (arith, e), rw (e, insert_key))
  | inr (inr e) ↦ inl (ground (arith, e), rw (e, insert_key))
]

module _ (P : VersionKey → Type 0) where
  pub All-insert_key :
      (k : VersionKey) (ks : List VersionKey) → P k → All P ks → All P (insert_key k ks)
  unfolding insert_key
  All-insert_key k [] p h = (p, tt)
  All-insert_key k (j ∷ js) p h = elim (insert_key_cases k j js) [
    | inl (_, e) ↦ rw e (p, h)
    | inr (_, e) ↦ rw e (h.0, All-insert_key k js p h.1)
  ]

  pub All_of_insert_key :
      (k : VersionKey) (ks : List VersionKey) → All P (insert_key k ks) → P k × All P ks
  unfolding insert_key
  All_of_insert_key k [] h = h
  All_of_insert_key k (j ∷ js) h = elim (insert_key_cases k j js) [
    | inl (_, e) ↦ rw e at h
    | inr (_, e) ↦
        let h' : All P (j ∷ insert_key k js) = rw e at h in
        let (p, rest) = All_of_insert_key k js h'.1 in (p, (h'.0, rest))
  ]

  pub All-sort : (ks : List VersionKey) → All P ks → All P (sort_descending ks)
  unfolding sort_descending
  All-sort [] h = tt
  All-sort (k ∷ ks) h = All-insert_key k (sort_descending ks) h.0 (All-sort ks h.1)

  pub All_of_sort : (ks : List VersionKey) → All P (sort_descending ks) → All P ks
  unfolding sort_descending
  All_of_sort [] h = tt
  All_of_sort (k ∷ ks) h =
      let (p, rest) = All_of_insert_key k (sort_descending ks) h in (p, All_of_sort ks rest)

-- No entry stands behind one with a lower key.
abbrev pub IsDescending : List VersionKey → Type 0
IsDescending [] = Unit
IsDescending (k ∷ ks) = All (λ j. compare_keys k j ≢ Ordering.lt) ks × IsDescending ks

pub not_lt_trans :
    (a b c : VersionKey)
    → compare_keys a b ≢ Ordering.lt
    → compare_keys b c ≢ Ordering.lt
    → compare_keys a c ≢ Ordering.lt
not_lt_trans a b c p q = ground (arith, order.flips a b, order.lt_trans b a c, order.eq_left a b c)
  where
    order : IsOrder compare_keys
    order = compare_keys-IsOrder

pub insert_key-IsDescending :
    (k : VersionKey) (ks : List VersionKey) → IsDescending ks → IsDescending (insert_key k ks)
unfolding insert_key
insert_key-IsDescending k [] d = (tt, tt)
insert_key-IsDescending k (j ∷ js) d = elim (insert_key_cases k j js) [
  | inl (above, e) ↦ rw e ((above, All-imp js (λ x below. not_lt_trans k j x above below) d.0), d)
  | inr (below, e) ↦
      let above : compare_keys j k ≢ Ordering.lt =
        λ z. ground (arith, below, z, compare_keys-IsOrder.flips k j) in
      rw e (
        All-insert_key (λ x. compare_keys j x ≢ Ordering.lt) k js above d.0,
        insert_key-IsDescending k js d.1,
      )
]

pub sort-IsDescending : (ks : List VersionKey) → IsDescending (sort_descending ks)
unfolding sort_descending
sort-IsDescending [] = tt
sort-IsDescending (k ∷ ks) = insert_key-IsDescending k (sort_descending ks) (sort-IsDescending ks)
