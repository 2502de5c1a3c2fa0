-- ===== src/Base/Dict.antt =====
-- Python's `dict` with text keys, in insertion order.
use mathlib.Core.Path.{◌≡◌, refl, subst}
use mathlib.Core.Logic.{inl, inr}
use mathlib.Core.Bool.{true, false, ◌||◌}
use mathlib.Core.Option.{Option, none, some}
use mathlib.Core.List.{List, [], ◌∷◌, ◌++◌}
use native.Mathlib.Omega.{arith}
use forge_ci_cd_platform.Base.Tests.{Str, ◌==◌, if◌then◌else◌, Bool-cases, is_some}
use forge_ci_cd_platform.Base.Lists.{contains, Nodup, All}

abbrev pub Dict {ℓ} : Type ℓ → Type ℓ
Dict V = List (Str × V)

module _ {ℓ} {V : Type ℓ} where
  -- `list(d)`
  abbrev pub keys : Dict V → List Str
  keys [] = []
  keys ((k, _) ∷ d) = k ∷ keys d

  -- `list(d.values())`
  abbrev pub values : Dict V → List V
  values [] = []
  values ((_, v) ∷ d) = v ∷ values d

  -- `d.get(k)`
  abbrev pub lookup : Str → Dict V → Option V
  lookup k [] = none
  lookup k ((j, v) ∷ d) = if k == j then some v else lookup k d

  -- `d[k] = v`
  abbrev pub insert : Str → V → Dict V → Dict V
  insert k v [] = (k, v) ∷ []
  insert k v ((j, w) ∷ d) = if k == j then (k, v) ∷ d else (j, w) ∷ insert k v d

  -- `d.pop(k, None)`
  abbrev pub erase : Str → Dict V → Dict V
  erase k [] = []
  erase k ((j, w) ∷ d) = let rest = erase k d in if k == j then rest else (j, w) ∷ rest

module _ {ℓ} {V : Type ℓ} where
  pub lookup-insert :
      (j k : Str) (v : V) (d : Dict V)
      → lookup j (insert k v d) ≡ (if j == k then some v else lookup j d)
  lookup-insert j k v [] = refl
  lookup-insert j k v ((i, w) ∷ d) = ground (arith, lookup-insert j k v d)

  pub lookup-erase :
      (j k : Str) (d : Dict V) → lookup j (erase k d) ≡ (if j == k then none else lookup j d)
  lookup-erase j k [] = ground arith
  lookup-erase j k ((i, w) ∷ d) = ground (arith, lookup-erase j k d)

  pub contains-keys-insert :
      (j k : Str) (v : V) (d : Dict V)
      → contains j (keys (insert k v d)) ≡ (j == k || contains j (keys d))
  contains-keys-insert j k v [] = ground arith
  contains-keys-insert j k v ((i, w) ∷ d) = ground (arith, contains-keys-insert j k v d)

  pub insert-Nodup : (k : Str) (v : V) (d : Dict V) → Nodup (keys d) → Nodup (keys (insert k v d))
  insert-Nodup k v [] u = (refl, tt)
  insert-Nodup k v ((i, w) ∷ d) (fresh, u) =
      ground (arith, insert-Nodup k v d u, contains-keys-insert i k v d)

  -- Where a key is present, the write leaves the keys as they are.
  pub keys-insert_old :
      (k : Str) (v : V) (d : Dict V) → contains k (keys d) ≡ true → keys (insert k v d) ≡ keys d
  keys-insert_old k v [] h = cc
  keys-insert_old k v ((i, w) ∷ d) h = ground (arith, keys-insert_old k v d)

  -- A new key goes to the end.
  pub insert-append :
      (k : Str) (v : V) (d : Dict V) → contains k (keys d) ≡ false → insert k v d ≡ d ++ (k, v) ∷ []
  insert-append k v [] h = refl
  insert-append k v ((i, w) ∷ d) h = ground (arith, insert-append k v d)

  pub lookup-ne-none :
      (k : Str) (d : Dict V) → contains k (keys d) ≡ true → (v : V) × (lookup k d ≡ some v)
  lookup-ne-none k [] h = cc
  lookup-ne-none k ((i, w) ∷ d) h = elim (Bool-cases (k == i)) [
    | inl e ↦ (w, rw e)
    | inr e ↦ let (v, p) = lookup-ne-none k d (rw e at h) in (v, rw e p)
  ]

  pub contains-keys_of_lookup :
      (k : Str) (d : Dict V) {v : V} → lookup k d ≡ some v → contains k (keys d) ≡ true
  contains-keys_of_lookup k [] h = cc
  contains-keys_of_lookup k ((i, w) ∷ d) h = elim (Bool-cases (k == i)) [
    | inl e ↦ rw e
    | inr e ↦ rw e (contains-keys_of_lookup k d (rw e at h))
  ]

  pub lookup-none_of_absent :
      (k : Str) (d : Dict V) → contains k (keys d) ≡ false → lookup k d ≡ none
  lookup-none_of_absent k [] h = refl
  lookup-none_of_absent k ((i, w) ∷ d) h = ground (arith, lookup-none_of_absent k d)

  pub lookup-All {κ} :
      (P : V → Type κ) (k : Str) (d : Dict V) (v : V) → All P (values d) → lookup k d ≡ some v → P v
  lookup-All P k [] v h e = cc
  lookup-All P k ((i, w) ∷ d) v h e = elim (Bool-cases (k == i)) [
    | inl p ↦ let same : w ≡ v = ground (arith, p, e) in subst P same h.0
    | inr p ↦ lookup-All P k d v h.1 (rw p at e)
  ]

  pub contains-keys : (k : Str) (d : Dict V) → contains k (keys d) ≡ is_some (lookup k d)
  contains-keys k [] = refl
  contains-keys k ((i, w) ∷ d) = ground (arith, contains-keys k d)

  pub insert_again : (k : Str) (v : V) (d : Dict V) → insert k v (insert k v d) ≡ insert k v d
  insert_again k v [] = ground arith
  insert_again k v ((i, w) ∷ d) = ground (arith, insert_again k v d)
