-- ===== src/Base/Lists.antt =====
-- Python's lists: measured by native numbers, searched by Boolean tests.
use Prim.Native.Nat.{ℕ, suc, ◌+◌, ◌≤◌}
use mathlib.Core.Path.{◌≡◌, refl}
use mathlib.Core.Bool.{Bool, true, false, ◌||◌, ◌&&◌, not}
use mathlib.Core.List.{List, [], ◌∷◌, ◌++◌}
use native.Mathlib.Omega.{arith}
use mathlib.Core.Logic.{◌⊎◌, inl, inr}
use forge_ci_cd_platform.Base.Tests.{Str, ◌==◌, if◌then◌else◌, Bool-cases}

module _ {ℓ} {A : Type ℓ} where
  abbrev pub length : List A → ℕ
  length [] = 0
  length (x ∷ xs) = suc (length xs)

  -- `all(p(x) for x in xs)`
  abbrev pub all : (A → Bool) → List A → Bool
  all p [] = true
  all p (x ∷ xs) = p x && all p xs

  -- `any(p(x) for x in xs)`
  abbrev pub any : (A → Bool) → List A → Bool
  any p [] = false
  any p (x ∷ xs) = p x || any p xs

  -- `[x for x in xs if p(x)]`
  abbrev pub filter : (A → Bool) → List A → List A
  filter p [] = []
  filter p (x ∷ xs) = let rest = filter p xs in if p x then x ∷ rest else rest

  -- Every element of the list has the property.
  abbrev pub All {κ} : (A → Type κ) → List A → Type κ
  All P [] = Unit
  All P (x ∷ xs) = P x × All P xs

module _ {ℓ} {A : Type ℓ} where
  pub List-cases : (xs : List A) → (xs ≡ []) ⊎ ((y : A) × (ys : List A) × (xs ≡ y ∷ ys))
  List-cases [] = inl refl
  List-cases (y ∷ ys) = inr (y, ys, refl)

  pub length-append : (xs ys : List A) → length (xs ++ ys) ≡ length xs + length ys
  length-append [] ys = omega arith
  length-append (x ∷ xs) ys = omega (arith, length-append xs ys)

pub All-imp {ℓ κ} :
    {A : Type ℓ} {P Q : A → Type κ} (xs : List A) → ((x : A) → P x → Q x) → All P xs → All Q xs
All-imp [] f h = tt
All-imp (x ∷ xs) f h = (f x h.0, All-imp xs f h.1)

pub All-snoc {ℓ κ} :
    {A : Type ℓ} (P : A → Type κ) (xs : List A) (x : A) → All P xs → P x → All P (xs ++ x ∷ [])
All-snoc P [] x h p = (p, tt)
All-snoc P (y ∷ xs) x h p = (h.0, All-snoc P xs x h.1 p)

-- `x in xs`
abbrev pub contains : Str → List Str → Bool
contains x [] = false
contains x (y ∷ ys) = x == y || contains x ys

-- `xs.count(x)`
abbrev pub count : Str → List Str → ℕ
count x [] = 0
count x (y ∷ ys) = if x == y then suc (count x ys) else count x ys

-- `s.discard(x)`
abbrev pub discard : Str → List Str → List Str
discard x [] = []
discard x (y ∷ ys) = let rest = discard x ys in if x == y then rest else y ∷ rest

-- `s.add(x)`
abbrev pub set_add : Str → List Str → List Str
set_add x xs = if contains x xs then xs else x ∷ xs

abbrev pub Nodup : List Str → Type 0
Nodup [] = Unit
Nodup (x ∷ xs) = (contains x xs ≡ false) × Nodup xs

abbrev pub Subset : List Str → List Str → Type 0
Subset xs ys = (x : Str) → contains x xs ≡ true → contains x ys ≡ true

pub contains-append :
    (x : Str) (xs ys : List Str) → contains x (xs ++ ys) ≡ (contains x xs || contains x ys)
contains-append x [] ys = refl
contains-append x (y ∷ xs) ys = ground (arith, contains-append x xs ys)

pub contains-discard :
    (x y : Str) (ys : List Str) → contains x (discard y ys) ≡ (not (x == y) && contains x ys)
contains-discard x y [] = ground arith
contains-discard x y (z ∷ ys) = ground (arith, contains-discard x y ys)

pub discard-absent : (x : Str) (ys : List Str) → contains x ys ≡ false → discard x ys ≡ ys
discard-absent x [] h = refl
discard-absent x (y ∷ ys) h = ground (arith, discard-absent x ys)

pub length-discard :
    (x : Str) (ys : List Str) → contains x ys ≡ true → suc (length (discard x ys)) ≤ length ys
length-discard x [] h = cc
length-discard x (y ∷ ys) h = ground (arith, length-discard x ys, discard-absent x ys)

-- A list without repetition is no longer than a list that holds its elements.
pub length-le_of_Subset : (xs ys : List Str) → Nodup xs → Subset xs ys → length xs ≤ length ys
length-le_of_Subset [] ys u h = omega arith
length-le_of_Subset (x ∷ xs) ys (fresh, u) h =
    let shorter =
      length-le_of_Subset xs (discard x ys) u λ y m. ground (arith, contains-discard y x ys, h y) in
    let here : contains x ys ≡ true = ground (arith, h x) in omega (arith, length-discard x ys here)

pub Nodup-snoc : (xs : List Str) (x : Str) → Nodup xs → contains x xs ≡ false → Nodup (xs ++ x ∷ [])
Nodup-snoc [] x u h = (refl, tt)
Nodup-snoc (y ∷ xs) x (fresh, u) h =
    (ground (arith, contains-append y xs (x ∷ [])), Nodup-snoc xs x u (ground arith))

pub count-zero : (x : Str) (xs : List Str) → contains x xs ≡ false → count x xs ≡ 0
count-zero x [] h = refl
count-zero x (y ∷ xs) h = ground (arith, count-zero x xs)

pub count-append : (x : Str) (xs ys : List Str) → count x (xs ++ ys) ≡ count x xs + count x ys
count-append x [] ys = omega arith
count-append x (y ∷ xs) ys = ground (arith, count-append x xs ys)

pub contains-filter :
    (p : Str → Bool) (x : Str) (xs : List Str) → contains x (filter p xs) ≡ (contains x xs && p x)
contains-filter p x [] = refl
contains-filter p x (y ∷ xs) = ground (arith, contains-filter p x xs)

pub filter-Nodup : (p : Str → Bool) (xs : List Str) → Nodup xs → Nodup (filter p xs)
filter-Nodup p [] u = tt
filter-Nodup p (x ∷ xs) (fresh, u) = ground (arith, filter-Nodup p xs u, contains-filter p x xs)

-- Of two lists without repetition and of one length, the one within the other is all of it.
pub Subset_of_length :
    (xs ys : List Str) → Nodup xs → Subset xs ys → length ys ≤ length xs → Subset ys xs
Subset_of_length xs ys u h le y m = elim (Bool-cases (contains y xs)) [
  | inl e ↦ e
  | inr e ↦
      let longer = length-le_of_Subset (y ∷ xs) ys (e, u) (λ x n. ground (arith, h x)) in
      absurd (omega (arith, longer))
]

-- Of two lists, the second is within the first or has a first entry that is not.
pub find_missing :
    (xs ys : List Str)
    → Subset ys xs ⊎ ((y : Str) × (contains y ys ≡ true) × (contains y xs ≡ false))
find_missing xs [] = inl (λ y m. cc)
find_missing xs (y ∷ ys) = elim (Bool-cases (contains y xs)) [
  | inl e ↦ elim (find_missing xs ys) [
    | inl h ↦ inl (λ z m. ground (arith, h z))
    | inr (z, m, a) ↦ inr (z, ground (arith, m), a)
  ]
  | inr e ↦ inr (y, ground arith, e)
]
