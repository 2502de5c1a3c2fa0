-- ===== src/Base/Result.antt =====
-- Code that may raise: the error is a value of a type of its component.
use mathlib.Core.Path.{◌≡◌, refl, subst}
use mathlib.Core.Logic.{◌⊎◌, inl, inr}

pub data Result {ℓ} (E : Type ℓ) (A : Type ℓ) : Type ℓ where
  ok : A → Result E A
  err : E → Result E A

infixl 5 ◌>>=◌ ◌>>◌
-- What follows a statement runs on its value, and an exception skips it.
abbrev pub ◌>>=◌ {ℓ} : {E A B : Type ℓ} → Result E A → (A → Result E B) → Result E B
err raised >>= _ = err raised
ok value >>= next = next value

abbrev pub ◌>>◌ {ℓ} : {E A B : Type ℓ} → Result E A → Result E B → Result E B
first >> second = first >>= (λ _. second)

pub >>=-eq-ok {ℓ} :
    {E A B : Type ℓ} (m : Result E A) (next : A → Result E B) {b : B}
    → (m >>= next) ≡ ok b
    → (a : A) × (m ≡ ok a) × (next a ≡ ok b)
>>=-eq-ok (ok a) next h = (a, refl, h)
>>=-eq-ok (err e) next h = cc

pub Result-cases {ℓ} :
    {E A : Type ℓ} (r : Result E A) → ((a : A) × (r ≡ ok a)) ⊎ ((e : E) × (r ≡ err e))
Result-cases (ok a) = inl (a, refl)
Result-cases (err e) = inr (e, refl)

pub >>=-eq-err {ℓ} :
    {E A B : Type ℓ} (m : Result E A) (next : A → Result E B) {e : E}
    → (m >>= next) ≡ err e
    → (m ≡ err e) ⊎ ((a : A) × (m ≡ ok a) × (next a ≡ err e))
>>=-eq-err (ok a) next h = inr (a, refl, h)
>>=-eq-err (err e) next h = inl (cc)

-- What code gives when it returns satisfies `P`.
pub record Gives {ℓ κ} {E A : Type ℓ} (P : A → Type κ) (m : Result E A) : Type (ℓ ⊔ κ) where
  pub of : (a : A) → m ≡ ok a → P a

ok_injective {ℓ} : {E A : Type ℓ} (a b : A) → ◌≡◌ {A = Result E A} (ok a) (ok b) → a ≡ b
ok_injective a b h = cc

pub Gives-ok {ℓ κ} : {E A : Type ℓ} {P : A → Type κ} {a : A} → P a → Gives {E = E} P (ok a)
Gives-ok {P = P} {a = a} p = record { of = λ b h. subst P (ok_injective a b h) p }

pub Gives-err {ℓ κ} : {E A : Type ℓ} {P : A → Type κ} {e : E} → Gives {A = A} P (err e)
Gives-err = record { of = λ b h. cc }

-- The value of a statement is carried on with what it satisfies.
pub Gives->>= {ℓ κ ι} :
    {E A B : Type ℓ} {Q : A → Type ι} {P : B → Type κ} (m : Result E A) {next : A → Result E B}
    → Gives Q m
    → ((a : A) → Q a → Gives P (next a))
    → Gives P (m >>= next)
Gives->>= (ok a) first rest = rest a (first.of a refl)
Gives->>= (err e) first rest = Gives-err

-- A statement whose value does not matter.
pub Gives-skip {ℓ κ} :
    {E A B : Type ℓ} {P : B → Type κ} (m : Result E A) {next : A → Result E B}
    → ((a : A) → Gives P (next a))
    → Gives P (m >>= next)
Gives-skip (ok a) rest = rest a
Gives-skip (err e) rest = Gives-err

pub Gives-imp {ℓ κ ι} :
    {E A : Type ℓ} {Q : A → Type ι} {P : A → Type κ} (m : Result E A)
    → Gives Q m
    → ((a : A) → Q a → P a)
    → Gives P m
Gives-imp m h f = record { of = λ a e. f a (h.of a e) }
