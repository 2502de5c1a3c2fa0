-- ===== src/Semver/Order.antt =====
-- registry/resolver.py, `compare_versions`: a total order on versions, up to their build.
use Prim.Native.Nat.{Ordering}
use forge_ci_cd_platform.Base.{ℕ, ◌≡◌, refl, List, [], ◌∷◌, arith, Str}
use forge_ci_cd_platform.Semver.{
  flip, str_compare, compare_identifiers, lex_compare, compare_prerelease, compare_tails,
  compare_then, compare_versions,
}

-- A comparison that answers as a total preorder: swapping the sides swaps the answer, `lt` is
-- transitive, and things that compare as equal compare alike with everything else.
pub record IsOrder {ℓ} {A : Type ℓ} (cmp : A → A → Ordering) : Type ℓ where
  pub flips : (a b : A) → cmp b a ≡ flip (cmp a b)
  pub lt_trans : (a b c : A) → cmp a b ≡ Ordering.lt → cmp b c ≡ Ordering.lt → cmp a c ≡ Ordering.lt
  pub eq_left : (a b c : A) → cmp a b ≡ Ordering.eq → cmp a c ≡ cmp b c

str_compare-flips : (s t : Str) → str_compare t s ≡ flip (str_compare s t)
unfolding str_compare
str_compare-flips [] [] = refl
str_compare-flips [] (b ∷ t) = refl
str_compare-flips (a ∷ s) [] = refl
str_compare-flips (a ∷ s) (b ∷ t) = ground (arith, str_compare-flips s t)

str_compare-lt_trans :
    (s t u : Str)
    → str_compare s t ≡ Ordering.lt
    → str_compare t u ≡ Ordering.lt
    → str_compare s u ≡ Ordering.lt
unfolding str_compare
str_compare-lt_trans [] [] u p q = cc
str_compare-lt_trans [] (b ∷ t) [] p q = cc
str_compare-lt_trans [] (b ∷ t) (c ∷ u) p q = refl
str_compare-lt_trans (a ∷ s) [] u p q = cc
str_compare-lt_trans (a ∷ s) (b ∷ t) [] p q = cc
str_compare-lt_trans (a ∷ s) (b ∷ t) (c ∷ u) p q = ground (arith, str_compare-lt_trans s t u)

pub str_compare-eq : (s t : Str) → str_compare s t ≡ Ordering.eq → s ≡ t
unfolding str_compare
str_compare-eq [] [] p = refl
str_compare-eq [] (b ∷ t) p = cc
str_compare-eq (a ∷ s) [] p = cc
str_compare-eq (a ∷ s) (b ∷ t) p = ground (arith, str_compare-eq s t)

pub str_compare-IsOrder : IsOrder str_compare
str_compare-IsOrder = record {
  flips = str_compare-flips;
  lt_trans = str_compare-lt_trans;
  eq_left = λ s t u e. rw (str_compare-eq s t e);
}

compare_identifiers-IsOrder : IsOrder compare_identifiers
unfolding compare_identifiers
compare_identifiers-IsOrder = record {
  flips = λ a b. ground (arith, str_compare-flips a b);
  lt_trans = λ a b c p q. ground (arith, str_compare-lt_trans a b c);
  eq_left = λ a b c e. ground (arith, str_compare-eq a b);
}

module _ {ℓ} {A : Type ℓ} (cmp : A → A → Ordering) (order : IsOrder cmp) where
  lex-flips : (xs ys : List A) → lex_compare cmp ys xs ≡ flip (lex_compare cmp xs ys)
  unfolding lex_compare
  lex-flips [] [] = refl
  lex-flips [] (y ∷ ys) = refl
  lex-flips (x ∷ xs) [] = refl
  lex-flips (x ∷ xs) (y ∷ ys) = ground (arith, order.flips x y, lex-flips xs ys)

  lex-lt_trans :
      (xs ys zs : List A)
      → lex_compare cmp xs ys ≡ Ordering.lt
      → lex_compare cmp ys zs ≡ Ordering.lt
      → lex_compare cmp xs zs ≡ Ordering.lt
  unfolding lex_compare
  lex-lt_trans [] [] zs p q = cc
  lex-lt_trans [] (y ∷ ys) [] p q = cc
  lex-lt_trans [] (y ∷ ys) (z ∷ zs) p q = refl
  lex-lt_trans (x ∷ xs) [] zs p q = cc
  lex-lt_trans (x ∷ xs) (y ∷ ys) [] p q = cc
  lex-lt_trans (x ∷ xs) (y ∷ ys) (z ∷ zs) p q = ground (
    arith,
    lex-lt_trans xs ys zs,
    order.lt_trans x y z,
    order.eq_left x y z,
    order.eq_left z y x,
    order.flips y z,
    order.flips x z,
    order.flips x y,
  )

  lex-eq_left :
      (xs ys zs : List A)
      → lex_compare cmp xs ys ≡ Ordering.eq
      → lex_compare cmp xs zs ≡ lex_compare cmp ys zs
  unfolding lex_compare
  lex-eq_left [] [] zs e = refl
  lex-eq_left [] (y ∷ ys) zs e = cc
  lex-eq_left (x ∷ xs) [] zs e = cc
  lex-eq_left (x ∷ xs) (y ∷ ys) [] e = refl
  lex-eq_left (x ∷ xs) (y ∷ ys) (z ∷ zs) e =
      ground (arith, lex-eq_left xs ys zs, order.eq_left x y z)

  pub lex_compare-IsOrder : IsOrder (lex_compare cmp)
  lex_compare-IsOrder = record { flips = lex-flips; lt_trans = lex-lt_trans; eq_left = lex-eq_left }

compare_tails-IsOrder : IsOrder compare_tails
compare_tails-IsOrder = record { flips = flips; lt_trans = lt_trans; eq_left = eq_left }
  where
    lex : IsOrder compare_prerelease
    lex = lex_compare-IsOrder compare_identifiers compare_identifiers-IsOrder

    flips : (xs ys : List Str) → compare_tails ys xs ≡ flip (compare_tails xs ys)
    flips [] [] = refl
    flips [] (y ∷ ys) = refl
    flips (x ∷ xs) [] = refl
    flips (x ∷ xs) (y ∷ ys) = lex.flips (x ∷ xs) (y ∷ ys)

    lt_trans :
        (xs ys zs : List Str)
        → compare_tails xs ys ≡ Ordering.lt
        → compare_tails ys zs ≡ Ordering.lt
        → compare_tails xs zs ≡ Ordering.lt
    lt_trans [] [] zs p q = cc
    lt_trans [] (y ∷ ys) zs p q = cc
    lt_trans (x ∷ xs) [] [] p q = cc
    lt_trans (x ∷ xs) [] (z ∷ zs) p q = cc
    lt_trans (x ∷ xs) (y ∷ ys) [] p q = refl
    lt_trans (x ∷ xs) (y ∷ ys) (z ∷ zs) p q = lex.lt_trans (x ∷ xs) (y ∷ ys) (z ∷ zs) p q

    eq_left :
        (xs ys zs : List Str)
        → compare_tails xs ys ≡ Ordering.eq
        → compare_tails xs zs ≡ compare_tails ys zs
    eq_left [] [] zs e = refl
    eq_left [] (y ∷ ys) zs e = cc
    eq_left (x ∷ xs) [] zs e = cc
    eq_left (x ∷ xs) (y ∷ ys) [] e = refl
    eq_left (x ∷ xs) (y ∷ ys) (z ∷ zs) e = lex.eq_left (x ∷ xs) (y ∷ ys) (z ∷ zs) e

-- The three numbers before another comparison keep it an order.
pub compare_then-IsOrder {ℓ} :
    {A : Type ℓ} (f : A → ℕ) (cmp : A → A → Ordering)
    → IsOrder cmp
    → IsOrder (λ a b. compare_then (f a) (f b) (cmp a b))
compare_then-IsOrder f cmp order = record {
  flips = λ a b. ground (arith, order.flips a b);
  lt_trans = λ a b c p q.
      ground (arith, order.lt_trans a b c, order.flips a c, order.flips a b, order.flips b c);
  eq_left = λ a b c e. ground (arith, order.eq_left a b c);
}

-- `compare_versions` is a total preorder: of two versions it says the same whichever comes first,
-- it is transitive, and versions that it finds equal compare alike with every other.
pub compare_versions-IsOrder : IsOrder compare_versions
unfolding compare_versions
compare_versions-IsOrder =
    compare_then-IsOrder (λ v. v.major) _
      (compare_then-IsOrder (λ v. v.minor) _
        (compare_then-IsOrder (λ v. v.patch) (λ a b. compare_tails a.prerelease b.prerelease)
          (record {
            flips = λ a b. compare_tails-IsOrder.flips a.prerelease b.prerelease;
            lt_trans =
                λ a b c. compare_tails-IsOrder.lt_trans a.prerelease b.prerelease c.prerelease;
            eq_left = λ a b c. compare_tails-IsOrder.eq_left a.prerelease b.prerelease c.prerelease;
          })))
