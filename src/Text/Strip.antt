-- ===== src/Text/Strip.antt =====
-- Python's `str.strip`: it changes no text that it has stripped, and no text without whitespace.
use forge_ci_cd_platform.Base.{
  ◌≡◌, refl, ◌⊎◌, inl, inr, [], ◌∷◌, ◌++◌, Bool, true, false, not, ◌&&◌, arith, ℕ, Str, all,
  Bool-cases,
}
use forge_ci_cd_platform.Text.{is_space, is_nil, lstrip, rstrip, strip}

lstrip-cases :
    (s : Str) → (lstrip s ≡ []) ⊎ ((c : ℕ) × (t : Str) × (lstrip s ≡ c ∷ t) × (is_space c ≡ false))
unfolding lstrip
lstrip-cases [] = inl refl
lstrip-cases (c ∷ s) = elim (Bool-cases (is_space c)) [
  | inl e ↦ rw e (lstrip-cases s)
  | inr e ↦ inr (c, s, rw e refl, e)
]

rstrip_again : (s : Str) → rstrip (rstrip s) ≡ rstrip s
unfolding rstrip
rstrip_again [] = refl
rstrip_again (c ∷ s) = elim (Bool-cases (is_space c && is_nil (rstrip s))) [
  | inl e ↦ rw e refl
  | inr e ↦ rw e (rw (rstrip_again s, e) refl)
]

rstrip-solid : (c : ℕ) (t : Str) → is_space c ≡ false → rstrip (c ∷ t) ≡ c ∷ rstrip t
unfolding rstrip
rstrip-solid c t e = rw e refl

lstrip-solid : (c : ℕ) (t : Str) → is_space c ≡ false → lstrip (c ∷ t) ≡ c ∷ t
unfolding lstrip
lstrip-solid c t e = rw e refl

pub strip_again : (s : Str) → strip (strip s) ≡ strip s
unfolding strip
strip_again s = elim (lstrip-cases s) [
  | inl e ↦ rw e again_nil
  | inr (c, t, e, solid) ↦
      rw
        (
          e,
          rstrip-solid c t solid,
          lstrip-solid c (rstrip t) solid,
          rstrip-solid c (rstrip t) solid,
          rstrip_again t,
        )
        refl
]
  where
    again_nil : rstrip (lstrip (rstrip [])) ≡ rstrip []
    again_nil = refl

-- A text without whitespace.
abbrev pub is_solid : Str → Bool
is_solid s = all (λ c. not (is_space c)) s

rstrip-is_solid : (s : Str) → is_solid s ≡ true → rstrip s ≡ s
unfolding rstrip
rstrip-is_solid [] h = refl
rstrip-is_solid (c ∷ s) h = ground (arith, rstrip-is_solid s, h)

rstrip-newline : (s : Str) → is_solid s ≡ true → rstrip (s ++ 10 ∷ []) ≡ s
unfolding rstrip
rstrip-newline [] h = refl
rstrip-newline (c ∷ s) h = ground (arith, rstrip-newline s, h)

pub strip-is_solid : (s : Str) → is_solid s ≡ true → strip s ≡ s
unfolding strip lstrip rstrip
strip-is_solid [] h = refl
strip-is_solid (c ∷ s) h =
    let solid : is_space c ≡ false = ground (arith, h) in
    rw (lstrip-solid c s solid) (rstrip-is_solid (c ∷ s) h)

pub strip-newline : (c : ℕ) (s : Str) → is_solid (c ∷ s) ≡ true → strip (c ∷ s ++ 10 ∷ []) ≡ c ∷ s
unfolding strip
strip-newline c s h =
    let solid : is_space c ≡ false = ground (arith, h) in
    rw (lstrip-solid c (s ++ 10 ∷ []) solid) (rstrip-newline (c ∷ s) h)

rstrip-line : (s : Str) → rstrip (s ++ 10 ∷ []) ≡ rstrip s
unfolding rstrip
rstrip-line [] = refl
rstrip-line (c ∷ s) = ground (arith, rstrip-line s)

-- The line break at the end of a line goes.
pub strip-line : (s : Str) → strip (s ++ 10 ∷ []) ≡ strip s
unfolding strip lstrip rstrip
strip-line [] = refl
strip-line (c ∷ s) = elim (Bool-cases (is_space c)) [
  | inl e ↦ rw e (strip-line s)
  | inr e ↦ rw e (rstrip-line (c ∷ s))
]
