-- ===== src/Text/Split.antt =====
-- Python's `str.split`: what holds of the characters of the pieces, and of the words.
use forge_ci_cd_platform.Base.{
  ◌≡◌, refl, ◌∙◌, inl, inr, List, [], ◌∷◌, ◌++◌, none, some, Bool, true, false, not, ◌&&◌, arith, ℕ,
  ◌+◌, ◌*◌, ◌-◌, Str, Option, eqb, all, Bool-cases,
}
use forge_ci_cd_platform.Text.{
  is_space, is_nil, is_digit, split_on, split_once, split_words, words_from, cons_head, int,
  int_from,
}
use forge_ci_cd_platform.Text.Strip.{is_solid, strip-is_solid}

pub all-append :
    (p : ℕ → Bool) (s t : Str) → all p s ≡ true → all p t ≡ true → all p (s ++ t) ≡ true
all-append p [] t h k = k
all-append p (c ∷ s) t h k = ground (arith, h, all-append p s t)

pub all-imp :
    (p q : ℕ → Bool) (s : Str)
    → ((c : ℕ) → p c ≡ true → q c ≡ true)
    → all p s ≡ true
    → all q s ≡ true
all-imp p q [] f h = refl
all-imp p q (c ∷ s) f h = ground (arith, f c, all-imp p q s f, h)

-- The characters of a text are those of its pieces, and the separator.
all-cons_head :
    (p : ℕ → Bool) (c : ℕ) (ss : List Str)
    → all (λ s. all p s) (cons_head c ss) ≡ true
    → (p c ≡ true) × (all (λ s. all p s) ss ≡ true)
all-cons_head p c [] h = ground (arith, h)
all-cons_head p c (s ∷ ss) h = ground (arith, h)

pub all-split_on :
    (p : ℕ → Bool) (sep : ℕ) (s : Str)
    → all (λ t. all p t) (split_on sep s) ≡ true
    → p sep ≡ true
    → all p s ≡ true
unfolding split_on
all-split_on p sep [] h k = refl
all-split_on p sep (c ∷ s) h k = elim (Bool-cases (eqb c sep)) [
  | inl e ↦ ground (arith, e, h, k, all-split_on p sep s)
  | inr e ↦
      let (here, rest) = all-cons_head p c (split_on sep s) (rw e at h) in
      ground (arith, here, all-split_on p sep s rest k)
]

-- A text without the separator is its only piece.
pub split_on-whole :
    (p : ℕ → Bool) (sep : ℕ) (s : Str) → all p s ≡ true → p sep ≡ false → split_on sep s ≡ s ∷ []
unfolding split_on
split_on-whole p sep [] h k = refl
split_on-whole p sep (c ∷ s) h k = elim (Bool-cases (eqb c sep)) [
  | inl e ↦ ground (arith, e, h, k)
  | inr e ↦
      let whole : split_on sep s ≡ s ∷ [] = split_on-whole p sep s (ground (arith, h)) k in
      rw (e, whole) refl
]

abbrev pub all_option : (ℕ → Bool) → Option Str → Bool
all_option p none = true
all_option p (some s) = all p s

pub all-split_once :
    (p : ℕ → Bool) (sep : ℕ) (s : Str)
    → all p (split_once sep s).0 ≡ true
    → all_option p (split_once sep s).1 ≡ true
    → p sep ≡ true
    → all p s ≡ true
unfolding split_once
all-split_once p sep [] h k sepp = refl
all-split_once p sep (c ∷ s) h k sepp = elim (Bool-cases (eqb c sep)) [
  | inl e ↦ let k' : all p s ≡ true = rw e at k in ground (arith, e, sepp, k')
  | inr e ↦
      let h' : all p (c ∷ (split_once sep s).0) ≡ true = rw e at h in
      let k' : all_option p (split_once sep s).1 ≡ true = rw e at k in
      ground (arith, h', all-split_once p sep s (ground (arith, h')) k' sepp)
]

-- Each word is a text without whitespace, and not empty.
words_from-solid :
    (piece s : Str)
    → is_solid piece ≡ true
    → all (λ w. is_solid w && not (is_nil w)) (words_from piece s) ≡ true
unfolding words_from
words_from-solid piece [] h = ground (arith, h)
words_from-solid piece (c ∷ s) h = elim (Bool-cases (is_space c)) [
  | inl e ↦ ground (arith, e, h, words_from-solid [] s refl)
  | inr e ↦ rw e (
      words_from-solid (piece ++ c ∷ []) s
        (all-append (λ d. not (is_space d)) piece (c ∷ []) h (ground (arith, e))))
]

pub split_words-solid : (s : Str) → all (λ w. is_solid w && not (is_nil w)) (split_words s) ≡ true
unfolding split_words
split_words-solid s = words_from-solid [] s refl

digit_solid : (c : ℕ) → is_digit c ≡ true → not (is_space c) ≡ true
digit_solid c h = ground (arith, h)

int_from-step :
    (acc : ℕ) (b : Bool) (c : ℕ) (s : Str)
    → is_digit c ≡ true
    → int_from acc b (c ∷ s) ≡ int_from (acc * 10 + (c - b'0')) true s
unfolding int_from
int_from-step acc b c s h = rw (h, int_from) refl

int_from-digits :
    (acc : ℕ) (s : Str) → all is_digit s ≡ true → (n : ℕ) × (int_from acc true s ≡ some n)
unfolding int_from
int_from-digits acc [] h = (acc, refl)
int_from-digits acc (c ∷ s) h =
    let here : is_digit c ≡ true = ground (arith, h) in
    let (n, e) = int_from-digits (acc * 10 + (c - b'0')) s (ground (arith, h)) in
    (n, int_from-step acc true c s here ∙ e)

-- `int` reads every text of digits.
pub int-digits : (c : ℕ) (s : Str) → all is_digit (c ∷ s) ≡ true → (n : ℕ) × (int (c ∷ s) ≡ some n)
unfolding int int_from
int-digits c s h =
    let solid =
      strip-is_solid (c ∷ s) (all-imp is_digit (λ d. not (is_space d)) (c ∷ s) digit_solid h) in
    let here : is_digit c ≡ true = ground (arith, h) in
    let (n, e) = int_from-digits (0 * 10 + (c - b'0')) s (ground (arith, h)) in
    (n, rw solid (int_from-step 0 false c s here ∙ e))

words_from-head :
    (c : ℕ) (piece s : Str)
    → (w : Str) × (ws : List Str) × (words_from (c ∷ piece) s ≡ (c ∷ w) ∷ ws)
unfolding words_from
words_from-head c piece [] = (piece, [], refl)
words_from-head c piece (d ∷ s) = elim (Bool-cases (is_space d)) [
  | inl e ↦ (piece, words_from [] s, rw e refl)
  | inr e ↦ let (w, ws, p) = words_from-head c (piece ++ d ∷ []) s in (w, ws, rw e p)
]

-- The first word of a text starts as the text does, unless that is whitespace.
pub split_words-head :
    (c : ℕ) (s : Str)
    → is_space c ≡ false
    → (w : Str) × (ws : List Str) × (split_words (c ∷ s) ≡ (c ∷ w) ∷ ws)
unfolding split_words words_from
split_words-head c s h = let (w, ws, p) = words_from-head c [] s in (w, ws, rw h p)
