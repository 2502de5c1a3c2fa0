-- ===== src/Parser/Constraints.antt =====
-- engine/parser.py with registry/resolver.py: the constraints that the parser accepts and those that
-- the resolver reads.
use forge_ci_cd_platform.Base.{
  ℕ, str_dec, ◌≡◌, refl, inl, inr, List, [], ◌∷◌, Option, none, some, Bool, true, false, not, ◌&&◌,
  arith, Str, if◌then◌else◌, is_some, codes, Bool-cases, Option-cases, List-cases,
}
use forge_ci_cd_platform.Text.Split.{split_words-head}
use forge_ci_cd_platform.Text.{is_space, is_nil, strip, starts_with, has_substring, split_words}
use forge_ci_cd_platform.Semver.{SemVer, parse}
use forge_ci_cd_platform.Semver.Accepts.{parse-is_valid_semver}
use forge_ci_cd_platform.Constraint.{
  between, Op, eq, Comparator, ConstraintSet, bare_op, match_op, tail, comparator, prepend,
  parse_tokens, parse_comparator_range, has_range_op, from_string, with_upper, exactly,
  caret_upper_bound, tilde_upper_bound,
}
use forge_ci_cd_platform.Parser.Texts.{
  is_valid_semver_version, comparator_tokens, parse_comparator_tokens, is_valid_semver_constraint,
  add_token,
}

-- A value is there.
abbrev Found {ℓ} : {A : Type ℓ} → Option A → Type ℓ
Found {A = A} o = (a : A) × (o ≡ some a)

version-parse : (s : Str) → is_valid_semver_version s ≡ true → Found (parse s)
unfolding is_valid_semver_version
version-parse s h = parse-is_valid_semver s h

comparator-version :
    (op : Op) (s : Str) → is_valid_semver_version s ≡ true → Found (comparator op s)
comparator-version op s h =
    let (v, e) = version-parse s h in (record { op = op; version = v }, rw (e, comparator) refl)

prepend-Found :
    (c : Option Comparator) (cs : Option (List Comparator))
    → Found c
    → Found cs
    → Found (prepend c cs)
prepend-Found c cs (x, p) (xs, q) = (x ∷ xs, rw (p, q) refl)

add_token-some :
    (c : Op × Str) (o : Option (List (Op × Str)))
    → is_some (add_token c o) ≡ true
    → is_some o ≡ true
add_token-some c none h = h
add_token-some c (some cs) h = refl

if_some :
    (b : Bool) (c : Op × Str) (o : Option (List (Op × Str)))
    → is_some (if b then add_token c o else none) ≡ true
    → (b ≡ true) × (is_some o ≡ true)
if_some true c o h = (refl, add_token-some c o h)
if_some false c o h = absurd (cc (h))

-- The loop of the resolver reads what the loop of the parser accepts.
comparator_tokens-parse_tokens :
    (tokens : List Str) → is_some (comparator_tokens tokens) ≡ true → Found (parse_tokens tokens)
unfolding comparator_tokens parse_tokens
comparator_tokens-parse_tokens [] h = ([], refl)
comparator_tokens-parse_tokens (token ∷ []) h = elim (Option-cases (bare_op token)) [
  | inr (op, e) ↦ absurd (cc (rw (e, comparator_tokens) at h))
  | inl e ↦ elim (Option-cases (match_op token)) [
    | inl m ↦ absurd (cc (rw (e, m, comparator_tokens) at h))
    | inr ((op, v), m) ↦
        let (valid, _) =
          if_some (is_valid_semver_version v) (op, v) (some [])
            (rw (e, m, comparator_tokens) at h) in
        rw (e, m, parse_tokens)
          (prepend-Found (comparator op v) (some []) (comparator-version op v valid) ([], refl))
  ]
]
comparator_tokens-parse_tokens (token ∷ next ∷ rest) h = elim (Option-cases (bare_op token)) [
  | inr (op, e) ↦
      let (valid, h') =
        if_some (is_valid_semver_version next) (op, next) (comparator_tokens rest)
          (rw (e, comparator_tokens) at h) in
      rw (e, parse_tokens)
        (prepend-Found (comparator op next) (parse_tokens rest) (comparator-version op next valid)
          (comparator_tokens-parse_tokens rest h'))
  | inl e ↦ elim (Option-cases (match_op token)) [
    | inl m ↦ absurd (cc (rw (e, m, comparator_tokens) at h))
    | inr ((op, v), m) ↦
        let (valid, h') =
          if_some (is_valid_semver_version v) (op, v) (comparator_tokens (next ∷ rest))
            (rw (e, m, comparator_tokens) at h) in
        rw (e, m, parse_tokens)
          (prepend-Found (comparator op v) (parse_tokens (next ∷ rest))
            (comparator-version op v valid) (comparator_tokens-parse_tokens (next ∷ rest) h'))
  ]
]

tokens-parse_comparator_range :
    (c : Str) → is_some (parse_comparator_tokens c) ≡ true → Found (parse_comparator_range c)
unfolding parse_comparator_tokens parse_comparator_range
tokens-parse_comparator_range c h = elim (List-cases (split_words c)) [
  | inl e ↦ absurd (cc (rw (e, parse_comparator_tokens) at h))
  | inr (token, rest, e) ↦
      let h' : is_some (comparator_tokens (token ∷ rest)) ≡ true =
        rw (e, parse_comparator_tokens) at h in
      rw (e, parse_comparator_range) (comparator_tokens-parse_tokens (token ∷ rest) h')
]

-- A token without an operator is refused.
no_tokens :
    (token : Str) (rest : List Str)
    → bare_op token ≡ none
    → match_op token ≡ none
    → comparator_tokens (token ∷ rest) ≡ none
unfolding comparator_tokens
no_tokens token [] e m = rw (e, m, comparator_tokens) refl
no_tokens token (next ∷ rest) e m = rw (e, m, comparator_tokens) refl

starts_with-first : (c : ℕ) (s : Str) → starts_with s (c ∷ []) ≡ true → (t : Str) × (s ≡ c ∷ t)
starts_with-first c [] h = cc
starts_with-first c (d ∷ t) h = (t, let e : d ≡ c = ground (arith, h) in rw e refl)

-- No range starts with `^` or `~`.
no_range :
    (c : ℕ) (s : Str)
    → is_space c ≡ false
    → ((w : Str) → (bare_op (c ∷ w) ≡ none) × (match_op (c ∷ w) ≡ none))
    → starts_with s (c ∷ []) ≡ true
    → parse_comparator_tokens s ≡ none
unfolding parse_comparator_tokens
no_range c s solid none_of h =
    let (t, e) = starts_with-first c s h in
    let (w, ws, p) = split_words-head c t solid in
    let (q, r) = none_of w in rw (e, p, parse_comparator_tokens) (no_tokens (c ∷ w) ws q r)

caret_token : (w : Str) → (bare_op (b'^' ∷ w) ≡ none) × (match_op (b'^' ∷ w) ≡ none)
unfolding str_dec
caret_token w = (refl, refl)

tilde_token : (w : Str) → (bare_op (b'~' ∷ w) ≡ none) × (match_op (b'~' ∷ w) ≡ none)
unfolding str_dec
tilde_token w = (refl, refl)

with_upper-Found :
    (upper : SemVer → SemVer) (o : Option SemVer) → Found o → Found (with_upper upper o)
with_upper-Found upper none (v, e) = cc
with_upper-Found upper (some base) (v, e) = (between base (upper base), refl)

exactly-Found : (o : Option SemVer) → Found o → Found (exactly o)
exactly-Found none (v, e) = cc
exactly-Found (some base) (v, e) = (record { op = eq; version = base } ∷ [], refl)

-- The test of `=` with which the parser takes more texts for ranges than the resolver does.
abbrev pub is_bare_equal : Str → Bool
is_bare_equal text = has_substring (codes "=") (strip text) && not (has_range_op (strip text))

-- The resolver reads every constraint that the parser accepts, unless its only operators are `=`.
pub from_string-is_valid_semver_constraint :
    (s : Str)
    → is_valid_semver_constraint s ≡ true
    → is_bare_equal s ≡ false
    → (cs : ConstraintSet) × (from_string s ≡ some cs)
unfolding is_valid_semver_constraint from_string
from_string-is_valid_semver_constraint s h equal =
    let c = strip s in
    elim (Bool-cases (is_nil c)) [
      | inl n ↦ absurd (cc (rw (n, is_valid_semver_constraint) at h))
      | inr n ↦ elim (Bool-cases (has_range_op c)) [
        | inl r ↦
            let ranged : is_some (parse_comparator_tokens c) ≡ true =
              rw (n, r, is_valid_semver_constraint) at h in
            let caret : starts_with c (codes "^") ≡ false =
              elim (Bool-cases (starts_with c (codes "^"))) [
                | inl e ↦ absurd (cc (rw (no_range b'^' c refl caret_token e) at ranged))
                | inr e ↦ e
              ] in
            let tilde : starts_with c (codes "~") ≡ false =
              elim (Bool-cases (starts_with c (codes "~"))) [
                | inl e ↦ absurd (cc (rw (no_range b'~' c refl tilde_token e) at ranged))
                | inr e ↦ e
              ] in
            rw (n, caret, tilde, r, from_string) (tokens-parse_comparator_range c ranged)
        | inr r ↦
            let no_equal : has_substring (codes "=") c ≡ false = ground (arith, equal, r) in
            elim (Bool-cases (starts_with c (codes "^"))) [
              | inl e ↦
                  rw (n, e, from_string)
                    (with_upper-Found caret_upper_bound (parse (tail c)) (
                      version-parse (tail c)
                        (rw (n, r, no_equal, e, is_valid_semver_constraint) at h)))
              | inr e ↦ elim (Bool-cases (starts_with c (codes "~"))) [
                | inl t ↦
                    rw (n, e, t, from_string)
                      (with_upper-Found tilde_upper_bound (parse (tail c)) (
                        version-parse (tail c)
                          (rw (n, r, no_equal, e, t, is_valid_semver_constraint) at h)))
                | inr t ↦
                    rw (n, e, t, r, from_string)
                      (exactly-Found (parse c) (
                        version-parse c
                          (rw (n, r, no_equal, e, t, is_valid_semver_constraint) at h)))
              ]
            ]
      ]
    ]
