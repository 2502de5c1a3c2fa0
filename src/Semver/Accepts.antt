-- ===== src/Semver/Accepts.antt =====
-- registry/resolver.py: `SemVer.parse` reads every text that the pattern of versions accepts.
use forge_ci_cd_platform.Base.{
  ◌≡◌, refl, inl, inr, List, [], ◌∷◌, ◌++◌, Option, none, some, Bool, true, false, not, ◌||◌, arith,
  ℕ, Str, eqb, all, Bool-cases, Option-cases,
}
use forge_ci_cd_platform.Text.{
  is_space, is_nil, is_digit, strip, starts_with, split_on, split_once, int,
}
use forge_ci_cd_platform.Text.Strip.{is_solid, strip-is_solid, strip-newline}
use forge_ci_cd_platform.Text.Split.{
  all-imp, all-split_on, all-split_once, all_option, split_on-whole, int-digits,
}
use forge_ci_cd_platform.Semver.{
  SemVer, parse, parse_core, parse_prerelease, parse_build, assemble, prerelease_pattern,
  is_version, is_valid_semver, is_core, is_numeric, is_identifier, is_ident_char,
  is_build_identifier, all_parts, without_newline,
}

-- `[0-9a-zA-Z.+-]`
abbrev pub is_version_char : ℕ → Bool
is_version_char c = is_ident_char c || (eqb c b'.' || eqb c b'+')

version_char-solid : (c : ℕ) → is_version_char c ≡ true → not (is_space c) ≡ true
version_char-solid c h = ground (arith, h)

is_numeric-all : (s : Str) → is_numeric s ≡ true → all is_digit s ≡ true
is_numeric-all [] h = refl
is_numeric-all (c ∷ s) h = ground (arith, h)

digit-ident : (c : ℕ) → is_digit c ≡ true → is_ident_char c ≡ true
digit-ident c h = ground (arith, h)

is_identifier-all : (s : Str) → is_identifier s ≡ true → all is_ident_char s ≡ true
is_identifier-all s h = elim (Bool-cases (is_numeric s)) [
  | inl e ↦ all-imp is_digit is_ident_char s digit-ident (is_numeric-all s e)
  | inr e ↦ ground (arith, h, e)
]

-- The test of each part, weakened.
all_list-imp :
    (p q : Str → Bool) (ss : List Str)
    → ((s : Str) → p s ≡ true → q s ≡ true)
    → all p ss ≡ true
    → all q ss ≡ true
all_list-imp p q [] f h = refl
all_list-imp p q (s ∷ ss) f h = ground (arith, f s, all_list-imp p q ss f, h)

abbrev all_class : Str → Bool
all_class s = all is_version_char s

digits-class : (s : Str) → is_numeric s ≡ true → all_class s ≡ true
digits-class s h =
    all-imp is_digit is_version_char s (λ c d. ground (arith, digit-ident c d)) (is_numeric-all s h)

identifier-class : (s : Str) → is_identifier s ≡ true → all_class s ≡ true
identifier-class s h =
    all-imp is_ident_char is_version_char s (λ c d. ground (arith, d)) (is_identifier-all s h)

build-class : (s : Str) → is_build_identifier s ≡ true → all_class s ≡ true
build-class s h =
    all-imp is_ident_char is_version_char s (λ c d. ground (arith, d)) (ground (arith, h))

core-class : (ss : List Str) → is_core ss ≡ true → all all_class ss ≡ true
core-class [] h = cc
core-class (x ∷ []) h = cc
core-class (x ∷ y ∷ []) h = cc
core-class (x ∷ y ∷ z ∷ []) h = ground (arith, digits-class x, digits-class y, digits-class z, h)
core-class (x ∷ y ∷ z ∷ t ∷ ts) h = cc

parts-class :
    (p : Str → Bool) (o : Option Str)
    → ((s : Str) → p s ≡ true → all_class s ≡ true)
    → all_parts p o ≡ true
    → all_option is_version_char o ≡ true
parts-class p none f h = refl
parts-class p (some s) f h =
    all-split_on is_version_char b'.' s (all_list-imp p all_class (split_on b'.' s) f h) refl

-- The parts of a version that the pattern accepts.
record Parts (s : Str) : Type 0 where
  core : is_core (split_on b'.' (split_once b'-' (split_once b'+' s).0).0) ≡ true
  pre : all_parts is_identifier (split_once b'-' (split_once b'+' s).0).1 ≡ true
  build : all_parts is_build_identifier (split_once b'+' s).1 ≡ true

is_version-Parts : (s : Str) → is_version s ≡ true → Parts s
is_version-Parts s h = record {
  core = ground (arith, h);
  pre = ground (arith, h);
  build = ground (arith, h);
}

pub is_version-class : (s : Str) → is_version s ≡ true → all is_version_char s ≡ true
is_version-class s h =
    let parts = is_version-Parts s h in
    let front = (split_once b'+' s).0 in
    let core = (split_once b'-' front).0 in
    let core_class =
      all-split_on is_version_char b'.' core (core-class (split_on b'.' core) parts.core) refl in
    let front_class =
      all-split_once is_version_char b'-' front core_class
        (parts-class is_identifier (split_once b'-' front).1 identifier-class parts.pre) refl in
    all-split_once is_version_char b'+' s front_class
      (parts-class is_build_identifier (split_once b'+' s).1 build-class parts.build) refl

numeric-int : (s : Str) → is_numeric s ≡ true → (n : ℕ) × (int s ≡ some n)
numeric-int [] h = cc
numeric-int (c ∷ s) h = int-digits c s (ground (arith, h))

parse_core-three :
    (x y z : Str) (a b c : ℕ)
    → int x ≡ some a
    → int y ≡ some b
    → int z ≡ some c
    → parse_core (x ∷ y ∷ z ∷ []) ≡ some (a, b, c)
parse_core-three x y z a b c p q r = rw (p, q, r, parse_core) refl

core-parse_core : (ss : List Str) → is_core ss ≡ true → (v : ℕ × ℕ × ℕ) × (parse_core ss ≡ some v)
core-parse_core [] h = cc
core-parse_core (x ∷ []) h = cc
core-parse_core (x ∷ y ∷ []) h = cc
core-parse_core (x ∷ y ∷ z ∷ []) h =
    let (a, p) = numeric-int x (ground (arith, h)) in
    let (b, q) = numeric-int y (ground (arith, h)) in
    let (c, r) = numeric-int z (ground (arith, h)) in
    ((a, b, c), parse_core-three x y z a b c p q r)
core-parse_core (x ∷ y ∷ z ∷ t ∷ ts) h = cc

-- An identifier is one for the pattern of prereleases.
prerelease_pattern-identifier : (s : Str) → is_identifier s ≡ true → prerelease_pattern s ≡ true
unfolding prerelease_pattern
prerelease_pattern-identifier s h =
    let whole : split_on b'.' s ≡ s ∷ [] =
      split_on-whole is_ident_char b'.' s (is_identifier-all s h) refl in
    let here : all is_identifier (split_on b'.' s) ≡ true = rw whole (ground (arith, h)) in
    ground (arith, here)

pre-parse_prerelease :
    (o : Option Str)
    → all_parts is_identifier o ≡ true
    → (ids : List Str) × (parse_prerelease o ≡ some ids)
pre-parse_prerelease none h = ([], refl)
pre-parse_prerelease (some s) h =
    let fits =
      all_list-imp is_identifier prerelease_pattern (split_on b'.' s) prerelease_pattern-identifier
        h in
    elim (Bool-cases (is_nil s)) [
      | inl e ↦ ([], ground (arith, e))
      | inr e ↦ (split_on b'.' s, ground (arith, e, fits))
    ]

-- No character of a version starts a caret or tilde constraint.
no_operator :
    (c : ℕ) (s : Str)
    → all is_version_char s ≡ true
    → is_version_char c ≡ false
    → starts_with s (c ∷ []) ≡ false
no_operator c [] h k = refl
no_operator c (d ∷ s) h k = elim (Bool-cases (eqb d c)) [
  | inl e ↦ let e' : d ≡ c = ground (arith, e) in absurd (cc (rw e' at (head_class d s h), k))
  | inr e ↦ ground (arith, e)
]
  where
    head_class : (d : ℕ) (s : Str) → all is_version_char (d ∷ s) ≡ true → is_version_char d ≡ true
    head_class d s h = ground (arith, h)

assemble-some :
    (core : ℕ × ℕ × ℕ) (ids build : List Str)
    → (v : SemVer) × (assemble (some core) (some ids) build ≡ some v)
assemble-some (x, y, z) ids build =
    (record { major = x; minor = y; patch = z; prerelease = ids; build = build }, refl)

-- A text that is a version once it is stripped is parsed.
parse_of_strip : (s r : Str) → strip s ≡ r → is_version r ≡ true → (v : SemVer) × (parse s ≡ some v)
unfolding parse
parse_of_strip s r same h =
    let parts = is_version-Parts r h in
    let class = is_version-class r h in
    let front = (split_once b'+' r).0 in
    let (core, p) = core-parse_core (split_on b'.' (split_once b'-' front).0) parts.core in
    let (ids, q) = pre-parse_prerelease (split_once b'-' front).1 parts.pre in
    let (v, e) = assemble-some core ids (parse_build (split_once b'+' r).1) in
    (v, rw (same, no_operator b'^' r class refl, no_operator b'~' r class refl, p, q) e)

without_newline-eq : (s r : Str) → without_newline s ≡ some r → s ≡ r ++ 10 ∷ []
without_newline-eq [] r h = cc
without_newline-eq (c ∷ []) r h = elim (Bool-cases (eqb c 10)) [
  | inl e ↦
      let c10 : c ≡ 10 = ground (arith, e) in
      let nil : r ≡ [] = ground (arith, e, h) in cc (c10, nil)
  | inr e ↦ absurd (ground (arith, e, h))
]
without_newline-eq (c ∷ d ∷ t) r h = elim (Option-cases (without_newline (d ∷ t))) [
  | inl e ↦ absurd (ground (arith, e, h))
  | inr (r', e) ↦
      let same : r ≡ c ∷ r' = ground (arith, e, h) in
      let rest = without_newline-eq (d ∷ t) r' e in cc (same, rest)
]

version_full : (s : Str) → is_version s ≡ true → (c : ℕ) × (t : Str) × (s ≡ c ∷ t)
unfolding split_on split_once
version_full [] h = absurd (cc (h))
version_full (c ∷ t) h = (c, t, refl)

-- A text that the pattern accepts is a version once it is stripped: at most a line break goes.
pub is_valid_semver-strip : (s : Str) → is_valid_semver s ≡ true → is_version (strip s) ≡ true
unfolding is_valid_semver
is_valid_semver-strip s h = elim (Bool-cases (is_version s)) [
  | inl e ↦ rw (strip-is_solid s (solid s e)) e
  | inr e ↦ elim (Option-cases (without_newline s)) [
    | inl none_left ↦ absurd (ground (arith, h, e, none_left))
    | inr (r, left) ↦
        let version : is_version r ≡ true = ground (arith, h, e, left) in
        let (c, t, full) = version_full r version in
        let solid_r : is_solid (c ∷ t) ≡ true = rw full at (solid r version) in
        let stripped : strip s ≡ r =
          rw (without_newline-eq s r left, full) (strip-newline c t solid_r) in
        rw stripped version
  ]
]
  where
    solid : (s : Str) → is_version s ≡ true → is_solid s ≡ true
    solid s v =
        all-imp is_version_char (λ c. not (is_space c)) s version_char-solid (is_version-class s v)

-- The resolver parses every text that the registry, and the pipeline's parser, accept as a version.
pub parse-is_valid_semver : (s : Str) → is_valid_semver s ≡ true → (v : SemVer) × (parse s ≡ some v)
parse-is_valid_semver s h = parse_of_strip s (strip s) refl (is_valid_semver-strip s h)
