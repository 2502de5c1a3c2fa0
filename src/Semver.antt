-- ===== src/Semver.antt =====
-- registry/resolver.py, the semver core: `SemVer`, `compare_versions` and `version_key`.
pub mod Order
pub mod Key
pub mod Accepts
mod Tests
use Prim.Native.Nat.{compare, Ordering}
use forge_ci_cd_platform.Base.{
  ℕ, List, [], ◌∷◌, Option, none, some, Bool, true, false, not, ◌&&◌, ◌||◌, Str, eqb, ltb, leb,
  if◌then◌else◌, all, any, codes,
}
use forge_ci_cd_platform.Text.{
  is_nil, strip, starts_with, split_once, split_on, is_digit, all_digits, int,
}

pub record SemVer : Type 0 where
  pub major : ℕ
  pub minor : ℕ
  pub patch : ℕ
  pub prerelease : List Str
  pub build : List Str

-- `[0-9a-zA-Z-]`
abbrev pub is_ident_char : ℕ → Bool
is_ident_char c =
    is_digit c || ((leb b'a' c && leb c b'z') || ((leb b'A' c && leb c b'Z') || eqb c b'-'))

-- `0|[1-9]\d*`
abbrev pub is_numeric : Str → Bool
is_numeric [] = false
is_numeric (c ∷ s) = all is_digit (c ∷ s) && (not (eqb c b'0') || is_nil s)

-- `0|[1-9]\d*|\d*[a-zA-Z-][0-9a-zA-Z-]*`: the last form is a text of the class with a non-digit.
abbrev pub is_identifier : Str → Bool
is_identifier s = is_numeric s || (all is_ident_char s && any (λ c. not (is_digit c)) s)

-- `$` also matches before a line break at the end.
abbrev pub without_newline : Str → Option Str
without_newline [] = none
without_newline (c ∷ s) = elim s [
  | [] ↦ if eqb c 10 then some [] else none
  | d ∷ t ↦ elim (without_newline s) [ none ↦ none | some r ↦ some (c ∷ r) ]
]

abbrev pub at_end : (Str → Bool) → Str → Bool
at_end p s = p s || elim (without_newline s) [ none ↦ false | some r ↦ p r ]

-- `PRERELEASE_PATTERN.match(s)`
unfoldable pub prerelease_pattern : Str → Bool
unfolding split_on
prerelease_pattern s = at_end (λ t. all is_identifier (split_on b'.' t)) s

-- `[0-9a-zA-Z-]+`
abbrev pub is_build_identifier : Str → Bool
is_build_identifier s = not (is_nil s) && all is_ident_char s

abbrev pub all_parts : (Str → Bool) → Option Str → Bool
all_parts p none = true
all_parts p (some s) = all p (split_on b'.' s)

abbrev pub is_core : List Str → Bool
is_core [] = false
is_core (x ∷ []) = false
is_core (x ∷ y ∷ []) = false
is_core (x ∷ y ∷ z ∷ []) = is_numeric x && (is_numeric y && is_numeric z)
is_core (x ∷ y ∷ z ∷ t ∷ ts) = false

-- The pattern of versions without its `$`: the first `+` starts the build part, and the first `-`
-- before it the prerelease part.
abbrev pub is_version : Str → Bool
is_version s =
    let (front, build_part) = split_once b'+' s in
    let (core, prerelease_part) = split_once b'-' front in
    is_core (split_on b'.' core)
    && (all_parts is_identifier prerelease_part && all_parts is_build_identifier build_part)

-- `is_valid_semver`, `SEMVER_PATTERN.match(version)`
unfoldable pub is_valid_semver : Str → Bool
unfolding split_once split_on
is_valid_semver version = at_end is_version version

-- A missing or empty part gives no identifiers; `none` is a ValueError.
abbrev pub parse_prerelease : Option Str → Option (List Str)
parse_prerelease none = some []
parse_prerelease (some s) =
    if is_nil s
    then some []
    else if all prerelease_pattern (split_on b'.' s)
    then some (split_on b'.' s)
    else none

abbrev pub parse_build : Option Str → List Str
parse_build none = []
parse_build (some s) = if is_nil s then [] else split_on b'.' s

abbrev pub parse_core : List Str → Option (ℕ × ℕ × ℕ)
parse_core [] = none
parse_core (a ∷ []) = none
parse_core (a ∷ b ∷ []) = none
parse_core (a ∷ b ∷ c ∷ []) = elim (int a) [
  | none ↦ none
  | some x ↦ elim (int b) [
    | none ↦ none
    | some y ↦ elim (int c) [ none ↦ none | some z ↦ some (x, y, z) ]
  ]
]
parse_core (a ∷ b ∷ c ∷ d ∷ ds) = none

abbrev pub assemble : Option (ℕ × ℕ × ℕ) → Option (List Str) → List Str → Option SemVer
assemble none pre build = none
assemble (some core) none build = none
assemble (some (x, y, z)) (some pre) build =
    some (record { major = x; minor = y; patch = z; prerelease = pre; build = build })

-- `SemVer.parse`; `none` is a ValueError
unfoldable pub parse : Str → Option SemVer
unfolding strip split_once split_on int prerelease_pattern
parse version =
    let v = strip version in
    let (v1, build_part) = split_once b'+' v in
    let (v2, prerelease_part) = split_once b'-' v1 in
    if starts_with v (codes "^") || starts_with v (codes "~")
    then none
    else assemble (parse_core (split_on b'.' v2)) (parse_prerelease prerelease_part)
        (parse_build build_part)

-- `a - b` of Booleans: 1, 0 or -1, as an ordering
abbrev pub flip : Ordering → Ordering
flip Ordering.lt = Ordering.gt
flip Ordering.eq = Ordering.eq
flip Ordering.gt = Ordering.lt

-- `(a > b) - (a < b)` on texts
pub str_compare : Str → Str → Ordering
str_compare [] [] = Ordering.eq
str_compare [] (b ∷ t) = Ordering.lt
str_compare (a ∷ s) [] = Ordering.gt
str_compare (a ∷ s) (b ∷ t) = let rest = str_compare s t in if eqb a b then rest else compare a b

-- The value of a numeric identifier.
abbrev pub int_of : Str → ℕ
int_of s = elim (int s) [ none ↦ 0 | some n ↦ n ]

-- `_compare_identifiers`, with -1, 0, 1 as orderings
pub compare_identifiers : Str → Str → Ordering
compare_identifiers a b =
    if all_digits a
    then (if all_digits b then compare (int_of a) (int_of b) else Ordering.lt)
    else (if all_digits b then Ordering.gt else str_compare a b)

-- Entry by entry; a shorter list with equal entries comes first.
pub lex_compare {ℓ} : {A : Type ℓ} → (A → A → Ordering) → List A → List A → Ordering
lex_compare cmp [] [] = Ordering.eq
lex_compare cmp [] (b ∷ bs) = Ordering.lt
lex_compare cmp (a ∷ as') [] = Ordering.gt
lex_compare cmp (a ∷ as') (b ∷ bs) =
    let rest = lex_compare cmp as' bs in
    elim (cmp a b) [ Ordering.eq ↦ rest | Ordering.lt ↦ Ordering.lt | Ordering.gt ↦ Ordering.gt ]

-- The loop over the identifiers.
abbrev pub compare_prerelease : List Str → List Str → Ordering
compare_prerelease = lex_compare compare_identifiers

-- A release comes after its prereleases.
abbrev pub compare_tails : List Str → List Str → Ordering
compare_tails [] [] = Ordering.eq
compare_tails [] (b ∷ bs) = Ordering.gt
compare_tails (a ∷ as') [] = Ordering.lt
compare_tails (a ∷ as') (b ∷ bs) = compare_prerelease (a ∷ as') (b ∷ bs)

-- One round of the loop over the three numbers: unequal numbers decide.
abbrev pub compare_then : ℕ → ℕ → Ordering → Ordering
compare_then a b rest = if eqb a b then rest else (if ltb b a then Ordering.gt else Ordering.lt)

unfoldable pub compare_versions : SemVer → SemVer → Ordering
unfolding lex_compare compare_identifiers str_compare
compare_versions a b = compare_then a.major b.major (
    compare_then a.minor b.minor
      (compare_then a.patch b.patch (compare_tails a.prerelease b.prerelease)))

-- `version_key`: the numbers, the identifiers and the version's own text
pub record VersionKey : Type 0 where
  pub parsed : SemVer
  pub text : Str

unfoldable pub version_key : Str → Option VersionKey
unfolding parse
version_key version = elim (parse version) [
  | none ↦ none
  | some v ↦ some (record { parsed = v; text = version })
]

-- Python's order on tuples of texts
abbrev pub compare_tuples : List Str → List Str → Ordering
compare_tuples = lex_compare str_compare

-- The first comparison, and where it finds no difference the second.
abbrev pub and_then : Ordering → Ordering → Ordering
and_then Ordering.eq o = o
and_then Ordering.lt o = Ordering.lt
and_then Ordering.gt o = Ordering.gt

-- Python's order on the keys
unfoldable pub compare_keys : VersionKey → VersionKey → Ordering
unfolding lex_compare str_compare
compare_keys a b = compare_then a.parsed.major b.parsed.major (
    compare_then a.parsed.minor b.parsed.minor (
      compare_then a.parsed.patch b.parsed.patch (
        and_then (compare_tuples a.parsed.prerelease b.parsed.prerelease)
          (str_compare a.text b.text))))
