-- ===== src/Constraint.antt =====
-- registry/resolver.py, `Comparator` and `ConstraintSet`; a ValueError is `none`.
pub mod Ranges
mod Expand
mod Tests
use Prim.Native.Nat.{Ordering}
use forge_ci_cd_platform.Base.{
  ℕ, ◌+◌, List, [], ◌∷◌, Option, none, some, Bool, true, false, not, ◌&&◌, ◌||◌, Str, ◌==◌, ltb,
  if◌then◌else◌, all, codes,
}
use forge_ci_cd_platform.Text.{is_nil, strip, starts_with, has_substring, split_words}
use forge_ci_cd_platform.Semver.{SemVer, parse, compare_versions}

-- The operators that a parsed comparator can have.
pub data Op : Type 0 where
  ge le gt lt eq ne : Op

pub record Comparator : Type 0 where
  pub op : Op
  pub version : SemVer

-- The test of an operator on the result -1, 0 or 1 of `compare_versions`.
abbrev pub test : Op → Ordering → Bool
test ge o = elim o [ Ordering.lt ↦ false | _ ↦ true ]
test le o = elim o [ Ordering.gt ↦ false | _ ↦ true ]
test gt o = elim o [ Ordering.gt ↦ true | _ ↦ false ]
test lt o = elim o [ Ordering.lt ↦ true | _ ↦ false ]
test eq o = elim o [ Ordering.eq ↦ true | _ ↦ false ]
test ne o = elim o [ Ordering.eq ↦ false | _ ↦ true ]

abbrev pub comparator_satisfies : Comparator → SemVer → Bool
comparator_satisfies c candidate = test c.op (compare_versions candidate c.version)

abbrev pub ConstraintSet : Type 0
ConstraintSet = List Comparator

abbrev pub satisfies : ConstraintSet → SemVer → Bool
satisfies cs candidate = all (λ c. comparator_satisfies c candidate) cs

-- `SemVer(major, minor, patch)`
abbrev pub release : ℕ → ℕ → ℕ → SemVer
release x y z = record { major = x; minor = y; patch = z; prerelease = []; build = [] }

pub caret_upper_bound : SemVer → SemVer
caret_upper_bound base =
    if ltb 0 base.major
    then release (base.major + 1) 0 0
    else if ltb 0 base.minor
    then release 0 (base.minor + 1) 0
    else release 0 0 (base.patch + 1)

pub tilde_upper_bound : SemVer → SemVer
tilde_upper_bound base =
    if ltb 0 base.major
    then release base.major (base.minor + 1) 0
    else if ltb 0 base.minor
    then release 0 (base.minor + 1) 0
    else release 0 0 (base.patch + 1)

abbrev pub between : SemVer → SemVer → ConstraintSet
between base upper = record { op = ge; version = base } ∷ record { op = lt; version = upper } ∷ []

-- `token in (">=", "<=", ">", "<", "!=")`
abbrev pub bare_op : Str → Option Op
bare_op token =
    if token == codes ">="
    then some ge
    else if token == codes "<="
    then some le
    else if token == codes ">"
    then some gt
    else if token == codes "<"
    then some lt
    else if token == codes "!="
    then some ne
    else none

abbrev pub tail : Str → Str
tail [] = []
tail (c ∷ s) = s

-- `_COMPARATOR_OP.match(token)`: the operator and the rest, which is not empty. A token is no bare
-- operator and holds no line break.
abbrev pub match_op : Str → Option (Op × Str)
match_op token =
    if starts_with token (codes ">=")
    then some (ge, tail (tail token))
    else if starts_with token (codes "<=")
    then some (le, tail (tail token))
    else if starts_with token (codes "!=")
    then some (ne, tail (tail token))
    else if starts_with token (codes ">")
    then some (gt, tail token)
    else if starts_with token (codes "<")
    then some (lt, tail token)
    else if starts_with token (codes "=") && not (is_nil (tail token))
    then some (eq, tail token)
    else none

abbrev pub comparator : Op → Str → Option Comparator
comparator op version = elim (parse version) [
  | none ↦ none
  | some v ↦ some (record { op = op; version = v })
]

abbrev pub prepend : Option Comparator → Option (List Comparator) → Option (List Comparator)
prepend none cs = none
prepend (some c) none = none
prepend (some c) (some cs) = some (c ∷ cs)

-- The loop of `_parse_comparator_range` over the tokens.
unfoldable pub parse_tokens : List Str → Option (List Comparator)
parse_tokens [] = some []
parse_tokens (token ∷ []) = elim (bare_op token) [
  | some op ↦ none
  | none ↦ elim (match_op token) [
    | none ↦ none
    | some (op, v) ↦ prepend (comparator op v) (some [])
  ]
]
parse_tokens (token ∷ next ∷ rest) =
    let after_next = parse_tokens rest in
    let after_token = parse_tokens (next ∷ rest) in
    elim (bare_op token) [
      | some op ↦ prepend (comparator op next) after_next
      | none ↦ elim (match_op token) [
        | none ↦ none
        | some (op, v) ↦ prepend (comparator op v) after_token
      ]
    ]

unfoldable pub parse_comparator_range : Str → Option (List Comparator)
unfolding split_words parse_tokens
parse_comparator_range constraint = parse_tokens (split_words constraint)

-- `any(op in constraint for op in (">=", "<=", ">", "<", "!="))`
abbrev pub has_range_op : Str → Bool
has_range_op s =
    has_substring (codes ">=") s
    || (has_substring (codes "<=") s
        || (has_substring (codes ">") s
            || (has_substring (codes "<") s || has_substring (codes "!=") s)))

abbrev pub with_upper : (SemVer → SemVer) → Option SemVer → Option ConstraintSet
with_upper upper none = none
with_upper upper (some base) = some (between base (upper base))

abbrev pub exactly : Option SemVer → Option ConstraintSet
exactly none = none
exactly (some v) = some (record { op = eq; version = v } ∷ [])

-- `ConstraintSet.from_string`
unfoldable pub from_string : Str → Option ConstraintSet
unfolding strip parse caret_upper_bound tilde_upper_bound parse_comparator_range
from_string text =
    let constraint = strip text in
    if is_nil constraint
    then none
    else if starts_with constraint (codes "^")
    then with_upper caret_upper_bound (parse (tail constraint))
    else if starts_with constraint (codes "~")
    then with_upper tilde_upper_bound (parse (tail constraint))
    else if has_range_op constraint
    then parse_comparator_range constraint
    else exactly (parse constraint)
