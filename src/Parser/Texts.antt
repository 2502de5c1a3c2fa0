-- ===== src/Parser/Texts.antt =====
-- engine/parser.py: the checks of texts. A regular expression is a Boolean function on texts, and
-- the classes `\d` and `\w` are those of ASCII.
use forge_ci_cd_platform.Base.{
  ℕ, List, [], ◌∷◌, Option, none, some, Bool, true, false, not, ◌&&◌, ◌||◌, Str, eqb, leb,
  if◌then◌else◌, all, codes, contains, is_some,
}
use forge_ci_cd_platform.Text.{
  is_nil, strip, starts_with, has_substring, split_words, split_on, is_digit,
}
use forge_ci_cd_platform.Semver.{is_valid_semver, at_end}
use forge_ci_cd_platform.Constraint.{Op, bare_op, match_op, tail, has_range_op}

-- `is_valid_semver_version`: the pattern is that of the registry's `is_valid_semver`
unfoldable pub is_valid_semver_version : Str → Bool
unfolding is_valid_semver
is_valid_semver_version version = is_valid_semver version

abbrev pub add_token : Op × Str → Option (List (Op × Str)) → Option (List (Op × Str))
add_token c none = none
add_token c (some cs) = some (c ∷ cs)

-- The loop of `_parse_comparator_tokens`, which returns the operators and the versions.
unfoldable pub comparator_tokens : List Str → Option (List (Op × Str))
unfolding is_valid_semver_version
comparator_tokens [] = some []
comparator_tokens (token ∷ []) = elim (bare_op token) [
  | some op ↦ none
  | none ↦ elim (match_op token) [
    | none ↦ none
    | some (op, v) ↦ if is_valid_semver_version v then some ((op, v) ∷ []) else none
  ]
]
comparator_tokens (token ∷ next ∷ rest) =
    let after_next = comparator_tokens rest in
    let after_token = comparator_tokens (next ∷ rest) in
    elim (bare_op token) [
      | some op ↦ if is_valid_semver_version next then add_token (op, next) after_next else none
      | none ↦ elim (match_op token) [
        | none ↦ none
        | some (op, v) ↦ if is_valid_semver_version v then add_token (op, v) after_token else none
      ]
    ]

-- `_parse_comparator_tokens`
unfoldable pub parse_comparator_tokens : Str → Option (List (Op × Str))
unfolding split_words comparator_tokens
parse_comparator_tokens constraint = elim (split_words constraint) [
  | [] ↦ none
  | token ∷ tokens ↦ comparator_tokens (token ∷ tokens)
]

-- `CONSTRAINT_PATTERN.match(s)`: a version, with an optional `^` or `~` before it
abbrev pub constraint_pattern : Str → Bool
constraint_pattern s =
    if starts_with s (codes "^") || starts_with s (codes "~")
    then is_valid_semver_version (tail s)
    else is_valid_semver_version s

-- `is_valid_semver_constraint`
unfoldable pub is_valid_semver_constraint : Str → Bool
unfolding strip parse_comparator_tokens
is_valid_semver_constraint text =
    let constraint = strip text in
    if is_nil constraint
    then false
    else if has_range_op constraint || has_substring (codes "=") constraint
    then is_some (parse_comparator_tokens constraint)
    else if starts_with constraint (codes "^") || starts_with constraint (codes "~")
    then constraint_pattern constraint
    else is_valid_semver_version constraint

-- `[a-zA-Z0-9]`
abbrev pub is_alnum : ℕ → Bool
is_alnum c = is_digit c || ((leb b'a' c && leb c b'z') || (leb b'A' c && leb c b'Z'))

-- `[a-zA-Z0-9._\-]`
abbrev pub is_name_char : ℕ → Bool
is_name_char c = is_alnum c || (eqb c b'.' || (eqb c b'_' || eqb c b'-'))

-- `[a-zA-Z0-9._\-/:@]`
abbrev pub is_image_char : ℕ → Bool
is_image_char c = is_name_char c || (eqb c b'/' || (eqb c b':' || eqb c b'@'))

abbrev pub starts_alnum : (ℕ → Bool) → Str → Bool
starts_alnum p [] = false
starts_alnum p (c ∷ s) = is_alnum c && all p s

-- `PACKAGE_NAME_PATTERN.match(s)`
unfoldable pub is_package_name : Str → Bool
is_package_name s = at_end (starts_alnum is_name_char) s

-- `IMAGE_REF_PATTERN.match(s)`
unfoldable pub is_image_ref : Str → Bool
is_image_ref s = at_end (starts_alnum is_image_char) s

-- What `\d*` leaves of a text.
abbrev pub after_digits : Str → Str
after_digits [] = []
after_digits (c ∷ s) = let rest = after_digits s in if is_digit c then rest else c ∷ s

abbrev pub starts_digit : Str → Bool
starts_digit [] = false
starts_digit (c ∷ s) = is_digit c

-- `(Ki|Mi|Gi|K|M|G)?`, to the end
abbrev pub is_unit : Str → Bool
is_unit s =
    contains s ([] ∷ codes "Ki" ∷ codes "Mi" ∷ codes "Gi" ∷ codes "K" ∷ codes "M" ∷ codes "G" ∷ [])

-- `(\.\d+)?(Ki|Mi|Gi|K|M|G)?`, to the end
abbrev pub is_fraction : Str → Bool
is_fraction [] = true
is_fraction (c ∷ s) =
    if eqb c b'.' then starts_digit s && is_unit (after_digits s) else is_unit (c ∷ s)

-- `MEMORY_PATTERN.match(s)`
unfoldable pub is_memory : Str → Bool
is_memory s = at_end (λ t. starts_digit t && is_fraction (after_digits t)) s

-- `re.match(r"^[A-Za-z]:", path)`
abbrev pub has_drive : Str → Bool
has_drive [] = false
has_drive (c ∷ []) = false
has_drive (c ∷ d ∷ s) = is_alnum c && (not (is_digit c) && eqb d b':')

-- `s.replace("\\", "/")`
abbrev pub with_slashes : Str → Str
with_slashes [] = []
with_slashes (c ∷ s) = (if eqb c b'\\' then b'/' else c) ∷ with_slashes s

-- `path.replace("\\", "/").split("/")`
unfoldable pub path_parts : Str → List Str
unfolding split_on
path_parts path = split_on b'/' (with_slashes path)
