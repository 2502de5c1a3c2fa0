-- ===== src/Constraint/Expand.antt =====
-- registry/resolver.py: `SemVer.__str__`, and `expand_constraint`, which gives the bounds of a
-- constraint as texts for messages.
use forge_ci_cd_platform.Base.{List, [], ◌∷◌, ◌++◌, Option, none, some, Str, codes, if◌then◌else◌}
use forge_ci_cd_platform.Text.{is_nil, decimal}
use forge_ci_cd_platform.Semver.{SemVer}
use forge_ci_cd_platform.Constraint.{Comparator, from_string, ge, lt}

-- `".".join(parts)`
abbrev pub join_dots : List Str → Str
join_dots [] = []
join_dots (p ∷ ps) = if is_nil ps then p else p ++ codes "." ++ join_dots ps

-- A part of a version with its sign, if there is one.
abbrev pub signed : Str → List Str → Str
signed sign parts = if is_nil parts then [] else sign ++ join_dots parts

-- `SemVer.__str__`
pub to_text : SemVer → Str
unfolding decimal
to_text v =
    decimal v.major
    ++ codes "."
    ++ decimal v.minor
    ++ codes "."
    ++ decimal v.patch
    ++ signed (codes "-") v.prerelease
    ++ signed (codes "+") v.build

-- The loop over the comparators, with the bounds so far.
pub expand : List Comparator → Str × Str → Str × Str
unfolding to_text
expand [] bounds = bounds
expand (c ∷ cs) (lower, upper) = elim c.op [
  | ge ↦ expand cs (to_text c.version, upper)
  | lt ↦ expand cs (lower, to_text c.version)
  | _ ↦ expand cs (lower, upper)
]

-- `expand_constraint`; `none` is a ValueError
unfoldable pub expand_constraint : Str → Option (Str × Str)
unfolding from_string expand
expand_constraint constraint = elim (from_string constraint) [
  | none ↦ none
  | some cs ↦ some (expand cs ([], []))
]
