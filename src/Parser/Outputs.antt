-- ===== src/Parser/Outputs.antt =====
-- engine/parser.py, `_collect_step_output_hints`: the two patterns of output files, which `finditer`
-- applies from left to right. A class leaves only one way to match after each prefix, but for the
-- file name, where the longest one wins.
use forge_ci_cd_platform.Base.{
  ℕ, zero, suc, ◌+◌, ◌-◌, List, [], ◌∷◌, ◌++◌, Option, none, some, Bool, not, ◌&&◌, ◌||◌, Str, eqb,
  if◌then◌else◌, codes, length,
}
use forge_ci_cd_platform.Text.{is_nil, is_space, starts_with, drop}
use forge_ci_cd_platform.Pipeline.{PipelineStep}
use forge_ci_cd_platform.Parser.Texts.{is_name_char}

-- `s.lstrip("./")`
unfoldable pub lstrip_dots : Str → Str
lstrip_dots [] = []
lstrip_dots (c ∷ s) = let rest = lstrip_dots s in if eqb c b'.' || eqb c b'/' then rest else c ∷ s

-- What the class leaves of a text.
abbrev after : (ℕ → Bool) → Str → Str
after p [] = []
after p (c ∷ s) = let rest = after p s in if p c then rest else c ∷ s

-- What the class takes of a text.
abbrev span : (ℕ → Bool) → Str → Str
span p [] = []
span p (c ∷ s) = let rest = span p s in if p c then c ∷ rest else []

-- `\s+` or `\S+`: at least one character of the class
abbrev after_some : (ℕ → Bool) → Str → Option Str
after_some p [] = none
after_some p (c ∷ s) = if p c then some (after p s) else none

abbrev then_after : (ℕ → Bool) → Option Str → Option Str
then_after p none = none
then_after p (some s) = after_some p s

-- `(?:czf|xzf|cf)`
abbrev after_flags : Option Str → Option Str
after_flags none = none
after_flags (some s) =
    if starts_with s (codes "czf") || starts_with s (codes "xzf")
    then some (drop 3 s)
    else if starts_with s (codes "cf")
    then some (drop 2 s)
    else none

-- `(?:>|tar\s+(?:czf|xzf|cf)\s+|mv\s+\S+\s+|cp\s+\S+\s+)`
abbrev after_command : Str → Option Str
after_command s =
    if starts_with s (codes ">")
    then some (drop 1 s)
    else if starts_with s (codes "tar")
    then then_after is_space (after_flags (after_some is_space (drop 3 s)))
    else if starts_with s (codes "mv") || starts_with s (codes "cp")
    then then_after is_space (then_after (λ c. not (is_space c)) (after_some is_space (drop 2 s)))
    else none

-- `[\w./\-]`
abbrev is_path_char : ℕ → Bool
is_path_char c = is_name_char c || eqb c b'/'

abbrev suffixes : List Str
suffixes =
    codes ".tar.gz" ∷ codes ".tgz" ∷ codes ".zip" ∷ codes ".jar" ∷ codes ".whl" ∷ codes ".out" ∷ []

-- The suffix that a text starts with.
abbrev suffix_of : List Str → Str → Option Str
suffix_of [] s = none
suffix_of (e ∷ es) s = if starts_with s e then some e else suffix_of es s

-- The longest file name of a run of the class, with the characters already read in front.
file_name : Str → Str → Option Str
file_name read [] = none
file_name read (c ∷ s) =
    let longer = file_name (read ++ c ∷ []) s in
    elim longer [
      | some name ↦ some name
      | none ↦
          if is_nil read
          then none
          else elim (suffix_of suffixes (c ∷ s)) [ none ↦ none | some e ↦ some (read ++ e) ]
    ]

-- A match of the first pattern at the start of a text: its group, and its length.
abbrev output_at : Str → Option (Str × ℕ)
output_at s = elim (after_command s) [
  | none ↦ none
  | some rest ↦ elim (file_name [] (span is_path_char rest)) [
    | none ↦ none
    | some name ↦ some (name, length s - length (drop (length name) rest))
  ]
]

abbrev is_quote : ℕ → Bool
is_quote c = eqb c b'\'' || eqb c b'"'

-- The end of the second pattern, after its class.
abbrev closed : Str → Str → Option (Str × ℕ)
closed name [] = none
closed name (c ∷ s) =
    if is_quote c && not (is_nil name) then some (codes "./" ++ name, length name + 4) else none

-- A match of the second pattern at the start of a text.
abbrev quoted_at : Str → Option (Str × ℕ)
quoted_at [] = none
quoted_at (c ∷ s) =
    if is_quote c && starts_with s (codes "./")
    then closed (span is_path_char (drop 2 s)) (after is_path_char (drop 2 s))
    else none

-- The groups of `re.finditer`, for a text of which `skip` characters belong to the last match.
find_all : (Str → Option (Str × ℕ)) → ℕ → Str → List Str
find_all at skip [] = []
find_all at (suc skip) (c ∷ s) = find_all at skip s
find_all at zero (c ∷ s) =
    let next = find_all at 0 s in
    elim (at (c ∷ s)) [ none ↦ next | some (group, n) ↦ group ∷ find_all at (n - 1) s ]

abbrev strip_all : List Str → List Str
strip_all [] = []
strip_all (h ∷ hs) = lstrip_dots h ∷ strip_all hs

-- `_collect_step_output_hints`
unfoldable pub step_output_hints : List PipelineStep → List Str
unfolding file_name find_all lstrip_dots
step_output_hints [] = []
step_output_hints (step ∷ steps) =
    strip_all (find_all output_at 0 step.run)
    ++ (strip_all (find_all quoted_at 0 step.run) ++ step_output_hints steps)
