-- ===== src/Parser/Rules.antt =====
-- engine/parser.py: the errors, and the checks of the fields of a dict.
use forge_ci_cd_platform.Base.{ℕ, List, [], ◌∷◌, ◌++◌, none, some, Bool, not, Str, if◌then◌else◌}
use forge_ci_cd_platform.Base.Result.{Result, ok, err, ◌>>=◌, ◌>>◌}
use forge_ci_cd_platform.Text.{is_nil, strip}
use forge_ci_cd_platform.Parser.Values.{
  Data, text, list, dict, null, end, items, entries, Fields, field, is_among,
}

-- Where a field is missing or unknown.
pub data Context : Type 0 where
  pipeline dependency artifact all_jobs : Context
  job resources step : (name : Str) → Context

-- The checks that a text, a list or a dict fails.
pub data ParseError : Type 0 where
  not_a_mapping not_a_sequence not_a_text : Context → ParseError
  missing_field : Context → ParseError
  unknown_field : Context → Data → ParseError
  bad_name bad_version bad_constraint : Context → ParseError
  bad_image bad_cpu cpu_not_positive bad_memory bad_run bad_need : (job_name : Str) → ParseError
  duplicate_step : (job_name step_name : Str) → ParseError
  unknown_need : (job_name need : Str) → ParseError
  self_need : (job_name : Str) → ParseError
  empty_path absolute_path parent_path not_produced : (path : Str) → ParseError

-- What `float(x)` gives, as far as the code looks: whether it is positive, and its number of
-- 1/100000 cores.
pub record Float : Type 0 where
  pub is_positive : Bool
  pub units : ℕ

-- `for key in required: if key not in data`: the key that is reported depends on a set's order, and
-- is left out of the error.
unfoldable pub check_missing : Context → List Str → Fields → Result ParseError (Unit {0})
check_missing ctx [] d = ok tt
check_missing ctx (k ∷ ks) d = elim (field k d) [
  | none ↦ err (missing_field ctx)
  | some v ↦ check_missing ctx ks d
]

-- `for key in data: if key not in allowed`
unfoldable pub check_unknown : Context → List Str → Fields → Result ParseError (Unit {0})
check_unknown ctx allowed [] = ok tt
check_unknown ctx allowed ((key, v) ∷ d) =
    if is_among allowed key then check_unknown ctx allowed d else err (unknown_field ctx key)

-- Both loops, where all keys are required but the optional ones.
unfoldable pub check_fields : Context → List Str → List Str → Fields → Result ParseError (Unit {0})
unfolding check_missing check_unknown
check_fields ctx required optional d =
    check_missing ctx required d >> check_unknown ctx (required ++ optional) d

-- `d[key]` of a field that is there.
abbrev pub get : Str → Fields → Data
get k d = elim (field k d) [ none ↦ null | some v ↦ v ]

-- `d.get(key, [])`
abbrev pub get_list : Str → Fields → Data
get_list k d = elim (field k d) [ none ↦ list end | some v ↦ v ]

-- A text that passes a test; `raised` otherwise.
abbrev pub checked : (Str → Bool) → ParseError → Data → Result ParseError Str
checked p raised (text s) = if p s then ok s else err raised
checked p raised _ = err raised

-- `x.strip()` is not empty.
abbrev pub is_named : Str → Bool
is_named s = not (is_nil (strip s))

abbrev pub as_text : ParseError → Data → Result ParseError Str
as_text raised (text s) = ok s
as_text raised _ = err raised

abbrev pub as_dict : ParseError → Data → Result ParseError Fields
as_dict raised (dict d) = ok (entries d)
as_dict raised _ = err raised

-- A list, where None stands for an empty one.
abbrev pub as_list : ParseError → Data → Result ParseError (List Data)
as_list raised (list xs) = ok (items xs)
as_list raised null = ok []
as_list raised _ = err raised

-- A loop that appends what its body gives for each value.
abbrev pub each : {A B : Type 0} → (A → Result ParseError B) → List A → Result ParseError (List B)
each f [] = ok []
each f (x ∷ xs) = f x >>= λ y. each f xs >>= λ ys. ok (y ∷ ys)

-- A list that is not empty.
abbrev pub as_full_list : ParseError → Data → Result ParseError (List Data)
as_full_list raised (list xs) = elim (items xs) [ [] ↦ err raised | x ∷ rest ↦ ok (x ∷ rest) ]
as_full_list raised _ = err raised

-- A dict that is not empty.
abbrev pub as_full_dict : ParseError → Data → Result ParseError Fields
as_full_dict raised (dict d) = elim (entries d) [ [] ↦ err raised | f ∷ fs ↦ ok (f ∷ fs) ]
as_full_dict raised _ = err raised
