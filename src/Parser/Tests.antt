-- ===== src/Parser/Tests.antt =====
-- engine/parser.py on small documents, and the theorems at concrete inputs.
use forge_ci_cd_platform.Base.{
  ℕ, ◌≡◌, refl, ◌↔◌, List, [], ◌∷◌, Option, none, some, true, false, Str, ◌==◌, if◌then◌else◌,
  str_dec, codes,
}
use forge_ci_cd_platform.Base.Result.{ok, err}
use forge_ci_cd_platform.Text.{strip}
use forge_ci_cd_platform.Pipeline.{Pipeline, to_dict}
use forge_ci_cd_platform.Scheduler.{DagScheduler, init}
use forge_ci_cd_platform.Scheduler.Graph.{job_needs}
use forge_ci_cd_platform.Scheduler.Order.{IsRanked}
use forge_ci_cd_platform.Constraint.{ConstraintSet, from_string}
use forge_ci_cd_platform.Parser.{
  is_produced, Items, Data, text, list, dict, scalar, end, item, end_dict, entry, Float,
  unknown_need, self_need, missing_field, pipeline, validate_root_dict, parse_and_validate,
  validate_relative_path, is_valid_semver_constraint,
}
use forge_ci_cd_platform.Parser.Constraints.{is_bare_equal, from_string-is_valid_semver_constraint}
use forge_ci_cd_platform.Parser.Schema.{
  IsValid, validate_root_dict-IsValid, parse_and_validate-init,
}

-- `float`, on the one number of the documents below.
abbrev pub float : Data → Option Float
float (scalar s) =
    if s == codes "1" then some (record { is_positive = true; units = 100000 }) else none
float _ = none

abbrev word : Str → Data
word s = text s

abbrev step_of : Str → Str → Data
step_of name run =
    dict (entry (text (codes "name")) (text name) (entry (text (codes "run")) (text run) end_dict))

abbrev limits : Data
limits = dict (
    entry (text (codes "cpu")) (scalar (codes "1"))
      (entry (text (codes "memory")) (text (codes "512Mi")) end_dict))

abbrev job_of : List Str → Data
job_of needs = dict (
    entry (text (codes "runtime")) (text (codes "alpine:3.18")) (
      entry (text (codes "resources")) limits (
        entry (text (codes "steps"))
          (list (item (step_of (codes "pack") (codes "tar czf out/app.tar.gz src")) end))
          (entry (text (codes "needs")) (list (all_items needs)) end_dict))))
  where
    all_items : List Str → Items
    all_items [] = end
    all_items (n ∷ ns) = item (text n) (all_items ns)

abbrev document : Data → Data
document jobs = dict (
    entry (text (codes "name")) (text (codes "app")) (
      entry (text (codes "version")) (text (codes "1.0.0")) (
        entry (text (codes "jobs")) jobs (
          entry (text (codes "artifacts"))
            (list (
              item
                (dict (
                  entry (text (codes "name")) (text (codes "app")) (
                    entry (text (codes "version")) (text (codes "1.0.0"))
                      (entry (text (codes "path")) (text (codes "./out/app.tar.gz")) end_dict))))
                end))
            end_dict))))

abbrev pub two_jobs : Data
two_jobs = document (
    dict (
      entry (text (codes "build")) (job_of [])
        (entry (text (codes "test")) (job_of (codes " build " ∷ [])) end_dict)))

program : Unit {0}
unfolding validate_root_dict parse_and_validate str_dec
program = tt

pub accepted : Pipeline
unfolding program
accepted = elim (validate_root_dict float two_jobs) [
  | ok p ↦ p
  | err e ↦ record { name = []; version = []; dependencies = []; jobs = []; artifacts = [] }
]

validate_two_jobs : validate_root_dict float two_jobs ≡ ok accepted
unfolding program accepted
validate_two_jobs = refl

pub parse_two_jobs : parse_and_validate float two_jobs ≡ ok (to_dict accepted)
unfolding program accepted
parse_two_jobs = refl

refuse_unknown :
    validate_root_dict float
      (document (dict (entry (text (codes "build")) (job_of (codes "lint" ∷ [])) end_dict)))
    ≡ err (unknown_need (codes "build") (codes "lint"))
unfolding program
refuse_unknown = refl

refuse_self :
    validate_root_dict float
      (document (dict (entry (text (codes "build")) (job_of (codes "build" ∷ [])) end_dict)))
    ≡ err (self_need (codes "build"))
unfolding program
refuse_self = refl

refuse_missing : validate_root_dict float (dict end_dict) ≡ err (missing_field pipeline)
unfolding program
refuse_missing = refl

-- A path is checked before it is stripped, and an absolute one can pass behind a space.
absolute_after_strip :
    (validate_relative_path (codes " /etc/passwd") ≡ ok tt)
    × (strip (codes " /etc/passwd") ≡ codes "/etc/passwd")
unfolding validate_relative_path strip str_dec
absolute_after_strip = (refl, refl)

-- A path that ends in a slash passes the test of output files, whatever the steps do.
directory_passes :
    is_produced (record { name = codes "a"; run = codes "make" } ∷ []) (codes "missing/") ≡ true
unfolding is_produced str_dec
directory_passes = refl

-- The constraint that the parser takes for a range, and the resolver does not read.
equal_refused :
    (is_valid_semver_constraint (codes "=1.0.0") ≡ true) × (from_string (codes "=1.0.0") ≡ none)
unfolding is_valid_semver_constraint from_string str_dec
equal_refused = (refl, refl)

validate_root_dict-IsValid_example : IsValid accepted
validate_root_dict-IsValid_example =
    validate_root_dict-IsValid float two_jobs accepted validate_two_jobs

parse_and_validate-init_example :
    ((s : DagScheduler) × (init (to_dict accepted).jobs 4 ≡ ok s))
    ↔ ((rank : Str → ℕ) × IsRanked rank (job_needs (to_dict accepted).jobs))
parse_and_validate-init_example =
    parse_and_validate-init float two_jobs (to_dict accepted) 4 parse_two_jobs

range_valid : is_valid_semver_constraint (codes " >= 1.0.0 <2.0.0") ≡ true
unfolding is_valid_semver_constraint str_dec
range_valid = refl

range_plain : is_bare_equal (codes " >= 1.0.0 <2.0.0") ≡ false
unfolding strip
range_plain = refl

from_string-is_valid_semver_constraint_example :
    (cs : ConstraintSet) × (from_string (codes " >= 1.0.0 <2.0.0") ≡ some cs)
from_string-is_valid_semver_constraint_example =
    from_string-is_valid_semver_constraint (codes " >= 1.0.0 <2.0.0") range_valid range_plain
