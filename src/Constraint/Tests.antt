-- ===== src/Constraint/Tests.antt =====
-- registry/resolver.py, constraints at concrete texts and versions.
use forge_ci_cd_platform.Base.{◌≡◌, ◌↔◌, refl, [], none, some, true, codes, str_dec}
use forge_ci_cd_platform.Constraint.{
  satisfies, between, release, caret_upper_bound, tilde_upper_bound, from_string,
}
use forge_ci_cd_platform.Constraint.Expand.{expand_constraint}
use forge_ci_cd_platform.Constraint.Ranges.{
  LeNumbers, KeepsLeading, KeepsMinor, caret_iff, tilde_iff,
}

from_caret : from_string (codes "^1.2.3") ≡ some (between (release 1 2 3) (release 2 0 0))
unfolding from_string
from_caret = refl

expand_caret : expand_constraint (codes "^1.2.3") ≡ some (codes "1.2.3", codes "2.0.0")
unfolding expand_constraint str_dec
expand_caret = refl

expand_prerelease :
    expand_constraint (codes ">=1.0.0-rc.1+b <=2.0.0") ≡ some (codes "1.0.0-rc.1+b", [])
unfolding expand_constraint str_dec
expand_prerelease = refl

from_spaced :
    from_string (codes ">= 1.0.0 < 2.0.0") ≡ some (between (release 1 0 0) (release 2 0 0))
unfolding from_string str_dec
from_spaced = refl

from_errors :
    (from_string (codes "=1.0.0") ≡ none)
    × (from_string (codes ">=") ≡ none)
    × (from_string [] ≡ none)
unfolding from_string str_dec
from_errors = (refl, refl, refl)

caret_iff_example :
    (satisfies (between (release 0 2 3) (caret_upper_bound (release 0 2 3))) (release 0 2 9) ≡ true)
    ↔ (LeNumbers (release 0 2 3) (release 0 2 9) × KeepsLeading (release 0 2 3) (release 0 2 9))
caret_iff_example = caret_iff (release 0 2 3) (release 0 2 9) refl refl

tilde_iff_example :
    (satisfies (between (release 1 2 3) (tilde_upper_bound (release 1 2 3))) (release 1 3 0) ≡ true)
    ↔ (LeNumbers (release 1 2 3) (release 1 3 0) × KeepsMinor (release 1 2 3) (release 1 3 0))
tilde_iff_example = tilde_iff (release 1 2 3) (release 1 3 0) refl refl
