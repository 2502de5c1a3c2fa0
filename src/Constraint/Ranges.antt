-- ===== src/Constraint/Ranges.antt =====
-- registry/resolver.py: which releases a caret or a tilde constraint admits.
use forge_ci_cd_platform.Base.{◌<◌, ◌≤◌, ◌≡◌, ◌↔◌, ◌⊎◌, [], true, arith}
use forge_ci_cd_platform.Semver.{SemVer, compare_versions}
use forge_ci_cd_platform.Constraint.{satisfies, between, caret_upper_bound, tilde_upper_bound}

-- Three numbers, in the order of versions.
abbrev pub LeNumbers : SemVer → SemVer → Type 0
LeNumbers a b =
    (a.major < b.major)
    ⊎ (a.major ≡ b.major) × ((a.minor < b.minor) ⊎ (a.minor ≡ b.minor) × (a.patch ≤ b.patch))

-- The leftmost number of the base that is not 0 stays, and the numbers before it.
abbrev pub KeepsLeading : SemVer → SemVer → Type 0
KeepsLeading base v =
    (v.major ≡ base.major)
    × ((0 < base.major)
        ⊎ (base.major ≡ 0)
          × (v.minor ≡ base.minor)
          × ((0 < base.minor) ⊎ (base.minor ≡ 0) × (v.patch ≡ base.patch)))

-- Major and minor stay; of a base 0.0.z the patch stays too.
abbrev pub KeepsMinor : SemVer → SemVer → Type 0
KeepsMinor base v =
    (v.major ≡ base.major)
    × (v.minor ≡ base.minor)
    × ((0 < base.major) ⊎ ((0 < base.minor) ⊎ (v.patch ≡ base.patch)))

module _ (base v : SemVer) (base_release : base.prerelease ≡ [])
    (v_release : v.prerelease ≡ []) where
  -- A caret constraint over a release admits just the releases that are not below the base and
  -- agree with it in its leftmost number that is not 0 and in the numbers before that.
  pub caret_iff :
      (satisfies (between base (caret_upper_bound base)) v ≡ true)
      ↔ (LeNumbers base v × KeepsLeading base v)
  unfolding caret_upper_bound compare_versions
  caret_iff = rw (base_release, v_release) (ground arith)

  -- A tilde constraint over a release admits just the releases that are not below the base, have
  -- its major and minor numbers, and, if both of these are 0, its patch number.
  pub tilde_iff :
      (satisfies (between base (tilde_upper_bound base)) v ≡ true)
      ↔ (LeNumbers base v × KeepsMinor base v)
  unfolding tilde_upper_bound compare_versions
  tilde_iff = rw (base_release, v_release) (ground arith)
