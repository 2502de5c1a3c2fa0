-- ===== src/Semver/Tests.antt =====
-- registry/resolver.py, versions: the order of the keys at concrete versions.
use Prim.Native.Nat.{Ordering}
use forge_ci_cd_platform.Base.{
  ◌≡◌, ◌≢◌, refl, List, [], ◌∷◌, none, some, Str, codes, ℕ, true, str_dec,
}
use forge_ci_cd_platform.Semver.{
  SemVer, parse, VersionKey, compare_keys, compare_versions, is_valid_semver,
}
use forge_ci_cd_platform.Semver.Accepts.{parse-is_valid_semver}
use forge_ci_cd_platform.Semver.Key.{keys_prefer_prerelease}

abbrev version : ℕ → ℕ → ℕ → List Str → SemVer
version x y z pre = record { major = x; minor = y; patch = z; prerelease = pre; build = [] }

parse_full :
    parse (codes " 1.2.3-rc.1+b-7.x ")
    ≡ some (record {
      major = 1;
      minor = 2;
      patch = 3;
      prerelease = codes "rc" ∷ codes "1" ∷ [];
      build = codes "b-7" ∷ codes "x" ∷ [];
    })
unfolding parse
parse_full = refl

parse_errors :
    (parse (codes "1.2") ≡ none)
    × (parse (codes "^1.2.3") ≡ none)
    × (parse (codes "1.2.3-01") ≡ none)
unfolding parse
parse_errors = (refl, refl, refl)

-- Numeric identifiers compare as numbers.
alpha_ten :
    compare_versions
      (version 1 0 0 (codes "a" ∷ codes "10" ∷ []))
      (version 1 0 0 (codes "a" ∷ codes "9" ∷ []))
    ≡ Ordering.gt
unfolding compare_versions parse
alpha_ten = refl

abbrev stable : VersionKey
stable = record { parsed = version 1 0 0 []; text = codes "1.0.0" }

abbrev rc : VersionKey
rc = record { parsed = version 1 0 0 (codes "rc" ∷ []); text = codes "1.0.0-rc" }

rc_is_early : ◌≢◌ {A = List Str} (codes "rc" ∷ []) []
rc_is_early e = cc

keys_prefer_prerelease_example :
    (compare_versions stable.parsed rc.parsed ≡ Ordering.gt)
    × (compare_keys stable rc ≡ Ordering.lt)
keys_prefer_prerelease_example = keys_prefer_prerelease stable rc refl refl refl refl rc_is_early

accepted_newline : is_valid_semver (codes "1.2.3-rc.1\n") ≡ true
unfolding is_valid_semver str_dec
accepted_newline = refl

parse-is_valid_semver_example : (v : SemVer) × (parse (codes "1.2.3-rc.1\n") ≡ some v)
parse-is_valid_semver_example = parse-is_valid_semver (codes "1.2.3-rc.1\n") accepted_newline
