-- ===== src/Semver/Key.antt =====
-- registry/resolver.py, `version_key`: the order by keys, where it agrees with `compare_versions`
-- and where it does not.
use Prim.Native.Nat.{Ordering}
use forge_ci_cd_platform.Base.{◌≡◌, ◌≢◌, [], arith}
use forge_ci_cd_platform.Semver.{
  str_compare, compare_versions, compare_tuples, VersionKey, and_then, compare_keys,
}
use forge_ci_cd_platform.Semver.Order.{
  IsOrder, str_compare-IsOrder, lex_compare-IsOrder, compare_then-IsOrder,
}

and_then-IsOrder {ℓ} :
    {A : Type ℓ} (c d : A → A → Ordering)
    → IsOrder c
    → IsOrder d
    → IsOrder (λ a b. and_then (c a b) (d a b))
and_then-IsOrder c d oc od = record {
  flips = λ a b. ground (arith, oc.flips a b, od.flips a b);
  lt_trans = λ x y z p q. ground (
    arith,
    oc.lt_trans x y z,
    od.lt_trans x y z,
    oc.eq_left x y z,
    oc.eq_left z y x,
    oc.flips y z,
    oc.flips x z,
    oc.flips x y,
  );
  eq_left = λ x y z e. ground (arith, oc.eq_left x y z, od.eq_left x y z);
}

-- The keys are totally preordered.
pub compare_keys-IsOrder : IsOrder compare_keys
unfolding compare_keys
compare_keys-IsOrder =
    compare_then-IsOrder (λ (k : VersionKey). k.parsed.major) _
      (compare_then-IsOrder (λ (k : VersionKey). k.parsed.minor) _
        (compare_then-IsOrder (λ (k : VersionKey). k.parsed.patch)
          (λ a b.
            and_then (compare_tuples a.parsed.prerelease b.parsed.prerelease)
              (str_compare a.text b.text))
          (and_then-IsOrder _ _
            (record {
              flips = λ a b. tuples.flips a.parsed.prerelease b.parsed.prerelease;
              lt_trans = λ a b c.
                  tuples.lt_trans a.parsed.prerelease b.parsed.prerelease c.parsed.prerelease;
              eq_left = λ a b c.
                  tuples.eq_left a.parsed.prerelease b.parsed.prerelease c.parsed.prerelease;
            })
            (record {
              flips = λ a b. str_compare-IsOrder.flips a.text b.text;
              lt_trans = λ a b c. str_compare-IsOrder.lt_trans a.text b.text c.text;
              eq_left = λ a b c. str_compare-IsOrder.eq_left a.text b.text c.text;
            }))))
  where
    tuples : IsOrder compare_tuples
    tuples = lex_compare-IsOrder str_compare str_compare-IsOrder

-- For releases the keys order as `compare_versions` does, and equal versions by their texts.
pub compare_keys_releases :
    (a b : VersionKey)
    → a.parsed.prerelease ≡ []
    → b.parsed.prerelease ≡ []
    → compare_keys a b ≡ and_then (compare_versions a.parsed b.parsed) (str_compare a.text b.text)
unfolding compare_keys compare_versions
compare_keys_releases a b p q = rw (p, q) (ground arith)

-- Of a release and a prerelease of the same three numbers, `compare_versions` puts the release
-- higher, and the keys put the prerelease higher.
pub keys_prefer_prerelease :
    (release early : VersionKey)
    → release.parsed.major ≡ early.parsed.major
    → release.parsed.minor ≡ early.parsed.minor
    → release.parsed.patch ≡ early.parsed.patch
    → release.parsed.prerelease ≡ []
    → early.parsed.prerelease ≢ []
    → (compare_versions release.parsed early.parsed ≡ Ordering.gt)
      × (compare_keys release early ≡ Ordering.lt)
unfolding compare_keys compare_versions
keys_prefer_prerelease release early a b c p q = rw (a, b, c, p) (ground arith)
