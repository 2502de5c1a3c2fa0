-- ===== src/Tokens/Laws.antt =====
-- registry/auth.py: which headers are accepted, and what a new token changes.
use mathlib.Core.Path.{subst}
use forge_ci_cd_platform.Base.{
  ◌≡◌, ◌≢◌, ◌↔◌, refl, ap, ◌∙◌, sym, List, [], ◌∷◌, ◌++◌, none, some, true, false, arith, Str, ◌==◌,
  if◌then◌else◌, Option-cases, Bool-cases, inl, inr, codes, All,
}
use forge_ci_cd_platform.Base.Result.{ok}
use forge_ci_cd_platform.Text.{starts_with, drop}
use forge_ci_cd_platform.Tokens.{
  Token, has_name, find_hash, create_token, verify_token, require_auth,
}

-- A text that starts as another is that text and what is behind it.
bearer_split : (a : Str) → starts_with a (codes "Bearer ") ≡ true → a ≡ codes "Bearer " ++ drop 7 a
bearer_split [] h = cc
bearer_split (a ∷ []) h = ground arith
bearer_split (a ∷ b ∷ []) h = ground arith
bearer_split (a ∷ b ∷ c ∷ []) h = ground arith
bearer_split (a ∷ b ∷ c ∷ d ∷ []) h = ground arith
bearer_split (a ∷ b ∷ c ∷ d ∷ e ∷ []) h = ground arith
bearer_split (a ∷ b ∷ c ∷ d ∷ e ∷ f ∷ []) h = ground arith
bearer_split (a ∷ b ∷ c ∷ d ∷ e ∷ f ∷ g ∷ s) h = ground arith

-- The rows up to the first one with a hash, which has the name.
pub record IsFirst (hashed name : Str) (tokens : List Token) : Type 0 where
  pub before : List Token
  pub row : Token
  pub behind : List Token
  pub split : tokens ≡ before ++ row ∷ behind
  pub named : row.name ≡ name
  pub found : row.token_hash ≡ hashed
  pub skipped : All (λ (t : Token). t.token_hash ≢ hashed) before

module _ (sha256 : Str → Str) where
  find_hash-append :
      (hashed : Str) (tokens : List Token) (t : Token)
      → find_hash sha256 hashed (tokens ++ t ∷ []) ≡ (elim (find_hash sha256 hashed tokens) [
        | none ↦ if hashed == t.token_hash then some t.name else none
        | some name ↦ some name
      ])
  find_hash-append hashed [] t = refl
  find_hash-append hashed (u ∷ tokens) t = ground (arith, find_hash-append hashed tokens t)

  require_auth-accepted :
      (raw name : Str) (tokens : List Token)
      → name ≢ []
      → verify_token sha256 raw tokens ≡ some name
      → require_auth sha256 (some (codes "Bearer " ++ raw)) tokens ≡ ok name
  unfolding require_auth verify_token
  require_auth-accepted raw [] tokens named v = absurd (named refl)
  require_auth-accepted raw (c ∷ s) tokens named v =
      let v' : find_hash sha256 (sha256 raw) tokens ≡ some (c ∷ s) = v in rw (v', require_auth) refl

  require_auth-verify_token :
      (authorization name : Str) (tokens : List Token)
      → (require_auth sha256 (some authorization) tokens ≡ ok name)
        ↔ (name ≢ [])
          × ((raw : Str) × (authorization ≡ codes "Bearer " ++ raw)
              × (verify_token sha256 raw tokens ≡ some name))
  unfolding require_auth
  require_auth-verify_token authorization name tokens = (
    λ h. elim (Bool-cases (starts_with authorization (codes "Bearer "))) [
      | inr e ↦ absurd (cc (rw (e, require_auth) at h))
      | inl e ↦ elim (Option-cases (verify_token sha256 (drop 7 authorization) tokens)) [
        | inl n ↦ absurd (cc (rw (e, n, require_auth) at h))
        | inr ([], v) ↦ absurd (cc (rw (e, v, require_auth) at h))
        | inr (c ∷ s, v) ↦
            let same : c ∷ s ≡ name = ground (arith, rw (e, v, require_auth) at h) in
            ((λ z. cc), (drop 7 authorization, bearer_split authorization e, v ∙ ap some same))
      ]
    ],
    λ (named, (raw, e, v)).
        let before : require_auth sha256 (some (codes "Bearer " ++ raw)) tokens ≡ ok name =
          require_auth-accepted raw name tokens named v in
        subst (λ a. require_auth sha256 (some a) tokens ≡ ok name) (sym e) before,
  )

  find_hash-IsFirst :
      (hashed name : Str) (tokens : List Token)
      → find_hash sha256 hashed tokens ≡ some name
      → IsFirst hashed name tokens
  find_hash-IsFirst hashed name [] h = absurd (cc (h))
  find_hash-IsFirst hashed name (t ∷ ts) h = elim (Bool-cases (hashed == t.token_hash)) [
    | inl e ↦ record {
      before = [];
      row = t;
      behind = ts;
      split = refl;
      named = ground (arith, e, h);
      found = ground (arith, e);
      skipped = tt;
    }
    | inr e ↦
        let rest = find_hash-IsFirst hashed name ts (ground (arith, e, h)) in
        record {
          before = t ∷ rest.before;
          row = rest.row;
          behind = rest.behind;
          split = ap (λ l. t ∷ l) rest.split;
          named = rest.named;
          found = rest.found;
          skipped = ((λ same. ground (arith, e, same)), rest.skipped);
        }
  ]

  find_hash-skipped :
      (hashed : Str) (before : List Token) (row : Token) (behind : List Token)
      → row.token_hash ≡ hashed
      → All (λ (t : Token). t.token_hash ≢ hashed) before
      → find_hash sha256 hashed (before ++ row ∷ behind) ≡ some row.name
  find_hash-skipped hashed [] row behind found skipped = ground (arith, found)
  find_hash-skipped hashed (t ∷ before) row behind found (other, skipped) =
      elim (Bool-cases (hashed == t.token_hash)) [
        | inl e ↦ absurd (other (ground (arith, e)))
        | inr e ↦ ground (arith, e, find_hash-skipped hashed before row behind found skipped)
      ]

  verify_token-IsFirst :
      (raw name : Str) (tokens : List Token)
      → (verify_token sha256 raw tokens ≡ some name) ↔ IsFirst (sha256 raw) name tokens
  unfolding verify_token
  verify_token-IsFirst raw name tokens = (
    find_hash-IsFirst (sha256 raw) name tokens,
    λ first.
        let found =
          find_hash-skipped (sha256 raw) first.before first.row first.behind first.found
            first.skipped in
        ap (find_hash sha256 (sha256 raw)) first.split ∙ found ∙ ap some first.named,
  )

  -- A header is accepted for a name just if it is `Bearer` with a token, the first row of the table
  -- with the token's SHA-256 has that name, and the name is not empty.
  pub require_auth_iff :
      (authorization name : Str) (tokens : List Token)
      → (require_auth sha256 (some authorization) tokens ≡ ok name)
        ↔ (name ≢ [])
          × ((raw : Str) × (authorization ≡ codes "Bearer " ++ raw)
              × IsFirst (sha256 raw) name tokens)
  require_auth_iff authorization name tokens =
      let (to, back) = require_auth-verify_token authorization name tokens in
      (
        λ h.
            let (named, (raw, e, v)) = to h in
            (named, (raw, e, (verify_token-IsFirst raw name tokens).0 v)),
        λ (named, (raw, e, first)).
            back (named, (raw, e, (verify_token-IsFirst raw name tokens).1 first)),
      )

  verify_token-append :
      (raw : Str) (tokens : List Token) (t : Token)
      → verify_token sha256 raw (tokens ++ t ∷ []) ≡ (elim (verify_token sha256 raw tokens) [
        | none ↦ if sha256 raw == t.token_hash then some t.name else none
        | some name ↦ some name
      ])
  unfolding verify_token
  verify_token-append raw tokens t = find_hash-append (sha256 raw) tokens t

  create_token_cases :
      (raw name : Str) (tokens tokens' : List Token)
      → create_token sha256 raw name tokens ≡ ok tokens'
      → (has_name name tokens ≡ false)
        × (tokens ++ record { name = name; token_hash = sha256 raw } ∷ [] ≡ tokens')
  unfolding create_token
  create_token_cases raw name tokens tokens' h = elim (Bool-cases (has_name name tokens)) [
    | inl e ↦ absurd (cc (rw (e, create_token) at h))
    | inr e ↦ (e, ground (arith, rw (e, create_token) at h))
  ]

  -- A new token is accepted for its name, if no earlier one has the same hash and the name is not
  -- empty.
  pub create_token-require_auth :
      (raw name : Str) (tokens tokens' : List Token)
      → create_token sha256 raw name tokens ≡ ok tokens'
      → verify_token sha256 raw tokens ≡ none
      → name ≢ []
      → require_auth sha256 (some (codes "Bearer " ++ raw)) tokens' ≡ ok name
  create_token-require_auth raw name tokens tokens' h fresh named =
      let (_, grown) = create_token_cases raw name tokens tokens' h in
      let new : Token = record { name = name; token_hash = sha256 raw } in
      require_auth-accepted raw name tokens' named
        (rw (← grown) (ground (arith, verify_token-append raw tokens new, fresh)))

  -- A new token takes nothing away: every header that was accepted still is, for the same name.
  pub require_auth_after-create_token :
      (raw name : Str) (tokens tokens' : List Token) (authorization other : Str)
      → create_token sha256 raw name tokens ≡ ok tokens'
      → require_auth sha256 (some authorization) tokens ≡ ok other
      → require_auth sha256 (some authorization) tokens' ≡ ok other
  require_auth_after-create_token raw name tokens tokens' authorization other h k =
      let (_, grown) = create_token_cases raw name tokens tokens' h in
      let new : Token = record { name = name; token_hash = sha256 raw } in
      let (named, (raw', e, v)) = (require_auth-verify_token authorization other tokens).0 k in
      (require_auth-verify_token authorization other tokens').1
        (named, (raw', e, rw (← grown) (ground (arith, verify_token-append raw' tokens new, v))))
