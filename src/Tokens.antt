-- ===== src/Tokens.antt =====
-- registry/auth.py: bearer tokens. The table of tokens is a list of rows; SHA-256 is an argument.
pub mod Laws
mod Tests
use forge_ci_cd_platform.Base.{
  List, [], ◌∷◌, ◌++◌, Option, none, some, Bool, false, ◌||◌, Str, ◌==◌, if◌then◌else◌, codes,
}
use forge_ci_cd_platform.Base.Result.{Result, ok, err}
use forge_ci_cd_platform.Text.{is_nil, starts_with, drop}

-- A row of the table `tokens`.
pub record Token : Type 0 where
  pub name : Str
  pub token_hash : Str

-- `ValueError` and sqlite's `IntegrityError`
pub data AuthError : Type 0 where
  missing_header invalid_token name_taken : AuthError

-- Whether a row has the name, which the table keeps unique.
abbrev pub has_name : Str → List Token → Bool
has_name name [] = false
has_name name (t ∷ ts) = name == t.name || has_name name ts

module _ (sha256 : Str → Str) where
  -- `create_token`, with the random text as an argument
  pub create_token : Str → Str → List Token → Result AuthError (List Token)
  create_token raw name tokens =
      if has_name name tokens
      then err name_taken
      else ok (tokens ++ record { name = name; token_hash = sha256 raw } ∷ [])

  -- The first row that the query finds.
  abbrev pub find_hash : Str → List Token → Option Str
  find_hash hashed [] = none
  find_hash hashed (t ∷ ts) = if hashed == t.token_hash then some t.name else find_hash hashed ts

  pub verify_token : Str → List Token → Option Str
  verify_token raw tokens = find_hash (sha256 raw) tokens

  -- A header that is missing is `none`.
  unfoldable pub require_auth : Option Str → List Token → Result AuthError Str
  unfolding verify_token
  require_auth none tokens = err missing_header
  require_auth (some authorization) tokens =
      if starts_with authorization (codes "Bearer ")
      then elim (verify_token (drop 7 authorization) tokens) [
        | none ↦ err invalid_token
        | some name ↦ if is_nil name then err invalid_token else ok name
      ]
      else err missing_header
