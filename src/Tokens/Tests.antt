-- ===== src/Tokens/Tests.antt =====
-- registry/auth.py on a table of two tokens, and the theorems at concrete inputs. The hash of
-- the tests adds a mark.
use forge_ci_cd_platform.Base.{
  ◌≡◌, ◌≢◌, ◌↔◌, refl, List, [], ◌∷◌, ◌++◌, some, none, Str, str_dec, codes,
}
use forge_ci_cd_platform.Base.Result.{ok}
use forge_ci_cd_platform.Tokens.{Token, create_token, verify_token, require_auth}
use forge_ci_cd_platform.Tokens.Laws.{
  IsFirst, require_auth_iff, create_token-require_auth, require_auth_after-create_token,
}

abbrev hash : Str → Str
hash raw = codes "#" ++ raw

abbrev secret : Str
secret = codes "5ec2e7"

abbrev admin : Str
admin = codes "admin"

abbrev before : List Token
before = record { name = codes "ci"; token_hash = hash (codes "c1") } ∷ []

abbrev after : List Token
after = before ++ record { name = admin; token_hash = hash secret } ∷ []

created : create_token hash secret admin before ≡ ok after
unfolding create_token str_dec
created = refl

require_auth_iff_example :
    (require_auth hash (some (codes "Bearer 5ec2e7")) after ≡ ok admin)
    ↔ (admin ≢ [])
      × ((raw : Str) × (codes "Bearer 5ec2e7" ≡ codes "Bearer " ++ raw)
          × IsFirst (hash raw) admin after)
require_auth_iff_example = require_auth_iff hash (codes "Bearer 5ec2e7") admin after

unknown_before : verify_token hash secret before ≡ none
unfolding verify_token str_dec
unknown_before = refl

create_token-require_auth_example :
    require_auth hash (some (codes "Bearer " ++ secret)) after ≡ ok admin
create_token-require_auth_example =
    create_token-require_auth hash secret admin before after created unknown_before (λ z. cc)

accepted_before : require_auth hash (some (codes "Bearer c1")) before ≡ ok (codes "ci")
unfolding require_auth str_dec
accepted_before = refl

require_auth_after-create_token_example :
    require_auth hash (some (codes "Bearer c1")) after ≡ ok (codes "ci")
require_auth_after-create_token_example =
    require_auth_after-create_token hash secret admin before after (codes "Bearer c1") (codes "ci")
      created accepted_before
