-- ===== src/Middleware/Auth.antt =====
-- The tokens of the write routes and of the internal routes (backend/middleware/write_api_auth.go,
-- internal_token.go).
use lok_lingo.Prelude.{◌≡◌, Bool, true, false, [], drop, if◌then◌else◌, arith}
use lok_lingo.Go.Text.{Text, text_eq, is_empty, codes, trim_space, to_lower, has_prefix}

-- 503, 401, or the next handler
pub data Verdict : Type 0 where
  misconfigured unauthorized next : Verdict

-- strings.EqualFold with a word that only ASCII letters fold to
abbrev pub is_production : Text → Bool
is_production app_env = text_eq (to_lower (trim_space app_env)) (codes "production")

-- The token of Authorization: Bearer.
unfoldable pub bearer : Text → Text
bearer authz =
    if has_prefix (to_lower authz) (codes "bearer ") then trim_space (drop 7 authz) else []

-- The token that the request presents, from the headers X-API-Token and Authorization.
unfoldable pub presented : Text → Text → Text
presented x_api_token authorization =
    if is_empty (trim_space x_api_token)
    then bearer (trim_space authorization)
    else trim_space x_api_token

unfoldable pub write_api_auth : Text → Text → Text → Text → Verdict
write_api_auth app_env token x_api_token authorization =
    if is_empty (trim_space token)
    then (if is_production app_env then misconfigured else next)
    else if text_eq (presented x_api_token authorization) (trim_space token)
    then next
    else unauthorized

unfoldable pub internal_token : Text → Text → Verdict
internal_token token x_internal_token =
    if is_empty token then next else if text_eq x_internal_token token then next else unauthorized

-- In production, whatever the headers, a request to a write route gets through only if the server has a
-- token and the request presents it.
pub write_api_auth-next :
    (app_env token x_api_token authorization : Text)
    → is_production app_env ≡ true
    → write_api_auth app_env token x_api_token authorization ≡ next
    → (is_empty (trim_space token) ≡ false)
      × (text_eq (presented x_api_token authorization) (trim_space token) ≡ true)
unfolding write_api_auth
write_api_auth-next app_env token x_api_token authorization p h = ground arith
