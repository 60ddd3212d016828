-- ===== src/Middleware.antt =====
-- internal/handler/middleware/jwt.go: the check of a request's token, and what is read of it afterwards.
pub mod Bearer
use multi_tenant_messaging.Base.{
  ℕ, Option, String, some, if◌then◌else◌, ◌+◌, ◌≡◌, ltb, str_eq, ◌/◌, ◌*◌,
}
use multi_tenant_messaging.Base.Text.{split_space, lower_is}
use multi_tenant_messaging.Auth.{Claims}
use multi_tenant_messaging.Http.{Response, answer, unauthorized_401, error_text}
use mathlib.Core.Option.{none}

-- What `ParseWithClaims` returns: an error, a token that is not valid, one with claims of another type, or
-- the claims.
pub data Parsed : Type 0 where
  parse_error not_valid other_claims : Parsed
  claims : Claims → Parsed

-- What is relied on of github.com/golang-jwt/jwt: a token that is signed with a secret parses with this
-- secret as its claims before the second in which it expires, and is an error from then on. Times are
-- microseconds.
pub record Jwt : Type 0 where
  pub sign : String → Claims → Option String
  pub parse : String → ℕ → String → Parsed
  pub parse-sign :
      (secret token : String) (c : Claims) (now : ℕ)
      → sign secret c ≡ some token
      → parse secret now token
        ≡ (if ltb now (c.expires_at * 1_000_000) then claims c else parse_error)

-- `c.Locals`, as far as it is used.
pub record Locals : Type 0 where
  pub user : Option Claims
  pub tenant_id : Option String

pub data Checked : Type 0 where
  next : Locals → Checked
  halt : Response → Checked

abbrev unauthorized : String → Checked
unauthorized text = halt (answer unauthorized_401 (error_text text))

abbrev check_claims : Parsed → Checked
check_claims parse_error = unauthorized "invalid token"
check_claims not_valid = unauthorized "invalid token"
check_claims other_claims = unauthorized "invalid claims"
check_claims (claims c) = next (record { user = some c; tenant_id = some c.tenant_id })

abbrev check_parts : Jwt → String → ℕ → Option (String × String) → Checked
check_parts jwt secret now none = unauthorized "invalid authorization header format"
check_parts jwt secret now (some (scheme, token)) =
    if lower_is scheme "bearer"
    then check_claims (jwt.parse secret now token)
    else unauthorized "invalid authorization header format"

-- The handler of `NewJWTMiddleware`, on the header `Authorization`.
unfoldable pub jwt_middleware : Jwt → String → ℕ → String → Checked
jwt_middleware jwt secret now header =
    if str_eq header ""
    then unauthorized "missing authorization header"
    else check_parts jwt secret now (split_space header)

-- `GenerateToken`: claims without a user.
unfoldable pub generate_token : Jwt → String → String → String → ℕ → ℕ → Option String
generate_token jwt secret tenant_id role now expiry = jwt.sign secret (record {
  user_id = "";
  username = "";
  tenant_id = tenant_id;
  role = role;
  expires_at = (now + expiry) / 1_000_000;
  issued_at = now / 1_000_000;
})

abbrev tenant_of : Option Claims → String
tenant_of none = ""
tenant_of (some c) = c.tenant_id

-- `GetTenantID`
pub get_tenant_id : Locals → String
get_tenant_id l = tenant_of l.user

-- `GetClaims`; `none` is the panic without claims, here and below.
pub get_claims : Locals → Option Claims
get_claims l = l.user

abbrev field_of : (Claims → String) → Option Claims → Option String
field_of f none = none
field_of f (some c) = some (f c)

-- `GetUserID`
pub get_user_id : Locals → Option String
get_user_id l = field_of (λ c. c.user_id) l.user

-- `GetUsername`
pub get_username : Locals → Option String
get_username l = field_of (λ c. c.username) l.user
