-- ===== src/Handlers/Accounts.antt =====
-- internal/handler/auth_handler.go: `AuthHandler`.
use multi_tenant_messaging.Base.{ℕ, Option, String, none, some}
use multi_tenant_messaging.Auth.{
  AuthAnswer, AuthError, Bcrypt, LoginResponse, User, Claims, granted, RegisterRequest,
  LoginRequest, denied, to_response, invalid_credentials, user_exists, login, register,
}
use multi_tenant_messaging.Db.{Db, UuidFormat}
use multi_tenant_messaging.Http.{
  Response, answer, bad_request_400, conflict_409, unauthorized_401, coded_error, created_201,
  ok_200, internal_error_500, login_body, registered_body, auth_failed,
}
use multi_tenant_messaging.Http.Request.{Moment}

abbrev invalid_request : Response
invalid_request = answer bad_request_400 (coded_error "INVALID_REQUEST" "invalid request body")

-- `user_exists` alone has a status of its own.
unfoldable pub register_failure : AuthError → Response
register_failure user_exists = answer conflict_409 (coded_error "USER_EXISTS" "user already exists")
register_failure e = answer internal_error_500 (auth_failed e)

abbrev pub registered_or : Db × AuthAnswer User → Db × Response
registered_or (db, granted user) = (db, answer created_201 (registered_body (to_response user)))
registered_or (db, denied e) = (db, register_failure e)

-- `AuthHandler.Register`
unfoldable pub register_handler :
    UuidFormat → Bcrypt → Moment → Option RegisterRequest → Db → Db × Response
register_handler u h x body db = elim body [
  | none ↦ (db, invalid_request)
  | some req ↦ registered_or (register u h x.served x.outcome x.salt x.new_id x.now req db)
]

unfoldable pub login_failure : AuthError → Response
login_failure invalid_credentials =
    answer unauthorized_401 (coded_error "INVALID_CREDENTIALS" "invalid username or password")
login_failure e = answer internal_error_500 (auth_failed e)

abbrev pub login_or : AuthAnswer LoginResponse → Response
login_or (granted r) = answer ok_200 (login_body r)
login_or (denied e) = login_failure e

-- `AuthHandler.Login`; `sign` is the token library on the secret.
unfoldable pub login_handler :
    UuidFormat
    → Bcrypt
    → (Claims → Option String)
    → ℕ
    → Moment
    → Option LoginRequest
    → Db
    → Response
login_handler u h sign expiry x body db = elim body [
  | none ↦ invalid_request
  | some req ↦ login_or (login u h sign x.served x.now expiry req.username req.password db)
]
