-- ===== src/Router/Public.antt =====
-- The answers of the handlers that ask for no token, and of the error handler.
use multi_tenant_messaging.Base.{ℕ, String, refl, Option, some}
use multi_tenant_messaging.Handlers.Accounts.{
  register_failure, login_failure, login_handler, register_handler, login_or, registered_or,
}
use multi_tenant_messaging.Http.{
  Body, tenant_body, tenants_body, message_body, page_body, error_handler, HandlerError,
  fiber_error, other_error,
}
use multi_tenant_messaging.Auth.{
  AuthError, AuthAnswer, user_exists, LoginResponse, User, fields_required, Bcrypt, user_not_found,
  Claims, granted, invalid_credentials, LoginRequest, RegisterRequest, denied, hashing, login,
  register, signing, db_error,
}
use multi_tenant_messaging.Http.Request.{Moment}
use multi_tenant_messaging.Db.{Db, UuidFormat}
use multi_tenant_messaging.Auth.Tables.{OnlyUsers, register-OnlyUsers}
use mathlib.Core.Option.{none}

-- A body that shows nothing of a tenant or a message.
abbrev pub IsPublic : Body → Type 0
IsPublic (tenant_body t) = ⊥
IsPublic (tenants_body ts) = ⊥
IsPublic (message_body m) = ⊥
IsPublic (page_body p) = ⊥
IsPublic _ = Unit

register_failure-IsPublic : (e : AuthError) → IsPublic (register_failure e).body
unfolding register_failure
register_failure-IsPublic user_exists = tt
register_failure-IsPublic fields_required = tt
register_failure-IsPublic user_not_found = tt
register_failure-IsPublic invalid_credentials = tt
register_failure-IsPublic hashing = tt
register_failure-IsPublic signing = tt
register_failure-IsPublic db_error = tt

login_failure-IsPublic : (e : AuthError) → IsPublic (login_failure e).body
unfolding login_failure
login_failure-IsPublic user_exists = tt
login_failure-IsPublic fields_required = tt
login_failure-IsPublic user_not_found = tt
login_failure-IsPublic invalid_credentials = tt
login_failure-IsPublic hashing = tt
login_failure-IsPublic signing = tt
login_failure-IsPublic db_error = tt

registered_or-IsPublic :
    (db : Db) (out : Db × AuthAnswer User)
    → OnlyUsers db out.0
    → OnlyUsers db (registered_or out).0 × IsPublic (registered_or out).1.body
registered_or-IsPublic db (after, granted user) same = (same, tt)
registered_or-IsPublic db (after, denied e) same = (same, register_failure-IsPublic e)

pub register_handler-IsPublic :
    (u : UuidFormat) (h : Bcrypt) (x : Moment) (body : Option RegisterRequest) (db : Db)
    → OnlyUsers db (register_handler u h x body db).0
      × IsPublic (register_handler u h x body db).1.body
unfolding register_handler
register_handler-IsPublic u h x none db = ((refl, refl, refl), tt)
register_handler-IsPublic u h x (some req) db =
    registered_or-IsPublic db (register u h x.served x.outcome x.salt x.new_id x.now req db)
      (register-OnlyUsers u h x.served x.outcome x.salt x.new_id x.now req db)

login_or-IsPublic : (out : AuthAnswer LoginResponse) → IsPublic (login_or out).body
login_or-IsPublic (granted r) = tt
login_or-IsPublic (denied e) = login_failure-IsPublic e

pub login_handler-IsPublic :
    (u : UuidFormat) (h : Bcrypt) (sign : Claims → Option String) (expiry : ℕ) (x : Moment)
    (body : Option LoginRequest) (db : Db)
    → IsPublic (login_handler u h sign expiry x body db).body
unfolding login_handler
login_handler-IsPublic u h sign expiry x none db = tt
login_handler-IsPublic u h sign expiry x (some req) db =
    login_or-IsPublic (login u h sign x.served x.now expiry req.username req.password db)

pub error-IsPublic : (e : HandlerError) → IsPublic (error_handler e).body
unfolding error_handler
error-IsPublic (fiber_error code message) = tt
error-IsPublic other_error = tt
