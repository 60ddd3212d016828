-- ===== src/Http.antt =====
-- What the routes and handlers answer: a status and a body, for each way in which internal/routes,
-- internal/handler and the error handler of cmd/api/main.go fill them.
pub mod Request
use multi_tenant_messaging.Base.{
  String, ◌≡◌, List, Bool, Bool-cases, if◌then◌else◌, inl, true, false, inr, refl,
}
use multi_tenant_messaging.Amqp.{Fault, panicked}
use multi_tenant_messaging.Tenants.{ServiceError, TenantResponse}
use multi_tenant_messaging.Auth.{AuthError, UserResponse, LoginResponse}
use multi_tenant_messaging.Messages.{MessageResponse, CursorPaginationResponse}

pub data HttpStatus : Type 0 where
  ok_200 created_201 no_content_204 bad_request_400 unauthorized_401 not_found_404 : HttpStatus
  method_not_allowed_405 conflict_409 internal_error_500 : HttpStatus

-- A JSON body. The `…_failed` bodies hold an error's own text behind "error" or "message".
pub data Body : Type 0 where
  empty_body healthy : Body
  error_text : String → Body
  service_failed : ServiceError → Body
  manager_failed : String → Fault → Body
  coded_error : String → String → Body
  auth_failed : AuthError → Body
  tenant_body : TenantResponse → Body
  tenants_body : List TenantResponse → Body
  message_body : MessageResponse → Body
  page_body : CursorPaginationResponse → Body
  registered_body : UserResponse → Body
  login_body : LoginResponse → Body

pub record Response : Type 0 where
  pub status : HttpStatus
  pub body : Body

abbrev pub answer : HttpStatus → Body → Response
answer status body = record { status = status; body = body }

-- The errors that reach `ErrorHandler`: those of Fiber, with a code and a message, and all others, as the
-- one that the recover middleware makes of a panic.
pub data HandlerError : Type 0 where
  fiber_error : HttpStatus → String → HandlerError
  other_error : HandlerError

-- `ErrorHandler` of `main`
unfoldable pub error_handler : HandlerError → Response
error_handler (fiber_error code message) = answer code (error_text message)
error_handler other_error = answer internal_error_500 (error_text "Internal Server Error")

abbrev is_panic : Fault → Bool
is_panic panicked = true
is_panic _ = false

-- An error of the manager behind a prefix; a panic is recovered.
pub manager_failure : String → Fault → Response
unfolding error_handler
manager_failure prefix e =
    if is_panic e
    then error_handler other_error
    else answer internal_error_500 (manager_failed prefix e)

pub manager_failure_500 :
    (prefix : String) (e : Fault) → (manager_failure prefix e).status ≡ internal_error_500
unfolding manager_failure
manager_failure_500 prefix e = elim (Bool-cases (is_panic e)) [
  | inl h ↦ rw h refl
  | inr h ↦ rw h refl
]
