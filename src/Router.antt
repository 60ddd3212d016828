-- ===== src/Router.antt =====
-- internal/routes and the application of cmd/api/main.go: the routes in the order of their registration, and
-- what a request runs through. The recover middleware is in `error_handler`; the logger has no effect.
pub mod Public
pub mod Guard
pub mod Admitted
pub mod Sessions
use multi_tenant_messaging.Base.{
  ℕ, List, String, Bool, ◌++◌, ◌∷◌, Option, [], none, ◌≡◌, if◌then◌else◌, some, true,
}
use multi_tenant_messaging.Db.{UuidFormat, Db}
use multi_tenant_messaging.Http.Request.{Moment, Method, Request, post, get, delete_method, put}
use multi_tenant_messaging.Middleware.{Checked, Locals, Jwt, next, halt, jwt_middleware}
use multi_tenant_messaging.Routes.{
  System, create_tenant_route, delete_tenant_route, update_concurrency_route,
}
use multi_tenant_messaging.Auth.{Bcrypt, to_response}
use multi_tenant_messaging.Http.{HandlerError, Response, error_handler, answer, ok_200, healthy}
use multi_tenant_messaging.Messages.{Cursor}
use multi_tenant_messaging.Handlers.Accounts.{register_handler, login_handler}
use multi_tenant_messaging.Handlers.Tenants.{list_tenants_handler, get_tenant_handler}
use multi_tenant_messaging.Handlers.Messages.{
  create_message_handler, list_messages_handler, get_message_handler,
}

pub data Segment : Type 0 where
  word : String → Segment
  param : String → Segment

pub data Endpoint : Type 0 where
  register_user login_user : Endpoint
  create_tenant_endpoint list_tenants_endpoint get_tenant_endpoint : Endpoint
  delete_tenant_endpoint update_concurrency_endpoint : Endpoint
  create_message_endpoint list_messages_endpoint get_message_endpoint health : Endpoint

-- `guarded p` is the JWT middleware of `Group("", jwtMiddleware)` on the prefix `p`.
pub data Entry : Type 0 where
  guarded : List Segment → Entry
  route : Method → List Segment → Endpoint → Entry

-- What is relied on of github.com/gofiber/fiber: whether a middleware on a prefix runs for a path; the
-- parameters of a path that a route answers, with `param_of` as `c.Params`; the error where no route
-- answers; and that a path which a route answers is under every prefix of the route.
pub record FiberRouter : Type 0 where
  pub under : List Segment → String → Bool
  pub params : Method → List Segment → Method → String → Option (String → String)
  pub unmatched : Method → String → HandlerError
  pub params-under :
      (m n : Method) (p q : List Segment) (path : String) {f : String → String}
      → params m (p ++ q) n path ≡ some f
      → under p path ≡ true

-- The libraries and the values of the configuration that the application is made with; `read_cursor` is
-- `time.Parse(time.RFC3339, …)`, `expiry` is in microseconds.
pub record Server : Type 0 where
  pub fiber : FiberRouter
  pub uuid : UuidFormat
  pub bcrypt : Bcrypt
  pub jwt : Jwt
  pub read_cursor : String → Cursor
  pub secret : String
  pub expiry : ℕ

-- `app.Group("/api/v1")`
abbrev pub api : List Segment
api = word "api" ∷ word "v1" ∷ []

-- `AuthRoutes.Register`
abbrev pub auth_routes : List Entry
auth_routes =
    route post (api ++ word "auth" ∷ word "register" ∷ []) register_user
    ∷ route post (api ++ word "auth" ∷ word "login" ∷ []) login_user
    ∷ []

-- `TenantRoutes.Register`
abbrev pub tenant_routes : List Entry
tenant_routes =
    guarded api
    ∷ route post (api ++ word "tenants" ∷ []) create_tenant_endpoint
    ∷ route get (api ++ word "tenants" ∷ []) list_tenants_endpoint
    ∷ route get (api ++ word "tenants" ∷ param "id" ∷ []) get_tenant_endpoint
    ∷ route delete_method (api ++ word "tenants" ∷ param "id" ∷ []) delete_tenant_endpoint
    ∷ route put (api ++ word "tenants" ∷ param "id" ∷ word "config" ∷ word "concurrency" ∷ [])
        update_concurrency_endpoint
    ∷ []

-- `MessageRoutes.Register`
abbrev pub message_routes : List Entry
message_routes =
    guarded api
    ∷ route post (api ++ word "messages" ∷ []) create_message_endpoint
    ∷ route get (api ++ word "messages" ∷ []) list_messages_endpoint
    ∷ route get (api ++ word "messages" ∷ param "id" ∷ []) get_message_endpoint
    ∷ []

-- `Router.Register`
abbrev pub all_routes : List Entry
all_routes =
    auth_routes ++ tenant_routes ++ message_routes ++ route get (word "health" ∷ []) health ∷ []

abbrev pub on_db : System → Db × Response → System × Response
on_db s (db, told) = (record s { db = db }, told)

-- The handler of a route, on the parameters of the path. None of them reads the locals.
unfoldable pub run_endpoint :
    Server → Moment → Endpoint → (String → String) → Request → System → System × Response
run_endpoint v x register_user param_of req s =
    on_db s (register_handler v.uuid v.bcrypt x req.register_request s.db)
run_endpoint v x login_user param_of req s =
    (s, login_handler v.uuid v.bcrypt (v.jwt.sign v.secret) v.expiry x req.login_request s.db)
run_endpoint v x create_tenant_endpoint param_of req s =
    create_tenant_route v.uuid x.outcome x.new_id x.now x.answers req.create_tenant_request s
run_endpoint v x list_tenants_endpoint param_of req s = (s, list_tenants_handler v.uuid x req s.db)
run_endpoint v x get_tenant_endpoint param_of req s =
    (s, get_tenant_handler v.uuid x (param_of "id") s.db)
run_endpoint v x delete_tenant_endpoint param_of req s =
    delete_tenant_route v.uuid x.outcome x.taken (param_of "id") s
run_endpoint v x update_concurrency_endpoint param_of req s =
    update_concurrency_route v.uuid x.outcome x.now (param_of "id") req.update_concurrency_request s
run_endpoint v x create_message_endpoint param_of req s =
    on_db s (create_message_handler v.uuid x req.create_message_request s.db)
run_endpoint v x list_messages_endpoint param_of req s =
    (s, list_messages_handler v.uuid v.read_cursor x req s.db)
run_endpoint v x get_message_endpoint param_of req s =
    (s, get_message_handler v.uuid x (param_of "id") req s.db)
run_endpoint v x health param_of req s = (s, answer ok_200 healthy)

abbrev pub if_next : Checked → (Locals → System × Response) → System → System × Response
if_next (next l) go s = go l
if_next (halt told) go s = (s, told)

-- What a request runs through, in the order of registration, as Fiber documents it: the first route that
-- answers it ends the walk.
unfoldable pub dispatch :
    Server → Moment → List Entry → Request → Locals → System → System × Response
dispatch v x [] req l s = (s, error_handler (v.fiber.unmatched req.method req.path))
dispatch v x (guarded p ∷ rest) req l s =
    if v.fiber.under p req.path
    then if_next (jwt_middleware v.jwt v.secret x.now req.authorization)
        (λ l'. dispatch v x rest req l' s) s
    else dispatch v x rest req l s
dispatch v x (route m p e ∷ rest) req l s = elim (v.fiber.params m p req.method req.path) [
  | none ↦ dispatch v x rest req l s
  | some param_of ↦ run_endpoint v x e param_of req s
]

-- A request to the application.
unfoldable pub serve : Server → Moment → Request → System → System × Response
serve v x req s = dispatch v x all_routes req (record { user = none; tenant_id = none }) s
