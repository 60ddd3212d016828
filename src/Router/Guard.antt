-- ===== src/Router/Guard.antt =====
-- What a request without a valid token can reach.
use multi_tenant_messaging.Router.Public.{
  IsPublic, register_handler-IsPublic, login_handler-IsPublic, error-IsPublic,
}
use multi_tenant_messaging.Base.{
  ℕ, Bool, true, ◌≡◌, String, false, arith, refl, List, All, some, ◌∷◌, ◌⊎◌, Bool-cases,
  Option-cases, inl, ◌++◌, inr, subst, sym,
}
use multi_tenant_messaging.Http.{Response}
use multi_tenant_messaging.Router.{
  Endpoint, run_endpoint, Server, register_user, login_user, health, create_tenant_endpoint,
  list_tenants_endpoint, get_tenant_endpoint, delete_tenant_endpoint, update_concurrency_endpoint,
  create_message_endpoint, list_messages_endpoint, get_message_endpoint, Entry, Segment, guarded,
  dispatch, route, serve, api, auth_routes, tenant_routes, message_routes, word,
}
use multi_tenant_messaging.Routes.{System}
use multi_tenant_messaging.Auth.{Claims}
use multi_tenant_messaging.Http.Request.{Moment, Request, Method, get}
use multi_tenant_messaging.Middleware.{jwt_middleware, halt, Locals, Jwt, Checked, claims, next}
use mathlib.Core.List.{[]}
use mathlib.Core.Option.{none}
use multi_tenant_messaging.Middleware.Bearer.{Verdict, jwt_middleware-Verdict, Carries}

-- No consumer, no request to the broker, and no row of a tenant or a message is touched, and none is shown.
abbrev pub Sealed : System → System × Response → Type 0
Sealed s (after, told) =
    (after.manager ≡ s.manager)
    × (after.broker ≡ s.broker)
    × (after.db.tenants ≡ s.db.tenants)
    × (after.db.messages ≡ s.db.messages)
    × (after.db.dead_letters ≡ s.db.dead_letters)
    × IsPublic told.body

-- A token that parses under the server's secret.
abbrev pub HasToken : Server → Moment → Request → Type 0
HasToken v x req =
    (token : String) × (c : Claims) × Carries req.authorization token
    × (v.jwt.parse v.secret x.now token ≡ claims c)

abbrev is_open : Endpoint → Bool
is_open register_user = true
is_open login_user = true
is_open health = true
is_open _ = false

run_open :
    (v : Server) (x : Moment) (e : Endpoint) (param_of : String → String) (req : Request)
    (s : System)
    → is_open e ≡ true
    → Sealed s (run_endpoint v x e param_of req s)
unfolding run_endpoint
run_open v x register_user param_of req s h =
    let ((tenants, messages, dead), shown) =
      register_handler-IsPublic v.uuid v.bcrypt x req.register_request s.db in
    (refl, refl, tenants, messages, dead, shown)
run_open v x login_user param_of req s h = (
  refl,
  refl,
  refl,
  refl,
  refl,
  login_handler-IsPublic v.uuid v.bcrypt (v.jwt.sign v.secret) v.expiry x req.login_request s.db,
)
run_open v x health param_of req s h = (refl, refl, refl, refl, refl, tt)
run_open v x create_tenant_endpoint param_of req s h = absurd (ground (arith, h))
run_open v x list_tenants_endpoint param_of req s h = absurd (ground (arith, h))
run_open v x get_tenant_endpoint param_of req s h = absurd (ground (arith, h))
run_open v x delete_tenant_endpoint param_of req s h = absurd (ground (arith, h))
run_open v x update_concurrency_endpoint param_of req s h = absurd (ground (arith, h))
run_open v x create_message_endpoint param_of req s h = absurd (ground (arith, h))
run_open v x list_messages_endpoint param_of req s h = absurd (ground (arith, h))
run_open v x get_message_endpoint param_of req s h = absurd (ground (arith, h))

-- An entry that asks for a token on a prefix, or answers only under it, or is open.
abbrev IsBehind : List Segment → Entry → Type 0
IsBehind p (guarded q) = Unit
IsBehind p (route m r e) = (is_open e ≡ true) ⊎ ((q : List Segment) × (r ≡ p ++ q))

abbrev IsOpen : Entry → Type 0
IsOpen (guarded q) = ⊥
IsOpen (route m r e) = is_open e ≡ true

module _ (v : Server) (x : Moment) (req : Request) (s : System) {told : Response}
    (halts : jwt_middleware v.jwt v.secret x.now req.authorization ≡ halt told)
    (shown : IsPublic told.body) where
  guard-Sealed :
      (q : List Segment) (rest : List Entry) (l : Locals)
      → (v.fiber.under q req.path ≡ false → Sealed s (dispatch v x rest req l s))
      → Sealed s (dispatch v x (guarded q ∷ rest) req l s)
  unfolding dispatch
  guard-Sealed q rest l go = elim (Bool-cases (v.fiber.under q req.path)) [
    | inl h ↦ rw (h, halts) (refl, refl, refl, refl, refl, shown)
    | inr h ↦ rw h (go h)
  ]

  route-Sealed :
      (m : Method) (r : List Segment) (e : Endpoint) (rest : List Entry) (l : Locals)
      → Sealed s (dispatch v x rest req l s)
      → ((f : String → String) → v.fiber.params m r req.method req.path ≡ some f → is_open e ≡ true)
      → Sealed s (dispatch v x (route m r e ∷ rest) req l s)
  unfolding dispatch
  route-Sealed m r e rest l go open' =
      elim (Option-cases (v.fiber.params m r req.method req.path)) [
        | inl h ↦ rw (h, dispatch) go
        | inr (f, h) ↦ rw (h, dispatch) (run_open v x e f req s (open' f h))
      ]

  open_or_outside :
      (p r : List Segment) (m : Method) (e : Endpoint) (f : String → String)
      → v.fiber.under p req.path ≡ false
      → IsBehind p (route m r e)
      → v.fiber.params m r req.method req.path ≡ some f
      → is_open e ≡ true
  open_or_outside p r m e f out (inl open') h = open'
  open_or_outside p r m e f out (inr (q, same)) h = absurd (
      ground (
        arith,
        out,
        v.fiber.params-under m req.method p q req.path {f = f}
            (subst (λ z. v.fiber.params m z req.method req.path ≡ some f) same h),
      ))

  outside-Sealed :
      (p : List Segment) (t : List Entry) (l : Locals)
      → v.fiber.under p req.path ≡ false
      → All (IsBehind p) t
      → Sealed s (dispatch v x t req l s)
  unfolding dispatch
  outside-Sealed p [] l out behind = (refl, refl, refl, refl, refl, error-IsPublic _)
  outside-Sealed p (guarded q ∷ rest) l out behind =
      guard-Sealed q rest l (λ _. outside-Sealed p rest l out behind.1)
  outside-Sealed p (route m r e ∷ rest) l out behind =
      route-Sealed m r e rest l (outside-Sealed p rest l out behind.1)
        (λ f. open_or_outside p r m e f out behind.0)

  -- Open entries, a guard on a prefix, and entries behind it.
  table-Sealed :
      (p : List Segment) (before after : List Entry) (l : Locals)
      → All IsOpen before
      → All (IsBehind p) after
      → Sealed s (dispatch v x (before ++ guarded p ∷ after) req l s)
  table-Sealed p [] after l none_before behind =
      guard-Sealed p after l (λ out. outside-Sealed p after l out behind)
  table-Sealed p (guarded q ∷ before) after l opens behind = absurd (opens.0)
  table-Sealed p (route m r e ∷ before) after l opens behind =
      route-Sealed m r e (before ++ guarded p ∷ after) l
        (table-Sealed p before after l opens.1 behind) (λ f h. opens.0)

halted-IsPublic :
    (jwt : Jwt) (secret : String) (now : ℕ) (header : String) (told : Response)
    → Verdict jwt secret now header (halt told)
    → IsPublic told.body
halted-IsPublic jwt secret now header told (text, same) =
    subst (λ (r : Response). IsPublic r.body) (sym same) tt

abbrev after_first : List Entry → List Entry
after_first [] = []
after_first (e ∷ rest) = rest

guarded_routes-IsBehind :
    All
      (IsBehind api)
      (after_first (tenant_routes ++ message_routes ++ route get (word "health" ∷ []) health ∷ []))
guarded_routes-IsBehind = (
  inr (_, refl),
  (
    inr (_, refl),
    (
      inr (_, refl),
      (
        inr (_, refl),
        (inr (_, refl), (tt, (inr (_, refl), (inr (_, refl), (inr (_, refl), (inl refl, tt)))))),
      ),
    ),
  ),
)

-- Where the middleware halts a request, nothing behind it is reached.
pub serve_halted :
    (v : Server) (x : Moment) (req : Request) (s : System) {told : Response}
    → jwt_middleware v.jwt v.secret x.now req.authorization ≡ halt told
    → Sealed s (serve v x req s)
unfolding serve
serve_halted v x req s {told} halts =
    let verdict =
      subst (Verdict v.jwt v.secret x.now req.authorization) halts
        (jwt_middleware-Verdict v.jwt v.secret x.now req.authorization) in
    table-Sealed v x req s {told = told} halts
      (halted-IsPublic v.jwt v.secret x.now req.authorization told verdict) api auth_routes
      (after_first (tenant_routes ++ message_routes ++ route get (word "health" ∷ []) health ∷ []))
      (record { user = none; tenant_id = none }) (refl, (refl, tt)) guarded_routes-IsBehind

decide_token :
    (v : Server) (x : Moment) (req : Request) (s : System) (checked : Checked)
    → jwt_middleware v.jwt v.secret x.now req.authorization ≡ checked
    → Verdict v.jwt v.secret x.now req.authorization checked
    → HasToken v x req ⊎ Sealed s (serve v x req s)
decide_token v x req s (next l) e (token, c, shape, parsed, same) = inl (token, c, shape, parsed)
decide_token v x req s (halt told) e verdict = inr (serve_halted v x req s {told = told} e)

-- Whatever its method and path, a request reaches a tenant or a message only with a token, in a header that
-- starts with any spelling of "bearer", that parses under the server's secret; without one, the registry,
-- the broker and the tables of tenants, messages and dead letters stay, and the answer shows none
-- of their rows.
pub serve_guarded :
    (v : Server) (x : Moment) (req : Request) (s : System)
    → HasToken v x req ⊎ Sealed s (serve v x req s)
serve_guarded v x req s =
    decide_token v x req s (jwt_middleware v.jwt v.secret x.now req.authorization) refl
      (jwt_middleware-Verdict v.jwt v.secret x.now req.authorization)
