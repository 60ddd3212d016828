-- ===== src/Router/Sessions.antt =====
-- Runs of several requests.
use multi_tenant_messaging.Base.{ℕ, String, ◌≡◌, some, true, ◌∙◌, ap, refl, subst, sym, false}
use multi_tenant_messaging.Handlers.Tenants.{get_tenant_handler}
use multi_tenant_messaging.Router.{
  Server, run_endpoint, Endpoint, serve, create_tenant_endpoint, all_routes, get_tenant_endpoint,
  create_message_endpoint, get_message_endpoint, on_db,
}
use multi_tenant_messaging.Db.{UuidFormat, Db, Outcome, pending}
use multi_tenant_messaging.Http.Request.{Moment, Request}
use multi_tenant_messaging.Routes.{System, create_tenant_route}
use multi_tenant_messaging.Middleware.{Locals, jwt_middleware, next}
use multi_tenant_messaging.Tenants.{CreateTenantRequest, TenantResponse, get_tenant, good}
use multi_tenant_messaging.Manager.Bounds.{IsConfigured}
use multi_tenant_messaging.Router.Admitted.{serve_admitted, find_route, run_found}
use multi_tenant_messaging.Http.{
  answer, created_201, ok_200, tenant_body, Body, Response, message_body,
}
use multi_tenant_messaging.Routes.Consistency.{Agree, create_tenant_route_agrees}
use multi_tenant_messaging.Amqp.{Answers}
use multi_tenant_messaging.Json.{Json}
use multi_tenant_messaging.Messages.{MessageResponse, CreateMessageRequest, decoded}
use multi_tenant_messaging.Handlers.Messages.{create_message_handler}
use multi_tenant_messaging.Handlers.Roundtrip.{get_message_handler-create}

-- A request with a valid token for which the table has a handler, with the path's parameters.
abbrev pub Reaches : Server → Moment → Request → Endpoint → (String → String) → Type 0
Reaches v x req e param_of =
    ((l : Locals) × (jwt_middleware v.jwt v.secret x.now req.authorization ≡ next l))
    × (find_route v.fiber all_routes req ≡ some (e, param_of))

pub serve-Reaches :
    (v : Server) (x : Moment) (req : Request) (s : System) (e : Endpoint) (f : String → String)
    → Reaches v x req e f
    → serve v x req s ≡ run_endpoint v x e f req s
serve-Reaches v x req s e f ((l, passes), found) =
    serve_admitted v x req s {l = l} passes ∙ ap (run_found v x req s) found

get_handler_told :
    (u : UuidFormat) (x : Moment) (id : String) (db : Db) {t : TenantResponse}
    → u.parse id ≡ true
    → x.served ≡ true
    → get_tenant u true id db ≡ good t
    → get_tenant_handler u x id db ≡ answer ok_200 (tenant_body t)
unfolding get_tenant_handler
get_handler_told u x id db fine up got = rw (fine, up, got) refl

abbrev body_tenant : TenantResponse → Body → TenantResponse
body_tenant t (tenant_body other) = other
body_tenant t _ = t

-- The route's own answer names the tenant that row and consumer agree on.
create_route_told :
    (u : UuidFormat) (o : Outcome) (i now : ℕ) (w : Answers) (body : CreateTenantRequest)
    (s : System) (conf : IsConfigured s.manager) {t : TenantResponse}
    → (create_tenant_route u o i now w (some body) s).1 ≡ answer created_201 (tenant_body t)
    → Agree u conf.limit conf.default (create_tenant_route u o i now w (some body) s).0 t
      × (t.name ≡ body.name)
create_route_told u o i now w body s conf {t} h =
    let (made, name, told, agree) =
      create_tenant_route_agrees u o i now w body s conf (ap (λ (r : Response). r.status) h) in
    let same : made ≡ t = ap (body_tenant made) (sym told ∙ ap (λ (r : Response). r.body) h) in
    let after = (create_tenant_route u o i now w (some body) s).0 in
    subst (λ z. Agree u conf.limit conf.default after z × (z.name ≡ body.name)) same (agree, name)

serve_create :
    (v : Server) (x : Moment) (req : Request) (s : System) (f : String → String)
    {body : CreateTenantRequest}
    → req.create_tenant_request ≡ some body
    → Reaches v x req create_tenant_endpoint f
    → serve v x req s ≡ create_tenant_route v.uuid x.outcome x.new_id x.now x.answers (some body) s
unfolding run_endpoint
serve_create v x req s f {body} given reach =
    serve-Reaches v x req s create_tenant_endpoint f reach
    ∙ ap (λ b. create_tenant_route v.uuid x.outcome x.new_id x.now x.answers b s) given

-- A request that creates a tenant leaves its row and a running consumer behind.
pub serve_create_agrees :
    (v : Server) (x : Moment) (req : Request) (s : System) (f : String → String)
    {body : CreateTenantRequest} {t : TenantResponse} (conf : IsConfigured s.manager)
    → req.create_tenant_request ≡ some body
    → Reaches v x req create_tenant_endpoint f
    → (serve v x req s).1 ≡ answer created_201 (tenant_body t)
    → Agree v.uuid conf.limit conf.default (serve v x req s).0 t × (t.name ≡ body.name)
serve_create_agrees v x req s f {body} {t} conf given reach h =
    let creates = serve_create v x req s f {body = body} given reach in
    rw creates (
      create_route_told v.uuid x.outcome x.new_id x.now x.answers body s conf {t = t}
        (subst (λ (out : System × Response). out.1 ≡ answer created_201 (tenant_body t)) creates h))

-- Where `POST /tenants` answers 201 with a tenant, under a valid configuration, `GET /tenants/:id` on the
-- tenant's id answers 200 with the same tenant, and the registry holds a running consumer for it;
-- each with a valid token, and where `uuid.Parse` accepts the id and the look-up is answered.
pub serve-create_tenant :
    (v : Server) (x y : Moment) (req later : Request) (s : System) (f g : String → String)
    {body : CreateTenantRequest} {t : TenantResponse} (conf : IsConfigured s.manager)
    → req.create_tenant_request ≡ some body
    → Reaches v x req create_tenant_endpoint f
    → Reaches v y later get_tenant_endpoint g
    → (serve v x req s).1 ≡ answer created_201 (tenant_body t)
    → g "id" ≡ t.id
    → v.uuid.parse t.id ≡ true
    → y.served ≡ true
    → ((serve v y later (serve v x req s).0).1 ≡ answer ok_200 (tenant_body t))
      × Agree v.uuid conf.limit conf.default (serve v x req s).0 t
      × (t.name ≡ body.name)
unfolding run_endpoint
serve-create_tenant v x y req later s f g {body} {t} conf given reach reach_later h same fine up =
    let (agree, name) = serve_create_agrees v x req s f {body = body} {t = t} conf given reach h in
    (
      ap (λ (out : System × Response). out.1)
            (serve-Reaches v y later (serve v x req s).0 get_tenant_endpoint g reach_later)
          ∙ rw same (get_handler_told v.uuid y t.id _ {t = t} fine up agree.0),
      agree,
      name,
    )

-- Where `POST /messages` answers 201 with a message, `GET /messages/:id` on the new id and the same tenant
-- answers 200 with the same message, still pending; and the message has gone to no queue: the
-- registry, the requests to the broker and its channels are as before. Each request has a valid token, of
-- whatever tenant, the look-up is answered, and `uuid.Parse` accepts the two ids and not the empty text.
pub serve-create_message :
    (v : Server) (x y : Moment) (req later : Request) (s : System) (f g : String → String)
    (tenant_id : String) (p : Json) {t : ℕ} {m : MessageResponse}
    → req.create_message_request ≡ some (record { tenant_id = tenant_id; payload = some p })
    → Reaches v x req create_message_endpoint f
    → Reaches v y later get_message_endpoint g
    → (serve v x req s).1 ≡ answer created_201 (message_body m)
    → g "id" ≡ v.uuid.print x.new_id
    → later.query "tenant_id" ≡ tenant_id
    → v.uuid.parse "" ≡ false
    → v.uuid.parse (v.uuid.print x.new_id) ≡ true
    → v.uuid.parse tenant_id ≡ true
    → v.uuid.read tenant_id ≡ some t
    → y.served ≡ true
    → ((serve v y later (serve v x req s).0).1 ≡ answer ok_200 (message_body m))
      × (m.status ≡ pending)
      × (m.payload ≡ decoded p)
      × ((serve v x req s).0.manager ≡ s.manager)
      × ((serve v x req s).0.broker ≡ s.broker)
unfolding run_endpoint
serve-create_message v x y req later s f g tenant_id p {t} {m} given reach reach_later h same asked
      none fine own reads up =
    let body : CreateMessageRequest = record { tenant_id = tenant_id; payload = some p } in
    let creates =
      serve-Reaches v x req s create_message_endpoint f reach
      ∙ ap (λ b. on_db s (create_message_handler v.uuid x b s.db)) given in
    let (got, status, payload) =
      get_message_handler-create v.uuid x y tenant_id p later s.db {t = t} {m = m} none fine own
        reads asked up
        (subst (λ (out : System × Response). out.1 ≡ answer created_201 (message_body m)) creates
          h) in
    (
      ap (λ (out : System × Response). out.1)
            (serve-Reaches v y later (serve v x req s).0 get_message_endpoint g reach_later)
          ∙ rw (same, creates) got,
      status,
      payload,
      ap (λ (out : System × Response). out.0.manager) creates,
      ap (λ (out : System × Response). out.0.broker) creates,
    )
