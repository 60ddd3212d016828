-- ===== src/Router/Admitted.antt =====
-- What a request with a valid token reaches.
use multi_tenant_messaging.Base.{
  List, Option, String, none, ◌≡◌, ◌∷◌, some, Bool-cases, Option-cases, inl, inr, refl,
}
use multi_tenant_messaging.Router.{
  Server, serve, Entry, Endpoint, all_routes, dispatch, guarded, Segment, route, run_endpoint,
  FiberRouter,
}
use multi_tenant_messaging.Http.Request.{Moment, Request, Method}
use multi_tenant_messaging.Routes.{System}
use multi_tenant_messaging.Middleware.{Locals, jwt_middleware, next}
use multi_tenant_messaging.Http.{Response, error_handler}
use mathlib.Core.List.{[]}

-- The first route of the table that answers a request, with the path's parameters.
unfoldable pub find_route :
    FiberRouter → List Entry → Request → Option (Endpoint × (String → String))
find_route f [] req = none
find_route f (guarded p ∷ rest) req = find_route f rest req
find_route f (route m p e ∷ rest) req = elim (f.params m p req.method req.path) [
  | none ↦ find_route f rest req
  | some param_of ↦ some (e, param_of)
]

abbrev pub run_found :
    Server → Moment → Request → System → Option (Endpoint × (String → String)) → System × Response
run_found v x req s none = (s, error_handler (v.fiber.unmatched req.method req.path))
run_found v x req s (some (e, param_of)) = run_endpoint v x e param_of req s

module _ (v : Server) (x : Moment) (req : Request) (s : System) (allowed : Locals)
    (passes : jwt_middleware v.jwt v.secret x.now req.authorization ≡ next allowed) where
  dispatch_guarded :
      (p : List Segment) (rest : List Entry) (l : Locals)
      → ((l' : Locals)
          → dispatch v x rest req l' s ≡ run_found v x req s (find_route v.fiber rest req))
      → dispatch v x (guarded p ∷ rest) req l s ≡ run_found v x req s (find_route v.fiber rest req)
  unfolding dispatch
  dispatch_guarded p rest l go = elim (Bool-cases (v.fiber.under p req.path)) [
    | inl h ↦ rw (h, passes) (go allowed)
    | inr h ↦ rw h (go l)
  ]

  dispatch_route :
      (m : Method) (p : List Segment) (e : Endpoint) (rest : List Entry) (l : Locals)
      → dispatch v x rest req l s ≡ run_found v x req s (find_route v.fiber rest req)
      → dispatch v x (route m p e ∷ rest) req l s
        ≡ run_found v x req s (find_route v.fiber (route m p e ∷ rest) req)
  unfolding dispatch find_route
  dispatch_route m p e rest l go = elim (Option-cases (v.fiber.params m p req.method req.path)) [
    | inl h ↦ rw (h, dispatch, find_route) go
    | inr (param_of, h) ↦ rw (h, dispatch, find_route) refl
  ]

  dispatch_admitted :
      (t : List Entry) (l : Locals)
      → dispatch v x t req l s ≡ run_found v x req s (find_route v.fiber t req)
  unfolding dispatch find_route
  dispatch_admitted [] l = refl
  dispatch_admitted (guarded p ∷ rest) l = dispatch_guarded p rest l (dispatch_admitted rest)
  dispatch_admitted (route m p e ∷ rest) l = dispatch_route m p e rest l (dispatch_admitted rest l)

-- A request with a valid token runs the first route that answers it.
pub serve_admitted :
    (v : Server) (x : Moment) (req : Request) (s : System) {l : Locals}
    → jwt_middleware v.jwt v.secret x.now req.authorization ≡ next l
    → serve v x req s ≡ run_found v x req s (find_route v.fiber all_routes req)
unfolding serve
serve_admitted v x req s {l} passes =
    dispatch_admitted v x req s l passes all_routes (record { user = none; tenant_id = none })
