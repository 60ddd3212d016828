-- ===== src/Integrity/Requests.antt =====
-- The constraints of the tables and of the registry, under every request.
use multi_tenant_messaging.Integrity.Routes.{
  IsSound, with_db, after_create-IsSound, after_delete-IsSound, after_update-IsSound,
  create_message_handler-IsDatabase, register_handler-IsDatabase,
}
use multi_tenant_messaging.Base.{String, if_elim, List, Option-cases, inl, inr, ◌∷◌}
use multi_tenant_messaging.Routes.{
  System, create_tenant_route, delete_tenant_route, update_concurrency_route,
}
use multi_tenant_messaging.Http.Request.{Moment, Request}
use multi_tenant_messaging.Integrity.Database.{
  create_tenant-IsDatabase, delete_tenant-IsDatabase, update-IsDatabase,
}
use mathlib.Core.Option.{none}
use multi_tenant_messaging.Middleware.{Checked, Locals, next, halt, jwt_middleware}
use multi_tenant_messaging.Router.{
  Server, dispatch, run_endpoint, serve, if_next, Entry, all_routes, Endpoint, guarded, route,
  register_user, login_user, create_tenant_endpoint, list_tenants_endpoint, get_tenant_endpoint,
  delete_tenant_endpoint, update_concurrency_endpoint, create_message_endpoint,
  list_messages_endpoint, get_message_endpoint, health,
}
use multi_tenant_messaging.Http.{Response}
use mathlib.Core.List.{[]}

if_next-IsSound :
    (checked : Checked) (go : Locals → System × Response) (s : System)
    → IsSound s
    → ((l : Locals) → IsSound (go l).0)
    → IsSound (if_next checked go s).0
if_next-IsSound (next l) go s w then_ = then_ l
if_next-IsSound (halt told) go s w then_ = w

module _ (v : Server) (x : Moment) where
  run_endpoint-IsSound :
      (e : Endpoint) (param_of : String → String) (req : Request) (s : System)
      → IsSound s
      → IsSound (run_endpoint v x e param_of req s).0
  unfolding run_endpoint create_tenant_route delete_tenant_route update_concurrency_route
  run_endpoint-IsSound register_user param_of req s w =
      with_db s _ w
        (register_handler-IsDatabase v.uuid x s.db w.database v.bcrypt req.register_request)
  run_endpoint-IsSound login_user param_of req s w = w
  run_endpoint-IsSound create_tenant_endpoint param_of req s w =
      elim (Option-cases req.create_tenant_request) [
        | inl e ↦ rw e w
        | inr (body, e) ↦ rw e (
            after_create-IsSound x.answers s _ w
              (create_tenant-IsDatabase v.uuid s.db w.database x.outcome x.new_id x.now body))
      ]
  run_endpoint-IsSound list_tenants_endpoint param_of req s w = w
  run_endpoint-IsSound get_tenant_endpoint param_of req s w = w
  run_endpoint-IsSound delete_tenant_endpoint param_of req s w =
      after_delete-IsSound x.taken (param_of "id") s _ w
        (delete_tenant-IsDatabase v.uuid s.db w.database x.outcome (param_of "id"))
  run_endpoint-IsSound update_concurrency_endpoint param_of req s w =
      elim (Option-cases req.update_concurrency_request) [
        | inl e ↦ rw e w
        | inr (n, e) ↦ rw e (
            after_update-IsSound (param_of "id") n s _ w
              (update-IsDatabase v.uuid s.db w.database x.outcome x.now (param_of "id") n))
      ]
  run_endpoint-IsSound create_message_endpoint param_of req s w =
      with_db s _ w
        (create_message_handler-IsDatabase v.uuid x s.db w.database req.create_message_request)
  run_endpoint-IsSound list_messages_endpoint param_of req s w = w
  run_endpoint-IsSound get_message_endpoint param_of req s w = w
  run_endpoint-IsSound health param_of req s w = w

  dispatch-IsSound :
      (t : List Entry) (req : Request) (l : Locals) (s : System)
      → IsSound s
      → IsSound (dispatch v x t req l s).0
  unfolding dispatch
  dispatch-IsSound [] req l s w = w
  dispatch-IsSound (guarded p ∷ rest) req l s w =
      if_elim (λ (out : System × Response). IsSound out.0) (v.fiber.under p req.path)
        (λ _.
          if_next-IsSound (jwt_middleware v.jwt v.secret x.now req.authorization) _ s w
            (λ l'. dispatch-IsSound rest req l' s w))
        (λ _. dispatch-IsSound rest req l s w)
  dispatch-IsSound (route m p e ∷ rest) req l s w =
      elim (Option-cases (v.fiber.params m p req.method req.path)) [
        | inl none_found ↦ rw (none_found, dispatch) (dispatch-IsSound rest req l s w)
        | inr (f, found) ↦ rw (found, dispatch) (run_endpoint-IsSound e f req s w)
      ]

  pub serve-IsSound : (req : Request) (s : System) → IsSound s → IsSound (serve v x req s).0
  unfolding serve
  serve-IsSound req s w =
      dispatch-IsSound all_routes req (record { user = none; tenant_id = none }) s w
