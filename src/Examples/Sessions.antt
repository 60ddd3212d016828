-- ===== src/Examples/Sessions.antt =====
-- The theorems on requests and on the end of the process, at a small router, one token and one tenant.
use multi_tenant_messaging.Base.{
  String, if◌then◌else◌, ◌∷◌, ◌≡◌, [], none, some, str_eq, true, ltb, refl, ◌*◌, ◌+◌, ◌/◌, ◌⊎◌,
}
use multi_tenant_messaging.Http.Request.{post, Request}
use multi_tenant_messaging.Auth.{get_by_username, login, find_user, User, granted, to_response}
use multi_tenant_messaging.Middleware.{jwt_middleware, next, halt}
use multi_tenant_messaging.Router.{serve, dispatch, run_endpoint}
use mathlib.Core.List.{[]}
use multi_tenant_messaging.Examples.Accounts.{eve, plain, eve_db}
use multi_tenant_messaging.Http.{
  answer, ok_200, unauthorized_401, error_text, page_body, message_body, tenant_body,
}
use multi_tenant_messaging.Routes.{create_tenant_route}
use multi_tenant_messaging.Base.Int.{pos, int64}
use multi_tenant_messaging.Db.{find_row, pending}
use multi_tenant_messaging.Examples.{
  running_system, unary_ids, shop_db, config-IsConfigured, consumer,
}
use multi_tenant_messaging.Messages.{
  no_cursor, MessageResponse, decoded, order_rows, matching, message_response, cursor_time,
  new_message, create_message,
}
use multi_tenant_messaging.Json.{null}
use multi_tenant_messaging.Middleware.Bearer.{locals_of, middleware-login}
use multi_tenant_messaging.Tenants.{TenantResponse, create_tenant}
use multi_tenant_messaging.Base.Text.{split_space}
use multi_tenant_messaging.Router.Admitted.{find_route}
use multi_tenant_messaging.Router.Guard.{Sealed, HasToken, serve_guarded}
use multi_tenant_messaging.Handlers.Messages.{list_messages_handler, create_message_handler}
use multi_tenant_messaging.Manager.{spawn_consumer, make_consumer, clamp_spawn}
use multi_tenant_messaging.Messages.Page.{first_page}
use multi_tenant_messaging.Handlers.Limits.{within, list_messages_handler_page}
use multi_tenant_messaging.Base.Assoc.{lookup}
use multi_tenant_messaging.Router.Sessions.{serve-create_message, serve-create_tenant}
use multi_tenant_messaging.Topology.{declare_tenant_queues}
use multi_tenant_messaging.Pool.{new_worker_pool}
use multi_tenant_messaging.Routes.Consistency.{Agree}
use multi_tenant_messaging.Boot.{Running}
use multi_tenant_messaging.Examples.Setups.{started}
use multi_tenant_messaging.Examples.Web.{
  eve_tokens, server, at_ten, blank, bearer, bakery_request, eve_claims,
}

middleware-login_example :
    (user : User) × (get_by_username unary_ids true "eve" eve_db ≡ granted user)
    × (plain.verify user.password_hash "secret" ≡ true)
    × (jwt_middleware eve_tokens "s" 10 "bearer token" ≡ (
        if ltb 10 ((9 + 10_000_000) / 1_000_000 * 1_000_000)
        then next (record {
          user = some (record {
            user_id = user.id;
            username = user.username;
            tenant_id = user.tenant_id;
            role = user.role;
            expires_at = (9 + 10_000_000) / 1_000_000;
            issued_at = 9 / 1_000_000;
          });
          tenant_id = some user.tenant_id;
        })
        else halt (answer unauthorized_401 (error_text "invalid token"))))
unfolding login get_by_username find_user split_space
middleware-login_example =
    middleware-login unary_ids plain eve_tokens "s" true 9 10_000_000 10 "eve" "secret" eve_db
      "bearer token" {r = record { token = "token"; token_type = "Bearer"; user = to_response eve }}
      refl ("bearer", refl, refl)

serve_guarded_example :
    HasToken server at_ten (record bakery_request { authorization = "" })
    ⊎ Sealed running_system
        (serve server at_ten (record bakery_request { authorization = "" }) running_system)
serve_guarded_example =
    serve_guarded server at_ten (record bakery_request { authorization = "" }) running_system

abbrev bakery_answer : TenantResponse
bakery_answer = record {
  id = "aaaaaaa";
  name = "bakery";
  workers = pos 3;
  created_at = 10;
  updated_at = 10;
}

abbrev bakery_id : String → String
bakery_id k = if str_eq k "id" then "aaaaaaa" else ""

serve-create_tenant_example :
    ((serve server at_ten
        (record bearer { path = "/api/v1/tenants/aaaaaaa" })
        (serve server at_ten bakery_request running_system).0).1
      ≡ answer ok_200 (tenant_body bakery_answer))
    × Agree server.uuid 50 3 (serve server at_ten bakery_request running_system).0 bakery_answer
    × (bakery_answer.name ≡ "bakery")
unfolding jwt_middleware split_space find_route serve dispatch run_endpoint create_tenant_route
    create_tenant spawn_consumer make_consumer lookup clamp_spawn declare_tenant_queues
    new_worker_pool int64
serve-create_tenant_example =
    serve-create_tenant server at_ten at_ten bakery_request
      (record bearer { path = "/api/v1/tenants/aaaaaaa" }) running_system (λ k. "") bakery_id
      {body = record { name = "bakery"; workers = pos 60 }} {t = bakery_answer}
      (config-IsConfigured (("aaa", consumer) ∷ [])) refl ((locals_of eve_claims, refl), refl)
      ((locals_of eve_claims, refl), refl) refl refl refl refl

abbrev pub note_request : Request
note_request = record bearer {
  method = post;
  path = "/api/v1/messages";
  create_message_request = some (record { tenant_id = "aaa"; payload = some null });
}

abbrev pub note_later : Request
note_later = record bearer {
  path = "/api/v1/messages/aaaaaaa";
  query = λ k. if str_eq k "tenant_id" then "aaa" else "";
}

abbrev note : MessageResponse
note = message_response unary_ids (new_message 6 2 10 null)

serve-create_message_example :
    ((serve server at_ten note_later (serve server at_ten note_request running_system).0).1
      ≡ answer ok_200 (message_body note))
    × (note.status ≡ pending)
    × (note.payload ≡ decoded null)
    × ((serve server at_ten note_request running_system).0.manager ≡ running_system.manager)
    × ((serve server at_ten note_request running_system).0.broker ≡ running_system.broker)
unfolding jwt_middleware split_space find_route serve dispatch run_endpoint create_message_handler
    create_message find_row
serve-create_message_example =
    serve-create_message server at_ten at_ten note_request note_later running_system (λ k. "")
      bakery_id "aaa" null {t = 2} {m = note} refl ((locals_of eve_claims, refl), refl)
      ((locals_of eve_claims, refl), refl) refl refl refl refl refl refl refl refl

list_messages_handler_page_example :
    let rows = order_rows (matching none (cursor_time no_cursor) shop_db.messages) in
    list_messages_handler unary_ids (λ s. no_cursor) at_ten blank shop_db
    ≡ answer ok_200 (page_body (first_page unary_ids (within (pos 20)) rows))
list_messages_handler_page_example =
    list_messages_handler_page unary_ids (λ s. no_cursor) at_ten blank shop_db {tenant = none} refl
      refl

abbrev at_work : Running
at_work = record started { system = running_system }
