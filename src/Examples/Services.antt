-- ===== src/Examples/Services.antt =====
-- The theorems on tenants, messages and routes at small tables.
use mathlib.Core.List.{Perm}
use multi_tenant_messaging.Base.{some, none, ◌≡◌, map, refl, ◌∷◌, [], arith, false, List}
use multi_tenant_messaging.Db.{Db, applied, Outcome, refused}
use multi_tenant_messaging.Messages.{
  CursorPaginationResponse, MessageResponse, matching, order_rows, message_response, new_message,
  instant, place,
}
use multi_tenant_messaging.Routes.{update_concurrency_route, delete_tenant_route}
use multi_tenant_messaging.Routes.Deletion.{Deleted, delete_tenant_route_cases}
use multi_tenant_messaging.Tenants.{
  CreateTenantRequest, TenantResponse, update_tenant_concurrency, find_tenant, by_creation,
  new_tenant, tenant_response,
}
use multi_tenant_messaging.Base.Int.{pos}
use multi_tenant_messaging.Examples.{
  shop_db, unary_ids, running_system, config-IsConfigured, one_tenant-IsRegistry, consumer,
}
use multi_tenant_messaging.Manager.{update_concurrency}
use multi_tenant_messaging.Messages.Walk.{walk, walk_complete}
use multi_tenant_messaging.Base.Assoc.{lookup}
use multi_tenant_messaging.Json.{null}
use multi_tenant_messaging.Routes.Consistency.{Updated, update_concurrency_route_agrees}
use multi_tenant_messaging.Tenants.Replay.{
  updates, store_of, history, TenantCall, replay, creates, history-replay, deletes,
}
use multi_tenant_messaging.Tenants.Pages.{page_through, page_through_complete}
use multi_tenant_messaging.Tenants.Creation.{IsNewestFirst}

abbrev bakery : CreateTenantRequest
bakery = record { name = "bakery"; workers = pos 60 }

abbrev bakery_answer : TenantResponse
bakery_answer = record {
  id = "aaaaaaa";
  name = "bakery";
  workers = pos 3;
  created_at = 8;
  updated_at = 8;
}

abbrev resized_shop : TenantResponse
resized_shop = record { id = "aaa"; name = "shop"; workers = pos 9; created_at = 5; updated_at = 8 }

abbrev new_answer : MessageResponse
new_answer = message_response unary_ids (new_message 4 2 9 null)

abbrev two_messages : Db
two_messages = record shop_db {
  messages = new_message 4 2 3_000_000 null ∷ new_message 5 2 7_000_000 null ∷ [];
}

abbrev old_page : CursorPaginationResponse
old_page = record {
  data_page = message_response unary_ids (new_message 4 2 3_000_000 null) ∷ [];
  next_cursor = instant 3_000_000;
  has_more = false;
}

walk_complete_example :
    walk unary_ids "aaa" (pos 1) two_messages 2
    ≡ map (message_response unary_ids) (order_rows (matching (some 2) none two_messages.messages))
unfolding matching order_rows place
walk_complete_example =
    walk_complete unary_ids "aaa" (pos 1) two_messages {tenant = some 2} refl 2
      (refl, (λ e. omega (arith, e), tt), (refl, tt, tt)) (omega arith)

delete_tenant_route_cases_example :
    Deleted unary_ids "aaa" running_system
      (delete_tenant_route unary_ids applied 0 "aaa" running_system)
delete_tenant_route_cases_example =
    delete_tenant_route_cases unary_ids applied 0 "aaa" running_system {i = 2} refl
      one_tenant-IsRegistry

update_concurrency_route_agrees_example :
    Updated unary_ids 50 "aaa"
      (pos 9)
      (update_concurrency_route unary_ids applied 8 "aaa" (some (pos 9)) running_system).0
unfolding update_concurrency_route update_tenant_concurrency update_concurrency lookup find_tenant
update_concurrency_route_agrees_example =
    update_concurrency_route_agrees unary_ids applied 8 "aaa" (pos 9) running_system
      (config-IsConfigured (("aaa", consumer) ∷ [])) {i = 2} refl one_tenant-IsRegistry refl

abbrev some_calls : List (Outcome × TenantCall)
some_calls =
    (applied, creates 6 8 bakery)
    ∷ (refused, deletes "aaa")
    ∷ (applied, updates 9 "aaa" (pos 9))
    ∷ []

history-replay_example :
    store_of (history unary_ids some_calls shop_db).0
    ≡ replay unary_ids (history unary_ids some_calls shop_db).1 (store_of shop_db)
history-replay_example = history-replay unary_ids some_calls shop_db (refl, (refl, (refl, tt)))

abbrev two_tenants : Db
two_tenants = record shop_db {
  tenants =
      new_tenant 4 9 (record { name = "bakery"; workers = pos 2 })
      ∷ new_tenant 2 5 (record { name = "shop"; workers = pos 3 })
      ∷ [];
}

page_through_complete_example :
    (page_through unary_ids (λ k i. i) 1 two_tenants 0 2
      ≡ map (tenant_response unary_ids) (by_creation (λ i. 0) two_tenants.tenants))
    × IsNewestFirst (by_creation (λ i. 0) two_tenants.tenants)
    × Perm (by_creation (λ i. 0) two_tenants.tenants) two_tenants.tenants
unfolding by_creation
page_through_complete_example =
    page_through_complete unary_ids (λ k i. i) 1 2 two_tenants (λ i. 0) (omega arith) (omega arith)
      ((λ e. absurd (omega (arith, e)), tt), (tt, tt)) (omega arith)
