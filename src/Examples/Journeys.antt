-- ===== src/Examples/Journeys.antt =====
-- The theorems on the process as a whole and on the way of a message, at a request for a tenant, a
-- delivery and an item.
use multi_tenant_messaging.Examples.Web.{server, at_ten, bakery_request, eve_claims}
use multi_tenant_messaging.Json.{end, object, end}
use multi_tenant_messaging.Base.{
  List, String, if◌then◌else◌, str_eq, refl, ◌∷◌, true, [], arith, ◌≡◌, ◌++◌,
}
use multi_tenant_messaging.Boot.{boot}
use multi_tenant_messaging.Config.{get_env_as_int, load, get_env}
use multi_tenant_messaging.Http.Request.{Request}
use multi_tenant_messaging.Middleware.{jwt_middleware}
use multi_tenant_messaging.Tenants.{find_tenant}
use multi_tenant_messaging.Base.Text.{split_space}
use multi_tenant_messaging.Boot.Process.{
  Happening, requested, consumed, main_process, happen_all, began, finished, attempted, buried,
}
use multi_tenant_messaging.Examples.Sessions.{note_later}
use multi_tenant_messaging.Integrity.Database.{IsDatabase}
use multi_tenant_messaging.Integrity.Ending.{Ended, main_process-Ended}
use multi_tenant_messaging.Examples.{
  shop_db, idle_broker, exact_scale, letter, burial, willing, consumer, running_system,
  one_tenant-IsRegistry,
}
use multi_tenant_messaging.Examples.Setups.{surroundings, started}
use multi_tenant_messaging.Router.Admitted.{find_route}
use multi_tenant_messaging.Connection.{connect, new_connection}
use multi_tenant_messaging.Db.{find_row, completed, applied}
use multi_tenant_messaging.Manager.{get_consumer}
use multi_tenant_messaging.Base.Assoc.{lookup}
use multi_tenant_messaging.Examples.Deliveries.{eager, letter_body}
use multi_tenant_messaging.Integrity.Routes.{IsSound}
use multi_tenant_messaging.Pool.{submit, has_room}
use multi_tenant_messaging.Amqp.{Publishing, ok, publish}
use multi_tenant_messaging.Integrity.Run.{boot-IsSound}
use multi_tenant_messaging.Publisher.{publish_to_tenant}
use multi_tenant_messaging.Examples.Retries.{third_time}
use multi_tenant_messaging.Delivery.{item_of, process_message, acked}
use multi_tenant_messaging.Topology.{main_queue}
use multi_tenant_messaging.Messages.{MessageResponse, decoded}
use multi_tenant_messaging.Router.{serve}
use multi_tenant_messaging.Journey.{after_work, published_completes}
use multi_tenant_messaging.Http.{answer, ok_200, message_body}
use multi_tenant_messaging.Middleware.Bearer.{locals_of}
use multi_tenant_messaging.Routes.Steps.{deletes, to_stop}
use multi_tenant_messaging.Retry.{simulated}

abbrev day : List Happening
day =
    requested at_ten bakery_request
    ∷ began (deletes applied "aaa")
    ∷ consumed eager true "aaa" letter_body
    ∷ finished willing 0 (to_stop "aaa")
    ∷ attempted (item_of consumer letter) (third_time 2)
    ∷ buried (item_of consumer letter) simulated burial
    ∷ []

pub shop_db-IsDatabase : IsDatabase shop_db
unfolding find_tenant
shop_db-IsDatabase = record {
  tenants = (refl, refl, tt);
  messages = tt;
  users = tt;
  references = tt;
}

boot-IsSound_example : IsSound (happen_all server day started.system)
unfolding boot load get_env get_env_as_int connect new_connection
boot-IsSound_example =
    boot-IsSound surroundings server shop_db idle_broker 3 50 day {r = started} refl
      (refl, omega arith) (refl, omega arith) (omega arith) shop_db-IsDatabase

main_process-Ended_example :
    Ended surroundings server shop_db idle_broker
      (λ port. true)
      day
      (main_process surroundings server shop_db idle_broker (λ port. true) day (λ k. 1) [])
unfolding get_env_as_int
main_process-Ended_example =
    main_process-Ended surroundings server shop_db idle_broker (λ port. true) 3 50 day (λ k. 1)
      (refl, omega arith) (refl, omega arith) (omega arith) shop_db-IsDatabase

abbrev letter_request : Request
letter_request = record note_later { path = "/api/v1/messages/aa" }

abbrev letter_id : String → String
letter_id k = if str_eq k "id" then "aa" else ""

published_completes_example :
    (q : Publishing) × (publish_to_tenant "aaa" letter willing idle_broker
      ≡ (ok tt, record idle_broker { accepted = [] ++ publish (main_queue "aaa") q ∷ [] }))
    × ((process_message eager true consumer q.body).1 ≡ acked)
    × ((r : MessageResponse) × ((serve server at_ten letter_request (
            after_work server exact_scale 4 third_time burial
              (item_of consumer letter)
              running_system)).1
          ≡ answer ok_200 (message_body r))
        × (r.id ≡ "aa")
        × (r.status ≡ completed)
        × (r.payload ≡ decoded (object end)))
unfolding jwt_middleware split_space find_route find_row get_consumer lookup submit has_room
published_completes_example =
    published_completes server exact_scale 4 third_time burial at_ten letter_request letter_id
      running_system "aaa" letter (object end) willing eager true {c = consumer} {i = 1} {t = 2}
      refl refl refl (λ q. refl) one_tenant-IsRegistry refl refl refl refl refl tt
      ((locals_of eve_claims, refl), refl) refl refl refl refl refl refl
