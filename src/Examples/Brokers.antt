-- ===== src/Examples/Brokers.antt =====
-- The theorems on queues and publications at concrete brokers.
use multi_tenant_messaging.Base.{some, ◌∷◌, ◌≡◌, ◌≢◌, [], ◌⊎◌, String}
use multi_tenant_messaging.Amqp.{ok}
use multi_tenant_messaging.Amqp.Requests.{AllAccepted, Refused}
use multi_tenant_messaging.Json.{null}
use multi_tenant_messaging.Publisher.{OutgoingMessage, publish_batch}
use multi_tenant_messaging.Publisher.Batch.{BatchResult, publish_batch_atomic}
use multi_tenant_messaging.Topology.{main_queue, dl_queue, declare_tenant_queues, dlx_name}
use multi_tenant_messaging.Base.Int.{pos}
use multi_tenant_messaging.Examples.{tired, idle_broker}
use multi_tenant_messaging.Topology.Declared.{tenant_requests, declare_tenant_queues_all_or_prefix}
use multi_tenant_messaging.Topology.Names.{tenant_names_disjoint}

tenant_names_disjoint_example :
    (main_queue "a" ≡ main_queue "b" → ◌≡◌ {A = String} "a" "b")
    × (dl_queue "a" ≡ dl_queue "b" → ◌≡◌ {A = String} "a" "b")
    × (dlx_name "a" ≡ dlx_name "b" → ◌≡◌ {A = String} "a" "b")
    × (main_queue "a" ≢ dl_queue "b")
tenant_names_disjoint_example = tenant_names_disjoint "a" "b"

declare_tenant_queues_all_or_prefix_example :
    AllAccepted
      (λ r. r ≡ ok (main_queue "a", dl_queue "a"))
      (tenant_requests "a" (pos 5))
      idle_broker
      (declare_tenant_queues (pos 5) "a" tired idle_broker)
    ⊎ Refused
        (tenant_requests "a" (pos 5))
        tired
        idle_broker
        (declare_tenant_queues (pos 5) "a" tired idle_broker)
declare_tenant_queues_all_or_prefix_example =
    declare_tenant_queues_all_or_prefix (pos 5) "a" tired idle_broker

abbrev note : OutgoingMessage
note = record { id = "m"; tenant_id = "a"; payload = some null; timestamp = pos 1 }

publish_batch_atomic_example :
    BatchResult "a"
      (note ∷ note ∷ [])
      idle_broker
      (publish_batch "a" (note ∷ note ∷ []) tired idle_broker)
publish_batch_atomic_example = publish_batch_atomic "a" (note ∷ note ∷ []) tired idle_broker
