-- ===== src/Journey.antt =====
-- A message on its whole way: `PublishMessage` and `processMessage` of internal/tenant/manager.go, `processWork` of
-- internal/tenant/worker_pool.go, and the request for the message's row.
use multi_tenant_messaging.Db.{UuidFormat, MessageRow, Db, find_row, completed}
use multi_tenant_messaging.Json.{Json, value, Message, fits_int64}
use multi_tenant_messaging.Router.{Server, run_endpoint, get_message_endpoint, serve}
use multi_tenant_messaging.Base.{
  String, ℕ, ◌≡◌, some, false, true, suc, ◌∙◌, refl, subst, Bool, ◌++◌, ◌∷◌, [], if◌then◌else◌, ap,
}
use multi_tenant_messaging.Http.Request.{Moment, Request}
use multi_tenant_messaging.Retry.{FloatScale, Attempt, Burial, process_work}
use multi_tenant_messaging.Pool.{WorkItem, Select, submit, accepted}
use multi_tenant_messaging.Retry.Payload.{HasPayload, process_work-KeepsPayload, KeepsPayload}
use multi_tenant_messaging.Retry.Attempts.{any_from, succeeds}
use multi_tenant_messaging.Handlers.Messages.{get_message_handler}
use multi_tenant_messaging.Http.{answer, ok_200, message_body, Response}
use multi_tenant_messaging.Base.Int.{pos}
use multi_tenant_messaging.Messages.{message_response, MessageResponse, decoded}
use multi_tenant_messaging.Handlers.Roundtrip.{get_handler_parsed}
use multi_tenant_messaging.Retry.Completion.{process_work-HasCompleted}
use multi_tenant_messaging.Messages.Create.{get_message_read}
use multi_tenant_messaging.Manager.{get_consumer, TenantConsumer}
use multi_tenant_messaging.Routes.{System}
use multi_tenant_messaging.Amqp.{Answers, Command, Publishing, ok, publish}
use multi_tenant_messaging.Manager.Registry.{IsRegistry, IsActive}
use multi_tenant_messaging.Delivery.{item_of, process_message, acked, ack_failed, Reply}
use multi_tenant_messaging.Router.Sessions.{Reaches, serve-Reaches}
use multi_tenant_messaging.Publisher.{publish_to_tenant}
use multi_tenant_messaging.Topology.{main_queue}
use multi_tenant_messaging.Delivery.Roundtrip.{published_is_delivered}
use multi_tenant_messaging.Base.Assoc.{lookup-AllEntries}
use multi_tenant_messaging.Delivery.Replies.{reply_to-accepted}
use multi_tenant_messaging.Db.Rows.{find_row_key}

get_told :
    (u : UuidFormat) (y : Moment) (id : String) (req : Request) (db : Db) (i t : ℕ)
    (row : MessageRow)
    → u.parse "" ≡ false
    → u.parse id ≡ true
    → u.parse (req.query "tenant_id") ≡ true
    → u.read id ≡ some i
    → u.read (req.query "tenant_id") ≡ some t
    → y.served ≡ true
    → find_row i t db.messages ≡ some row
    → get_message_handler u y id req db ≡ answer ok_200 (message_body (message_response u row))
get_told u y id req db i t row empty fine own id_read tenant_read up found =
    get_handler_parsed u y id req db empty fine own
    ∙ rw (up, get_message_read u db t i id (req.query "tenant_id") id_read tenant_read, found) refl

module _ (v : Server) (f : FloatScale) (n : ℕ) (env : ℕ → Attempt) (b : Burial) where
  -- What a worker leaves of an item whose attempts do not all fail.
  processed_row :
      (item : WorkItem) (db : Db) (p : Json) (i t : ℕ)
      → item.payload ≡ value p
      → v.uuid.read item.message_id ≡ some i
      → v.uuid.read item.tenant_id ≡ some t
      → any_from (λ k. succeeds v.uuid item (env k)) (suc n) 0 ≡ true
      → KeepsPayload i t p db
      → (row : MessageRow) × (find_row i t (process_work v.uuid f (pos n) env b item db).messages
          ≡ some row)
        × (row.status ≡ completed)
        × (row.payload ≡ p)
  processed_row item db p i t same id_read tenant_read succeeded carries =
      let ((row, found, done), _) =
        process_work-HasCompleted v.uuid f n env b item db id_read tenant_read succeeded in
      (
        row,
        found,
        done,
        subst (HasPayload p) found
            (process_work-KeepsPayload i t p v.uuid f (pos n) env b item db same carries),
      )

  -- The system after a worker has processed an item.
  abbrev pub after_work : WorkItem → System → System
  after_work item s = record s { db = process_work v.uuid f (pos n) env b item s.db }

  -- A message with a JSON payload and a timestamp of 64 bits that is published to a tenant over a working broker
  -- is one request, to the tenant's main queue. Its delivery to the tenant's consumer in a registry of running
  -- consumers, whose pool takes it, is acknowledged, or the acknowledgement fails. Once a worker has
  -- processed the item that the pool got, with one attempt of 0 to `maxRetry` that succeeds, `GET
  -- /messages/:id` on the message's id and the tenant answers 200 with the message as completed, with its
  -- payload as `json.Unmarshal` reads it into an `interface{}`. The ids read as UUIDs, which `uuid.Parse` accepts and the empty text not; a row that was there
  -- before, as after `POST /messages`, has the same payload; and the request has a valid token and its
  -- look-up is answered.
  pub published_completes :
      (y : Moment) (later : Request) (g : String → String) (s : System) (k : String) (m : Message)
      (p : Json) (w : Answers) (choice : Select) (works : Bool) {c : TenantConsumer} {i t : ℕ}
      → fits_int64 m.timestamp ≡ true
      → m.payload ≡ value p
      → w.opens ≡ true
      → ((q : Command) → w.accepts s.broker.accepted q ≡ true)
      → IsRegistry s.manager
      → get_consumer s.manager k ≡ some c
      → (submit choice c.worker_pool (item_of c m)).1 ≡ accepted
      → v.uuid.read m.id ≡ some i
      → v.uuid.read k ≡ some t
      → any_from (λ j. succeeds v.uuid (item_of c m) (env j)) (suc n) 0 ≡ true
      → KeepsPayload i t p s.db
      → Reaches v y later get_message_endpoint g
      → g "id" ≡ m.id
      → later.query "tenant_id" ≡ k
      → v.uuid.parse "" ≡ false
      → v.uuid.parse m.id ≡ true
      → v.uuid.parse k ≡ true
      → y.served ≡ true
      → (q : Publishing) × (publish_to_tenant k m w s.broker ≡ (
        ok tt,
        record s.broker { accepted = s.broker.accepted ++ publish (main_queue k) q ∷ [] },
      ))
        × ((process_message choice works c q.body).1 ≡ (if works then acked else ack_failed))
        × ((r : MessageResponse) × ((serve v y later (after_work (item_of c m) s)).1
              ≡ answer ok_200 (message_body r))
            × (r.id ≡ v.uuid.print i)
            × (r.status ≡ completed)
            × (r.payload ≡ decoded p))
  unfolding get_consumer run_endpoint
  published_completes y later g s k m p w choice works {c} {i} {t} fits payload opens accepts reg
        there room id_read tenant_read succeeded carries reach same asked empty fine own up =
      let (q, sent, delivered) =
        published_is_delivered k m p w s.broker fits payload opens accepts in
      let active = lookup-AllEntries IsActive k c s.manager.consumers reg.active there in
      let own_read : v.uuid.read c.tenant_id ≡ some t = ap v.uuid.read active.own ∙ tenant_read in
      let (row, found, done, held) =
        processed_row (item_of c m) s.db p i t payload id_read own_read succeeded carries in
      let db = (after_work (item_of c m) s).db in
      let (kept, reply) =
        reply_to-accepted c works (submit choice c.worker_pool (item_of c m)) room in
      (
        q,
        sent,
        ap (λ (out : TenantConsumer × Reply). out.1) (delivered choice works c) ∙ reply,
        (
          message_response v.uuid row,
          ap (λ (out : System × Response). out.1)
                (serve-Reaches v y later (after_work (item_of c m) s) get_message_endpoint g reach)
              ∙ ap (λ id. get_message_handler v.uuid y id later db) same
              ∙ get_told v.uuid y m.id later db i t row empty fine (ap v.uuid.parse asked ∙ own)
                  id_read (ap v.uuid.read asked ∙ tenant_read) up found,
          ap v.uuid.print (find_row_key i t db.messages row found).0,
          done,
          ap (λ (j : Json). decoded j) held,
        ),
      )
