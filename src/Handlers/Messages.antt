-- ===== src/Handlers/Messages.antt =====
-- internal/handler/message_handler.go: `MessageHandler`. `encodeCursor` and `decodeCursor` there are called by nothing.
use multi_tenant_messaging.Base.{String, if◌then◌else◌, Option, str_eq, none, some}
use multi_tenant_messaging.Base.Int.{ℤ, ltb_ℤ, pos}
use multi_tenant_messaging.Db.{Db, UuidFormat}
use multi_tenant_messaging.Tenants.{Answer, good, bad}
use multi_tenant_messaging.Http.{
  Response, answer, bad_request_400, created_201, ok_200, error_text, message_body, page_body,
  internal_error_500, service_failed,
}
use multi_tenant_messaging.Http.Request.{Moment, Request}
use multi_tenant_messaging.Messages.{
  Cursor, CursorPaginationResponse, MessageResponse, CreateMessageRequest, list_messages,
  get_message, create_message,
}
use multi_tenant_messaging.Handlers.Tenants.{not_found_or}

abbrev bad_request : String → Response
bad_request text = answer bad_request_400 (error_text text)

abbrev pub message_created_or : Db × Answer MessageResponse → Db × Response
message_created_or (db, good m) = (db, answer created_201 (message_body m))
message_created_or (db, bad e) = (db, answer internal_error_500 (service_failed e))

-- `CreateMessage`
unfoldable pub create_message_handler :
    UuidFormat → Moment → Option CreateMessageRequest → Db → Db × Response
create_message_handler u x body db = elim body [
  | none ↦ (db, bad_request "invalid request body")
  | some req ↦
      if u.parse req.tenant_id
      then elim req.payload [
        | none ↦ (db, bad_request "payload is required")
        | some p ↦
            message_created_or (create_message u x.outcome x.new_id x.now req.tenant_id (some p) db)
      ]
      else (db, bad_request "invalid tenant_id")
]

-- The two tests on `limit`.
abbrev pub clamp_limit : ℤ → ℤ
clamp_limit limit =
    let capped = if ltb_ℤ (pos 100) limit then pos 100 else limit in
    if ltb_ℤ capped (pos 1) then pos 1 else capped

abbrev pub page_or : Answer CursorPaginationResponse → Response
page_or (good p) = answer ok_200 (page_body p)
page_or (bad e) = answer internal_error_500 (service_failed e)

-- `ListMessages`; `read_cursor` is `time.Parse(time.RFC3339, …)`.
unfoldable pub list_messages_handler :
    UuidFormat → (String → Cursor) → Moment → Request → Db → Response
list_messages_handler u read_cursor x req db = page_or (
    list_messages u x.served (req.query "tenant_id") (read_cursor (req.query "cursor"))
      (clamp_limit (req.query_int "limit" (pos 20))) db)

abbrev pub message_or : Answer MessageResponse → Response
message_or (good m) = answer ok_200 (message_body m)
message_or (bad e) = not_found_or "message not found" e

-- `GetMessage`
unfoldable pub get_message_handler : UuidFormat → Moment → String → Request → Db → Response
get_message_handler u x id req db =
    let tenant_id = req.query "tenant_id" in
    if u.parse id
    then if str_eq tenant_id ""
      then bad_request "tenant_id is required"
      else if u.parse tenant_id
      then message_or (get_message u x.served id tenant_id db)
      else bad_request "invalid tenant_id"
    else bad_request "invalid message id"
