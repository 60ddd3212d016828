-- ===== src/Messages.antt =====
-- internal/service/tenant_service.go: `MessageService`, over the table `messages`. The column that
-- holds a payload gives back the JSON value that was stored; JSONB's normal form of it is not modelled.
pub mod Create
pub mod Page
pub mod Order
pub mod Walk
use multi_tenant_messaging.Base.{
  ℕ, List, Option, String, ◌/◌, Bool, if◌then◌else◌, ltb, none, ◌*◌, ◌∷◌, length, some, str_eq,
  take, true, ◌&&◌, ◌||◌, false, map, ◌==◌, leb, ◌+◌, suc,
}
use multi_tenant_messaging.Db.{MessageRow, Outcome, UuidFormat, Db, Status, pending, exec, find_row}
use multi_tenant_messaging.Json.{Json}
use multi_tenant_messaging.Tenants.{
  Answer, bad, good, database, no_rows, page_limit, marshal_payload,
}
use mathlib.Core.List.{[]}
use multi_tenant_messaging.Base.Int.{pos, ℤ}
use multi_tenant_messaging.Retry.{bad_payload}

-- The payload is none where the body has none, or null.
pub record CreateMessageRequest : Type 0 where
  pub tenant_id : String
  pub payload : Option Json

-- What `json.Unmarshal` makes of a stored payload in an `interface{}`, told apart from the payload itself: every
-- number is a float64 there, so that an integer beyond 2^53 may be answered rounded.
pub data AnyValue : Type 0 where
  decoded : Json → AnyValue

pub record MessageResponse : Type 0 where
  pub id : String
  pub tenant_id : String
  pub payload : AnyValue
  pub status : Status
  pub retry_count : ℤ
  pub created_at : ℕ
  pub updated_at : ℕ

-- A cursor as `time.Parse(time.RFC3339, …)` reads it: the empty text, one that is no time, or a time,
-- in microseconds, as which it is sent to the server.
pub data Cursor : Type 0 where
  no_cursor unreadable : Cursor
  instant : ℕ → Cursor

pub record CursorPaginationResponse : Type 0 where
  pub data_page : List MessageResponse  -- `Data`
  pub next_cursor : Cursor
  pub has_more : Bool

abbrev pub message_response : UuidFormat → MessageRow → MessageResponse
message_response u row = record {
  id = u.print row.id;
  tenant_id = u.print row.tenant_id;
  payload = decoded row.payload;
  status = row.status;
  retry_count = row.retry_count;
  created_at = row.created_at;
  updated_at = row.updated_at;
}

abbrev pub new_message : ℕ → ℕ → ℕ → Json → MessageRow
new_message i t now payload = record {
  id = i;
  tenant_id = t;
  payload = payload;
  status = pending;
  retry_count = pos 0;
  created_at = now;
  updated_at = now;
}

abbrev pub add_message : MessageRow → Db → Db
add_message row db = record db { messages = row ∷ db.messages }

-- The insertion of a row whose key is free.
abbrev pub insert_message : Outcome → MessageRow → Option MessageRow → Db → Db × Bool
insert_message o row none db = exec o (add_message row) db
insert_message o row (some taken) db = (db, false)

abbrev pub message_answer : UuidFormat → MessageRow → Db × Bool → Db × Answer MessageResponse
message_answer u row (db, true) = (db, good (message_response u row))
message_answer u row (db, false) = (db, bad database)

-- `CreateMessage`, with the new UUID and the time at the server. A payload that `json.Marshal`
-- refuses is `none`.
unfoldable pub create_message :
    UuidFormat → Outcome → ℕ → ℕ → String → Option Json → Db → Db × Answer MessageResponse
create_message u o i now tenant_id payload db = elim payload [
  | none ↦ (db, bad marshal_payload)
  | some p ↦ elim (u.read tenant_id) [
    | none ↦ (db, bad database)
    | some t ↦
        message_answer u (new_message i t now p)
          (insert_message o (new_message i t now p) (find_row i t db.messages) db)
  ]
]

abbrev pub message_or_none : UuidFormat → Option MessageRow → Answer MessageResponse
message_or_none u none = bad no_rows
message_or_none u (some row) = good (message_response u row)

-- `GetMessage`
pub get_message : UuidFormat → Bool → String → String → Db → Answer MessageResponse
get_message u served id tenant_id db = elim (u.read id) [
  | none ↦ bad database
  | some i ↦ elim (u.read tenant_id) [
    | none ↦ bad database
    | some t ↦ if served then message_or_none u (find_row i t db.messages) else bad database
  ]
]

-- A cursor that does not parse is ignored.
abbrev pub cursor_time : Cursor → Option ℕ
cursor_time no_cursor = none
cursor_time unreadable = none
cursor_time (instant t) = some t

-- `tenant_id = $1`, where a tenant is given.
abbrev pub is_of : Option ℕ → MessageRow → Bool
is_of none row = true
is_of (some t) row = row.tenant_id == t

-- `created_at < $2`, where a cursor is given.
abbrev pub is_before : Option ℕ → MessageRow → Bool
is_before none row = true
is_before (some time) row = ltb row.created_at time

unfoldable pub matching : Option ℕ → Option ℕ → List MessageRow → List MessageRow
matching tenant before [] = []
matching tenant before (row ∷ rows) =
    if is_of tenant row && is_before before row
    then row ∷ matching tenant before rows
    else matching tenant before rows

-- `ORDER BY created_at DESC, id DESC`; ids compare as numbers.
abbrev pub comes_first : MessageRow → MessageRow → Bool
comes_first row r =
    ltb r.created_at row.created_at || r.created_at == row.created_at && leb r.id row.id

unfoldable pub place : MessageRow → List MessageRow → List MessageRow
place row [] = row ∷ []
place row (r ∷ rows) = if comes_first row r then row ∷ r ∷ rows else r ∷ place row rows

unfoldable pub order_rows : List MessageRow → List MessageRow
order_rows [] = []
order_rows (row ∷ rows) = place row (order_rows rows)

-- `lastTime.Format(time.RFC3339)` has no fraction of a second.
abbrev pub whole_second : ℕ → ℕ
whole_second t = t / 1_000_000 * 1_000_000

abbrev pub cursor_after : List MessageRow → Cursor
cursor_after [] = no_cursor
cursor_after (row ∷ []) = instant (whole_second row.created_at)
cursor_after (row ∷ r ∷ rows) = cursor_after (r ∷ rows)

-- From the rows that the query returns, one more than the limit at most.
abbrev pub page : UuidFormat → ℕ → List MessageRow → CursorPaginationResponse
page u limit rows =
    let has_more = ltb limit (length rows) in
    let kept = if has_more then take limit rows else rows in
    record {
      data_page = map (message_response u) kept;
      next_cursor = cursor_after kept;
      has_more = has_more;
    }

abbrev pub fetch : Option ℕ → Option ℕ → ℕ → Db → List MessageRow
fetch tenant before limit db = take limit (order_rows (matching tenant before db.messages))

-- The tenant of the query: none for the empty text, or what the server reads.
abbrev pub tenant_filter : UuidFormat → String → Option (Option ℕ)
tenant_filter u tenant_id =
    if str_eq tenant_id ""
    then some none
    else elim (u.read tenant_id) [ none ↦ none | some t ↦ some (some t) ]

-- `ListMessages`
unfoldable pub list_messages :
    UuidFormat → Bool → String → Cursor → ℤ → Db → Answer CursorPaginationResponse
list_messages u served tenant_id cursor limit db = elim (tenant_filter u tenant_id) [
  | none ↦ bad database
  | some tenant ↦
      if served
      then good (
          page u (page_limit limit) (fetch tenant (cursor_time cursor) (suc (page_limit limit)) db))
      else bad database
]
