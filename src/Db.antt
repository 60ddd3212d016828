-- ===== src/Db.antt =====
-- The PostgreSQL tables that the SQL statements of internal/tenant/worker_pool.go, internal/service and
-- internal/repository read and write (columns as in db/migrations), and the ways a call may end.
pub mod Rows
pub mod Keys
pub mod Outcomes
use multi_tenant_messaging.Base.{
  ℕ, Bool, List, Option, String, false, none, true, ◌==◌, ◌∷◌, ◌≡◌, if◌then◌else◌, some, ◌&&◌, ◌++◌,
  [],
}
use multi_tenant_messaging.Json.{Json}
use multi_tenant_messaging.Base.Int.{ℤ}
use mathlib.Core.List.{[]}

-- What the program relies on of text forms of UUIDs, which github.com/google/uuid and the server read:
-- `read` is the server's input conversion, `parse` whether `uuid.Parse` accepts a text, `print` the
-- canonical text in which an id comes back.
pub record UuidFormat : Type 0 where
  pub read : String → Option ℕ
  pub parse : String → Bool
  pub print : ℕ → String
  pub read-print : (n : ℕ) → read (print n) ≡ some n

pub data Status : Type 0 where
  pending processing completed failed : Status

pub record MessageRow : Type 0 where
  pub id : ℕ
  pub tenant_id : ℕ
  pub payload : Json
  pub status : Status
  pub retry_count : ℤ
  pub created_at : ℕ
  pub updated_at : ℕ

pub record DeadLetterRow : Type 0 where
  pub original_message_id : ℕ
  pub tenant_id : ℕ
  pub payload : Json
  pub error_reason : String
  pub retry_count : ℤ
  pub failed_at : ℕ

pub record TenantRow : Type 0 where
  pub id : ℕ
  pub name : String
  pub concurrency : ℤ
  pub created_at : ℕ
  pub updated_at : ℕ

pub record UserRow : Type 0 where
  pub id : ℕ
  pub username : String
  pub password_hash : String
  pub tenant_id : Option ℕ
  pub role : String
  pub created_at : ℕ
  pub updated_at : ℕ

-- Times are microseconds since the epoch.
pub record Db : Type 0 where
  pub tenants : List TenantRow
  pub messages : List MessageRow
  pub dead_letters : List DeadLetterRow
  pub users : List UserRow

-- A statement takes effect and says so; fails without effect (a constraint, no partition, no
-- connection); or takes effect while the caller gets an error (a timeout after the commit).
pub data Outcome : Type 0 where
  applied refused unconfirmed : Outcome

abbrev pub exec : Outcome → (Db → Db) → Db → Db × Bool
exec applied f db = (f db, true)
exec refused f db = (db, false)
exec unconfirmed f db = (f db, false)

-- A statement whose two ids do not read as UUIDs is refused.
abbrev pub exec_on : Outcome → Option ℕ → Option ℕ → (ℕ → ℕ → Db → Db) → Db → Db × Bool
exec_on o none t f db = (db, false)
exec_on o (some i) none f db = (db, false)
exec_on o (some i) (some t) f db = exec o (f i t) db

-- `WHERE id = $1 AND tenant_id = $2`, the primary key of `messages`.
abbrev pub is_row : ℕ → ℕ → MessageRow → Bool
is_row i t row = row.id == i && row.tenant_id == t

unfoldable pub find_row : ℕ → ℕ → List MessageRow → Option MessageRow
find_row i t [] = none
find_row i t (row ∷ rows) = if is_row i t row then some row else find_row i t rows

-- `UPDATE messages SET status = …, updated_at = NOW() WHERE id = $1 AND tenant_id = $2`
pub set_status_rows : Status → ℕ → ℕ → ℕ → List MessageRow → List MessageRow
set_status_rows s now i t [] = []
set_status_rows s now i t (row ∷ rows) =
    (if is_row i t row then record row { status = s; updated_at = now } else row)
    ∷ set_status_rows s now i t rows

unfoldable pub set_status : Status → ℕ → ℕ → ℕ → Db → Db
set_status s now i t db = record db { messages = set_status_rows s now i t db.messages }

-- `INSERT … 'processing' … ON CONFLICT (id, tenant_id) DO UPDATE SET status = 'processing', …`: the
-- payload and the creation time of a row that is there stay.
pub upsert_rows : Json → ℤ → ℕ → ℕ → ℕ → List MessageRow → List MessageRow
upsert_rows payload retries now i t [] =
    record {
      id = i;
      tenant_id = t;
      payload = payload;
      status = processing;
      retry_count = retries;
      created_at = now;
      updated_at = now;
    }
    ∷ []
upsert_rows payload retries now i t (row ∷ rows) =
    if is_row i t row
    then record row { status = processing; retry_count = retries; updated_at = now } ∷ rows
    else row ∷ upsert_rows payload retries now i t rows

unfoldable pub upsert_processing : Json → ℤ → ℕ → ℕ → ℕ → Db → Db
upsert_processing payload retries now i t db = record db {
  messages = upsert_rows payload retries now i t db.messages;
}

-- `INSERT INTO dead_letter_messages …`; the row's own id is the server's.
unfoldable pub insert_dead_letter : Json → String → ℤ → ℕ → ℕ → ℕ → Db → Db
insert_dead_letter payload reason retries now i t db = record db {
  dead_letters =
      db.dead_letters
      ++ record {
        original_message_id = i;
        tenant_id = t;
        payload = payload;
        error_reason = reason;
        retry_count = retries;
        failed_at = now;
      }
        ∷ [];
}
