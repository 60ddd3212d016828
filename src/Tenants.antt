-- ===== src/Tenants.antt =====
-- internal/service/tenant_service.go: `TenantService`, over the tables `tenants` and `users`.
pub mod Rows
pub mod Statements
pub mod Cases
pub mod Calls
pub mod Replay
pub mod Creation
pub mod Pages
use multi_tenant_messaging.Base.{
  ℕ, List, Option, String, Bool, if◌then◌else◌, none, some, suc, ◌∷◌, false, leb, ◌&&◌, ◌==◌, min,
  not, ◌||◌, ltb, str_eq, map, take, drop,
}
use multi_tenant_messaging.Base.Int.{ℤ, leb_ℤ, ltb_ℤ, pos, is_negative, pos_part}
use multi_tenant_messaging.Db.{Db, Outcome, TenantRow, UuidFormat, UserRow, exec, applied}
use mathlib.Core.Bool.{true}
use mathlib.Core.List.{[]}

pub record CreateTenantRequest : Type 0 where
  pub name : String
  pub workers : ℤ

-- Times are microseconds here too; the code has their RFC 3339 texts.
pub record TenantResponse : Type 0 where
  pub id : String
  pub name : String
  pub workers : ℤ
  pub created_at : ℕ
  pub updated_at : ℕ

-- `no_rows` is `sql.ErrNoRows`.
pub data ServiceError : Type 0 where
  bad_workers no_rows database marshal_payload : ServiceError

pub data Answer {ℓ} (A : Type ℓ) : Type ℓ where
  good : A → Answer A
  bad : ServiceError → Answer A

-- Scanning the columns of a row.
abbrev pub tenant_response : UuidFormat → TenantRow → TenantResponse
tenant_response u row = record {
  id = u.print row.id;
  name = row.name;
  workers = row.concurrency;
  created_at = row.created_at;
  updated_at = row.updated_at;
}

unfoldable pub find_tenant : ℕ → List TenantRow → Option TenantRow
find_tenant i [] = none
find_tenant i (row ∷ rows) = if row.id == i then some row else find_tenant i rows

-- Whether the primary key or the unique name of a new row is taken.
abbrev pub clashes : ℕ → String → List TenantRow → Bool
clashes i name [] = false
clashes i name (row ∷ rows) = row.id == i || str_eq row.name name || clashes i name rows

abbrev pub count_chars : String → ℕ
count_chars String.[] = 0
count_chars (String.◌∷◌ c s) = suc (count_chars s)

abbrev pub add_tenant : TenantRow → Db → Db
add_tenant row db = record db { tenants = row ∷ db.tenants }

pub keep_tenants : ℕ → List TenantRow → List TenantRow
keep_tenants i [] = []
keep_tenants i (row ∷ rows) = if row.id == i then keep_tenants i rows else row ∷ keep_tenants i rows

abbrev pub is_tenant : ℕ → Option ℕ → Bool
is_tenant i none = false
is_tenant i (some t) = t == i

-- `REFERENCES tenants(id) ON DELETE SET NULL`
abbrev pub unset_tenant : ℕ → List UserRow → List UserRow
unset_tenant i [] = []
unset_tenant i (user ∷ users) =
    (if is_tenant i user.tenant_id then record user { tenant_id = none } else user)
    ∷ unset_tenant i users

abbrev pub remove_tenant : ℕ → Db → Db
remove_tenant i db = record db {
  tenants = keep_tenants i db.tenants;
  users = unset_tenant i db.users;
}

pub set_concurrency_rows : ℤ → ℕ → ℕ → List TenantRow → List TenantRow
set_concurrency_rows n now i [] = []
set_concurrency_rows n now i (row ∷ rows) =
    (if row.id == i then record row { concurrency = n; updated_at = now } else row)
    ∷ set_concurrency_rows n now i rows

abbrev pub set_concurrency : ℤ → ℕ → ℕ → Db → Db
set_concurrency n now i db = record db { tenants = set_concurrency_rows n now i db.tenants }

-- Whether a worker count is one from 1 to 50.
abbrev pub in_worker_range : ℤ → Bool
in_worker_range n = ltb_ℤ (pos 0) n && leb_ℤ n (pos 50)

-- A statement that says whether it took effect, and what it then returns.
abbrev pub answered : {A : Type 0} → A → Db × Bool → Db × Answer A
answered a (db, true) = (db, good a)
answered a (db, false) = (db, bad database)

abbrev pub new_tenant : ℕ → ℕ → CreateTenantRequest → TenantRow
new_tenant i now req = record {
  id = i;
  name = req.name;
  concurrency = if in_worker_range req.workers then req.workers else pos 3;
  created_at = now;
  updated_at = now;
}

-- `CreateTenant`, with the new UUID and the time at the server.
unfoldable pub create_tenant :
    UuidFormat → Outcome → ℕ → ℕ → CreateTenantRequest → Db → Db × Answer TenantResponse
create_tenant u o i now req db =
    let row = new_tenant i now req in
    if clashes i req.name db.tenants || ltb 255 (count_chars req.name)
    then (db, bad database)
    else answered (tenant_response u row) (exec o (add_tenant row) db)

abbrev pub row_or_none : UuidFormat → Option TenantRow → Answer TenantResponse
row_or_none u none = bad no_rows
row_or_none u (some row) = good (tenant_response u row)

-- `GetTenant`; a query that fails is `served = false`.
pub get_tenant : UuidFormat → Bool → String → Db → Answer TenantResponse
get_tenant u served id db = elim (u.read id) [
  | none ↦ bad database
  | some i ↦ if served then row_or_none u (find_tenant i db.tenants) else bad database
]

abbrev is_refused : Outcome → Bool
is_refused applied = false
is_refused _ = true

-- A statement on one row by its id: nothing happens where there is no such row.
abbrev pub on_tenant :
    {A : Type 0} → Outcome → (Db → Db) → (TenantRow → A) → Option TenantRow → Db → Db × Answer A
on_tenant o f a none db = (db, bad (if is_refused o then database else no_rows))
on_tenant o f a (some row) db = answered (a row) (exec o f db)

-- `DeleteTenant`: no row affected is an error.
unfoldable pub delete_tenant : UuidFormat → Outcome → String → Db → Db × Answer (Unit {0})
delete_tenant u o id db = elim (u.read id) [
  | none ↦ (db, bad database)
  | some i ↦ on_tenant o (remove_tenant i) (λ row. tt) (find_tenant i db.tenants) db
]

-- `TenantService.UpdateConcurrency`
unfoldable pub update_tenant_concurrency :
    UuidFormat → Outcome → ℕ → String → ℤ → Db → Db × Answer TenantResponse
update_tenant_concurrency u o now id workers db =
    if in_worker_range workers
    then elim (u.read id) [
      | none ↦ (db, bad database)
      | some i ↦
          on_tenant o (set_concurrency workers now i)
            (λ (row : TenantRow).
              tenant_response u (record row { concurrency = workers; updated_at = now }))
            (find_tenant i db.tenants) db
    ]
    else (db, bad bad_workers)

-- `limit`, 20 instead of none, cut off at 100.
unfoldable pub page_limit : ℤ → ℕ
page_limit limit = if leb_ℤ limit (pos 0) then 20 else min (pos_part limit) 100

-- PostgreSQL orders rows of the same time in any way, another in every query: `ties` ranks them.
abbrev pub is_newer : (ℕ → ℕ) → TenantRow → TenantRow → Bool
is_newer ties row r =
    ltb r.created_at row.created_at
    || (r.created_at == row.created_at && leb (ties row.id) (ties r.id))

abbrev pub newest_first : (ℕ → ℕ) → TenantRow → List TenantRow → List TenantRow
newest_first ties row [] = row ∷ []
newest_first ties row (r ∷ rows) =
    if is_newer ties row r then row ∷ r ∷ rows else r ∷ newest_first ties row rows

-- `ORDER BY created_at DESC`
unfoldable pub by_creation : (ℕ → ℕ) → List TenantRow → List TenantRow
by_creation ties [] = []
by_creation ties (row ∷ rows) = newest_first ties row (by_creation ties rows)

-- `ListTenants`; the server refuses a negative offset.
unfoldable pub list_tenants :
    UuidFormat → (ℕ → ℕ) → Bool → ℤ → ℤ → Db → Answer (List TenantResponse)
unfolding page_limit by_creation
list_tenants u ties served limit offset db =
    if served && not (is_negative offset)
    then good (
        map (tenant_response u)
          (take (page_limit limit) (drop (pos_part offset) (by_creation ties db.tenants))))
    else bad database
