-- ===== src/Auth.antt =====
-- internal/service/auth_service.go, internal/repository/user_repository.go and internal/model/user.go:
-- users, their registration and their login.
pub mod Login
pub mod Ids
pub mod Registration
pub mod Tables
pub mod References
use multi_tenant_messaging.Base.{
  ℕ, List, Option, String, if◌then◌else◌, ◌+◌, ◌/◌, Bool, none, some, str_eq, ◌*◌, ◌∷◌, false, ◌||◌,
  ◌≡◌, ◌&&◌, ◌==◌, not, leb, is_some,
}
use multi_tenant_messaging.Db.{Db, UserRow, UuidFormat, Outcome, exec}
use mathlib.Core.Bool.{true}
use mathlib.Core.List.{[]}
use multi_tenant_messaging.Tenants.{find_tenant, count_chars}

-- What is relied on of golang.org/x/crypto/bcrypt: `hash` with a salt fails on a password that is too
-- long, and the password verifies against its hash.
pub record Bcrypt : Type 0 where
  pub hash : ℕ → String → Option String
  pub verify : String → String → Bool
  pub verify-hash : (salt : ℕ) (p h : String) → hash salt p ≡ some h → verify h p ≡ true

pub record User : Type 0 where
  pub id : String
  pub username : String
  pub password_hash : String
  pub tenant_id : String
  pub role : String
  pub created_at : ℕ
  pub updated_at : ℕ

-- `created_at` is formatted to the second.
pub record UserResponse : Type 0 where
  pub id : String
  pub username : String
  pub tenant_id : String
  pub role : String
  pub created_at : ℕ

abbrev pub to_response : User → UserResponse
to_response user = record {
  id = user.id;
  username = user.username;
  tenant_id = user.tenant_id;
  role = user.role;
  created_at = user.created_at / 1_000_000 * 1_000_000;
}

pub record RegisterRequest : Type 0 where
  pub username : String
  pub password : String
  pub tenant_id : String
  pub role : String

pub record LoginRequest : Type 0 where
  pub username : String
  pub password : String

-- Times in a token are whole seconds.
pub record Claims : Type 0 where
  pub user_id : String
  pub username : String
  pub tenant_id : String
  pub role : String
  pub expires_at : ℕ
  pub issued_at : ℕ

pub record LoginResponse : Type 0 where
  pub token : String
  pub token_type : String
  pub user : UserResponse

pub data AuthError : Type 0 where
  fields_required user_exists user_not_found invalid_credentials hashing signing db_error :
      AuthError

pub data AuthAnswer {ℓ} (A : Type ℓ) : Type ℓ where
  granted : A → AuthAnswer A
  denied : AuthError → AuthAnswer A

-- Scanning a row: a tenant that is NULL does not scan into a string.
abbrev pub scan_user : UuidFormat → UserRow → Option ℕ → AuthAnswer User
scan_user u row none = denied db_error
scan_user u row (some t) = granted (record {
  id = u.print row.id;
  username = row.username;
  password_hash = row.password_hash;
  tenant_id = u.print t;
  role = row.role;
  created_at = row.created_at;
  updated_at = row.updated_at;
})

-- `username` is unique.
unfoldable pub find_user : String → List UserRow → Option UserRow
find_user name [] = none
find_user name (row ∷ rows) = if str_eq row.username name then some row else find_user name rows

abbrev pub found_user : UuidFormat → Option UserRow → AuthAnswer User
found_user u none = denied user_not_found
found_user u (some row) = scan_user u row row.tenant_id

-- `GetByUsername`
unfoldable pub get_by_username : UuidFormat → Bool → String → Db → AuthAnswer User
get_by_username u served name db =
    if served then found_user u (find_user name db.users) else denied db_error

unfoldable pub find_user_id : ℕ → List UserRow → Option UserRow
find_user_id i [] = none
find_user_id i (row ∷ rows) = if row.id == i then some row else find_user_id i rows

-- `GetByID`
unfoldable pub get_by_id : UuidFormat → Bool → String → Db → AuthAnswer User
get_by_id u served id db = elim (u.read id) [
  | none ↦ denied db_error
  | some i ↦ if served then found_user u (find_user_id i db.users) else denied db_error
]

abbrev pub new_user : ℕ → ℕ → String → String → ℕ → String → UserRow
new_user i now name digest t role = record {
  id = i;
  username = name;
  password_hash = digest;
  tenant_id = some t;
  role = role;
  created_at = now;
  updated_at = now;
}

abbrev pub add_user : UserRow → Db → Db
add_user row db = record db { users = row ∷ db.users }

abbrev pub has_user_id : ℕ → List UserRow → Bool
has_user_id i [] = false
has_user_id i (row ∷ rows) = row.id == i || has_user_id i rows

-- The constraints of `users`: a tenant that is there, a free name and id, texts of the columns' sizes.
abbrev pub user_fits : UserRow → ℕ → Db → Bool
user_fits row t db =
    is_some (find_tenant t db.tenants)
    && not (is_some (find_user row.username db.users))
    && not (has_user_id row.id db.users)
    && (leb (count_chars row.username) 255 && leb (count_chars row.role) 50)

abbrev pub user_answer : UuidFormat → UserRow → Db × Bool → Db × AuthAnswer User
user_answer u row (db, true) = (db, scan_user u row row.tenant_id)
user_answer u row (db, false) = (db, denied db_error)

abbrev pub insert_user : UuidFormat → Outcome → UserRow → ℕ → Db → Db × AuthAnswer User
insert_user u o row t db =
    if user_fits row t db
    then user_answer u row (exec o (add_user row) db)
    else (db, denied db_error)

-- `Create`: the tenant's text goes to a UUID column as it is, the empty one too.
unfoldable pub create_user :
    UuidFormat → Bcrypt → Outcome → ℕ → ℕ → ℕ → RegisterRequest → Db → Db × AuthAnswer User
create_user u h o salt i now req db = elim (h.hash salt req.password) [
  | none ↦ (db, denied hashing)
  | some digest ↦ elim (u.read req.tenant_id) [
    | none ↦ (db, denied db_error)
    | some t ↦ insert_user u o (new_user i now req.username digest t req.role) t db
  ]
]

abbrev pub with_role : RegisterRequest → RegisterRequest
with_role req = if str_eq req.role "" then record req { role = "user" } else req

-- An error of the look-up counts as no user.
abbrev pub unless_found : AuthAnswer User → Db × AuthAnswer User → Db → Db × AuthAnswer User
unless_found (granted user) created db = (db, denied user_exists)
unless_found (denied e) created db = created

-- `Register`
unfoldable pub register :
    UuidFormat → Bcrypt → Bool → Outcome → ℕ → ℕ → ℕ → RegisterRequest → Db → Db × AuthAnswer User
register u h served o salt i now req db =
    if str_eq req.username "" || str_eq req.password ""
    then (db, denied fields_required)
    else unless_found (get_by_username u served req.username db)
        (create_user u h o salt i now (with_role req) db) db

abbrev pub claims_of : User → ℕ → ℕ → Claims
claims_of user now expiry = record {
  user_id = user.id;
  username = user.username;
  tenant_id = user.tenant_id;
  role = user.role;
  expires_at = (now + expiry) / 1_000_000;
  issued_at = now / 1_000_000;
}

abbrev pub signed_in : User → Option String → AuthAnswer LoginResponse
signed_in user none = denied signing
signed_in user (some token) =
    granted (record { token = token; token_type = "Bearer"; user = to_response user })

-- `ErrUserNotFound` is told as invalid credentials.
abbrev pub login_error : AuthError → AuthError
login_error user_not_found = invalid_credentials
login_error e = e

-- `Login` past the look-up. `sign` is the token library on the secret.
abbrev pub check_user :
    Bcrypt → (Claims → Option String) → ℕ → ℕ → String → AuthAnswer User → AuthAnswer LoginResponse
check_user h sign now expiry password (denied e) = denied (login_error e)
check_user h sign now expiry password (granted user) =
    if h.verify user.password_hash password
    then signed_in user (sign (claims_of user now expiry))
    else denied invalid_credentials

-- `Login`, at one reading of the clock, with an expiry in microseconds.
unfoldable pub login :
    UuidFormat
    → Bcrypt
    → (Claims → Option String)
    → Bool
    → ℕ
    → ℕ
    → String
    → String
    → Db
    → AuthAnswer LoginResponse
login u h sign served now expiry name password db =
    check_user h sign now expiry password (get_by_username u served name db)
