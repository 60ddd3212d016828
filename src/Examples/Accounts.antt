-- ===== src/Examples/Accounts.antt =====
-- The theorems on users at a table with one tenant.
use multi_tenant_messaging.Base.{
  ℕ, String, Option, some, str_eq, true, ◌∷◌, ◌≡◌, [], arith, refl, eq_iff,
}
use multi_tenant_messaging.Auth.{
  Bcrypt, Claims, RegisterRequest, User, login, register, create_user, get_by_username, new_user,
  find_user, granted, denied, to_response, db_error,
}
use multi_tenant_messaging.Db.{Db, UserRow, applied}
use multi_tenant_messaging.Tenants.{delete_tenant, find_tenant}
use multi_tenant_messaging.Examples.{shop_db, unary_ids}
use multi_tenant_messaging.Auth.Login.{login-delete_tenant}
use multi_tenant_messaging.Auth.Registration.{login-register}

pub same_text : (salt : ℕ) (p h : String) → some p ≡ some h → str_eq h p ≡ true
same_text salt p h e = ground (arith, e, eq_iff h p)

-- No hashing at all.
abbrev pub plain : Bcrypt
plain = record { hash = λ salt p. some p; verify = str_eq; verify-hash = same_text }

abbrev request : RegisterRequest
request = record { username = "eve"; password = "secret"; tenant_id = "aaa"; role = "" }

abbrev pub eve : User
eve = record {
  id = "aaaaa";
  username = "eve";
  password_hash = "secret";
  tenant_id = "aaa";
  role = "user";
  created_at = 3;
  updated_at = 3;
}

abbrev eve_row : UserRow
eve_row = new_user 4 3 "eve" "secret" 2 "user"

abbrev pub eve_db : Db
eve_db = record shop_db { users = eve_row ∷ [] }

abbrev token_of : Claims → Option String
token_of c = some c.username

login-register_example :
    login unary_ids plain token_of true 9 1_000_000 "eve" "secret"
      (register unary_ids plain true applied 0 4 3 request shop_db).0
    ≡ granted (record { token = "eve"; token_type = "Bearer"; user = to_response eve })
unfolding register create_user get_by_username find_user find_tenant
login-register_example =
    login-register unary_ids plain token_of true applied 0 4 3 9 1_000_000 request shop_db
      {user = eve} {token = "eve"} refl refl

login-delete_tenant_example :
    login unary_ids plain token_of true 9 1_000_000 "eve" "secret"
      (delete_tenant unary_ids applied "aaa" eve_db).0
    ≡ denied db_error
unfolding delete_tenant find_tenant find_user
login-delete_tenant_example =
    login-delete_tenant unary_ids plain token_of applied 9 1_000_000 "aaa" "eve" "secret" eve_db
      {i = 2} {row = eve_row} refl refl refl refl
