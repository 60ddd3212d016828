-- ===== src/Auth/Login.antt =====
-- Who can log in, and with which password; and nobody after the tenant is deleted.
use multi_tenant_messaging.Base.{
  ℕ, String, List, Option, Bool, ◌≡◌, some, none, true, arith, ◌∷◌, Bool-cases, inl, inr, refl,
  str_eq, Option-cases,
}
use multi_tenant_messaging.Auth.{
  Bcrypt, find_user, login, Claims, get_by_username, AuthAnswer, User, LoginResponse, check_user,
  granted, claims_of, denied, db_error, to_response, found_user,
}
use multi_tenant_messaging.Db.{UuidFormat, Outcome, UserRow, Db}
use multi_tenant_messaging.Tenants.{delete_tenant, unset_tenant, good, is_tenant}
use multi_tenant_messaging.Tenants.Calls.{delete_tenant_good}
use mathlib.Core.List.{[]}

-- A granted login is the found user's own, with a password that verifies.
check_user_granted :
    (h : Bcrypt) (sign : Claims → Option String) (now expiry : ℕ) (password : String)
    (found : AuthAnswer User) {r : LoginResponse}
    → check_user h sign now expiry password found ≡ granted r
    → (user : User) × (found ≡ granted user)
      × (h.verify user.password_hash password ≡ true)
      × (sign (claims_of user now expiry) ≡ some r.token)
      × (r.user ≡ to_response user)
check_user_granted h sign now expiry password (denied e) granted_it =
    absurd (ground (arith, granted_it))
check_user_granted h sign now expiry password (granted user) granted_it =
    elim (Bool-cases (h.verify user.password_hash password)) [
      | inr wrong ↦ absurd (ground (arith, granted_it, wrong))
      | inl right ↦ elim (Option-cases (sign (claims_of user now expiry))) [
        | inl unsigned ↦ absurd (ground (arith, granted_it, right, unsigned))
        | inr (token, signed) ↦ (
          user,
          refl,
          right,
          ground (arith, granted_it, right, signed),
          ground (arith, granted_it, right, signed),
        )
      ]
    ]

-- `Login` grants a token only to the user of that name in the table, only where the password verifies
-- against the stored hash, and the signed claims are that user's own id, name, tenant and role.
pub login_granted :
    (u : UuidFormat) (h : Bcrypt) (sign : Claims → Option String) (served : Bool) (now expiry : ℕ)
    (name password : String) (db : Db) {r : LoginResponse}
    → login u h sign served now expiry name password db ≡ granted r
    → (user : User) × (get_by_username u true name db ≡ granted user)
      × (h.verify user.password_hash password ≡ true)
      × (sign (claims_of user now expiry) ≡ some r.token)
      × (r.user ≡ to_response user)
unfolding login get_by_username
login_granted u h sign served now expiry name password db e = elim (Bool-cases served) [
  | inl up ↦
      check_user_granted h sign now expiry password (found_user u (find_user name db.users))
        (rw up at e)
  | inr down ↦ absurd (ground (arith, (rw down at e)))
]

find_user-unset :
    (i : ℕ) (name : String) (users : List UserRow) {row : UserRow}
    → find_user name users ≡ some row
    → row.tenant_id ≡ some i
    → find_user name (unset_tenant i users) ≡ some (record row { tenant_id = none })
unfolding find_user
find_user-unset i name [] e f = absurd (ground (arith, e))
find_user-unset i name (user ∷ users) {row} e f = elim (Bool-cases (str_eq user.username name)) [
  | inl same ↦ elim (Bool-cases (is_tenant i user.tenant_id)) [
    | inl own ↦ rw (own, same) (ground (arith, (rw same at e)))
    | inr other ↦ absurd (ground (arith, e, f, same, other))
  ]
  | inr differs ↦ elim (Bool-cases (is_tenant i user.tenant_id)) [
    | inl own ↦ rw (own, differs) (find_user-unset i name users (rw differs at e) f)
    | inr other ↦ rw (other, differs) (find_user-unset i name users (rw differs at e) f)
  ]
]

-- Once the tenant of a user is deleted, the user can no longer log in, with any password: the look-up of
-- the name fails, as the row's tenant no longer scans.
pub login-delete_tenant :
    (u : UuidFormat) (h : Bcrypt) (sign : Claims → Option String) (o : Outcome) (now expiry : ℕ)
    (id name password : String) (db : Db) {i : ℕ} {row : UserRow}
    → u.read id ≡ some i
    → find_user name db.users ≡ some row
    → row.tenant_id ≡ some i
    → (delete_tenant u o id db).1 ≡ good tt
    → login u h sign true now expiry name password (delete_tenant u o id db).0 ≡ denied db_error
unfolding login get_by_username
login-delete_tenant u h sign o now expiry id name password db {i} {row} read found own deleted =
    rw (delete_tenant_good u o id db read deleted, find_user-unset i name db.users found own) refl
