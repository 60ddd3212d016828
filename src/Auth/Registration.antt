-- ===== src/Auth/Registration.antt =====
-- `Register`, and the `Login` after it.
use multi_tenant_messaging.Base.{
  ℕ, Bool, Option, ◌≡◌, Bool-cases, String, none, Option-cases, arith, some, str_eq, true, inl,
  refl, ◌||◌, eq_refl, inr, ap, subst, sym, ◌∙◌,
}
use multi_tenant_messaging.Auth.{
  AuthAnswer, Bcrypt, RegisterRequest, create_user, login, register, Claims, User, get_by_username,
  with_role, find_user, unless_found, AuthError, granted, insert_user, add_user, claims_of, denied,
  user_exists, check_user, new_user, scan_user, to_response, fields_required, hashing, db_error,
}
use multi_tenant_messaging.Db.{Db, UuidFormat, Outcome, UserRow, applied, refused, unconfirmed}

insert_user_granted :
    (u : UuidFormat) (o : Outcome) (row : UserRow) (t : ℕ) (db : Db) {user : User}
    → (insert_user u o row t db).1 ≡ granted user
    → ((insert_user u o row t db).0 ≡ add_user row db)
      × (scan_user u row row.tenant_id ≡ granted user)
insert_user_granted u applied row t db e = ground (arith, e)
insert_user_granted u refused row t db e = absurd (ground (arith, e))
insert_user_granted u unconfirmed row t db e = absurd (ground (arith, e))

create_user_granted :
    (u : UuidFormat) (h : Bcrypt) (o : Outcome) (salt i now : ℕ) (req : RegisterRequest) (db : Db)
    {user : User}
    → (create_user u h o salt i now req db).1 ≡ granted user
    → (digest : String) × (t : ℕ) × (h.hash salt req.password ≡ some digest)
      × (u.read req.tenant_id ≡ some t)
      × ((create_user u h o salt i now req db).0
          ≡ add_user (new_user i now req.username digest t req.role) db)
      × (scan_user u (new_user i now req.username digest t req.role) (some t) ≡ granted user)
unfolding create_user
create_user_granted u h o salt i now req db e = elim (Option-cases (h.hash salt req.password)) [
  | inl long ↦ absurd (ground (arith, (rw (long, create_user) at e)))
  | inr (digest, hashed) ↦ elim (Option-cases (u.read req.tenant_id)) [
    | inl none_read ↦ absurd (ground (arith, (rw (hashed, none_read, create_user) at e)))
    | inr (t, read) ↦
        let (done, scanned) =
          insert_user_granted u o (new_user i now req.username digest t req.role) t db
            (rw (hashed, read, create_user) at e) in
        (digest, t, hashed, read, rw (hashed, read, create_user) done, scanned)
  ]
]

unless_found_granted :
    (found : AuthAnswer User) (created : Db × AuthAnswer User) (db : Db) {user : User}
    → (unless_found found created db).1 ≡ granted user
    → unless_found found created db ≡ created
unless_found_granted (granted other) created db e = absurd (ground (arith, e))
unless_found_granted (denied x) created db e = refl

with_role_keeps :
    (req : RegisterRequest)
    → ((with_role req).username ≡ req.username)
      × ((with_role req).password ≡ req.password)
      × ((with_role req).tenant_id ≡ req.tenant_id)
with_role_keeps req = elim (Bool-cases (str_eq req.role "")) [
  | inl blank ↦ rw blank (refl, refl, refl)
  | inr given ↦ rw given (refl, refl, refl)
]

-- A registration that is granted created the user.
register_granted :
    (u : UuidFormat) (h : Bcrypt) (served : Bool) (o : Outcome) (salt i now : ℕ)
    (req : RegisterRequest) (db : Db) {user : User}
    → (register u h served o salt i now req db).1 ≡ granted user
    → ((create_user u h o salt i now (with_role req) db).1 ≡ granted user)
      × ((register u h served o salt i now req db).0
          ≡ (create_user u h o salt i now (with_role req) db).0)
unfolding register
register_granted u h served o salt i now req db {user} e =
    elim (Bool-cases (str_eq req.username "" || str_eq req.password "")) [
      | inl blank ↦ absurd (ground (arith, (rw blank at e)))
      | inr filled ↦
          let same =
            unless_found_granted (get_by_username u served req.username db)
              (create_user u h o salt i now (with_role req) db) db (rw filled at e) in
          (
            subst (λ out. out.1 ≡ granted user) same (rw filled at e),
            rw (filled, register) (ap (λ out. out.0) same),
          )
    ]

check_user_right :
    (h : Bcrypt) (sign : Claims → Option String) (now expiry : ℕ) (password : String) (user : User)
    {token : String}
    → h.verify user.password_hash password ≡ true
    → sign (claims_of user now expiry) ≡ some token
    → check_user h sign now expiry password (granted user)
      ≡ granted (record { token = token; token_type = "Bearer"; user = to_response user })
check_user_right h sign now expiry password user right signed = rw (right, signed) refl

-- Where `Register` succeeds, `Login` with the same name and password gives a token for that user, once
-- the token library signs the claims.
pub login-register :
    (u : UuidFormat) (h : Bcrypt) (sign : Claims → Option String) (served : Bool) (o : Outcome)
    (salt i now later expiry : ℕ) (req : RegisterRequest) (db : Db) {user : User} {token : String}
    → (register u h served o salt i now req db).1 ≡ granted user
    → sign (claims_of user later expiry) ≡ some token
    → login u h sign true later expiry req.username req.password
        (register u h served o salt i now req db).0
      ≡ granted (record { token = token; token_type = "Bearer"; user = to_response user })
unfolding login get_by_username find_user
login-register u h sign served o salt i now later expiry req db {user} {token} e signed =
    let (created, kept) = register_granted u h served o salt i now req db e in
    let (name, password, tenant) = with_role_keeps req in
    let (digest, t, hashed, read, done, scanned) =
      create_user_granted u h o salt i now (with_role req) db created in
    let named : str_eq (with_role req).username req.username ≡ true =
      rw name (eq_refl req.username) in
    let stored : digest ≡ user.password_hash = ground (arith, scanned) in
    let right : h.verify user.password_hash req.password ≡ true =
      subst (λ d. h.verify d req.password ≡ true) stored
        (h.verify-hash salt req.password digest (ap (h.hash salt) (sym password) ∙ hashed)) in
    rw (kept, done, named)
      (ap (check_user h sign later expiry req.password) scanned
        ∙ check_user_right h sign later expiry req.password user right signed)

abbrev IsDenied : Db → Db × AuthAnswer User → Type 0
IsDenied db out = (out.0 ≡ db) × ((x : AuthError) × (out.1 ≡ denied x))

create_user_no_tenant :
    (u : UuidFormat) (h : Bcrypt) (o : Outcome) (salt i now : ℕ) (req : RegisterRequest) (db : Db)
    → u.read req.tenant_id ≡ none
    → IsDenied db (create_user u h o salt i now req db)
unfolding create_user
create_user_no_tenant u h o salt i now req db no_tenant =
    elim (Option-cases (h.hash salt req.password)) [
      | inl long ↦ rw (long, create_user) (refl, (hashing, refl))
      | inr (digest, hashed) ↦ rw (hashed, no_tenant, create_user) (refl, (db_error, refl))
    ]

unless_found-IsDenied :
    (found : AuthAnswer User) (created : Db × AuthAnswer User) (db : Db)
    → IsDenied db created
    → IsDenied db (unless_found found created db)
unless_found-IsDenied (granted other) created db d = (refl, (user_exists, refl))
unless_found-IsDenied (denied x) created db d = d

-- A registration whose tenant is no UUID, such as one that leaves the tenant out, never succeeds and
-- changes nothing.
pub register_needs_tenant :
    (u : UuidFormat) (h : Bcrypt) (served : Bool) (o : Outcome) (salt i now : ℕ)
    (req : RegisterRequest) (db : Db)
    → u.read req.tenant_id ≡ none
    → ((register u h served o salt i now req db).0 ≡ db)
      × ((x : AuthError) × ((register u h served o salt i now req db).1 ≡ denied x))
unfolding register
register_needs_tenant u h served o salt i now req db no_tenant =
    elim (Bool-cases (str_eq req.username "" || str_eq req.password "")) [
      | inl blank ↦ rw (blank, register) (refl, (fields_required, refl))
      | inr filled ↦
          rw (filled, register)
            (unless_found-IsDenied (get_by_username u served req.username db)
              (create_user u h o salt i now (with_role req) db) db
              (create_user_no_tenant u h o salt i now (with_role req) db
                (ap u.read (with_role_keeps req).2 ∙ no_tenant)))
    ]
