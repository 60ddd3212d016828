-- ===== src/Auth/Tables.antt =====
-- What a registration does to the tables: nothing, or one row of a user that fits.
use multi_tenant_messaging.Base.{
  ℕ, ◌≡◌, Bool, true, Option-cases, if_elim, refl, inl, str_eq, inr, ◌||◌, some,
}
use multi_tenant_messaging.Db.{
  Db, UuidFormat, UserRow, Outcome, exec, applied, refused, unconfirmed,
}
use multi_tenant_messaging.Auth.{
  Bcrypt, user_fits, RegisterRequest, add_user, AuthAnswer, create_user, insert_user, register,
  user_answer, User, unless_found, granted, denied, get_by_username, new_user, with_role,
}
use mathlib.Core.Bool.{false}

-- The tables of tenants, messages and dead letters are the same.
abbrev pub OnlyUsers : Db → Db → Type 0
OnlyUsers db after =
    (after.tenants ≡ db.tenants)
    × (after.messages ≡ db.messages)
    × (after.dead_letters ≡ db.dead_letters)

module _ (u : UuidFormat) (P : Db → Type 0) (db : Db) (same : P db)
    (added : (row : UserRow) (t : ℕ)
      → row.tenant_id ≡ some t
      → user_fits row t db ≡ true
      → P (add_user row db)) where
  exec_cases :
      (o : Outcome) (row : UserRow) (t : ℕ)
      → row.tenant_id ≡ some t
      → user_fits row t db ≡ true
      → P (exec o (add_user row) db).0
  exec_cases applied row t own fits = added row t own fits
  exec_cases refused row t own fits = same
  exec_cases unconfirmed row t own fits = added row t own fits

  user_answer_cases : (row : UserRow) (out : Db × Bool) → P out.0 → P (user_answer u row out).0
  user_answer_cases row (after, true) p = p
  user_answer_cases row (after, false) p = p

  insert_user_cases :
      (o : Outcome) (row : UserRow) (t : ℕ)
      → row.tenant_id ≡ some t
      → P (insert_user u o row t db).0
  insert_user_cases o row t own =
      if_elim (λ (out : Db × AuthAnswer User). P out.0) (user_fits row t db)
        (λ fits. user_answer_cases row (exec o (add_user row) db) (exec_cases o row t own fits))
        (λ _. same)

  create_user_cases :
      (h : Bcrypt) (o : Outcome) (salt i now : ℕ) (req : RegisterRequest)
      → P (create_user u h o salt i now req db).0
  unfolding create_user
  create_user_cases h o salt i now req = elim (Option-cases (h.hash salt req.password)) [
    | inl missing ↦ rw (missing, create_user) same
    | inr (digest, e) ↦ elim (Option-cases (u.read req.tenant_id)) [
      | inl missing ↦ rw (e, missing, create_user) same
      | inr (t, read) ↦
          rw (e, read, create_user)
            (insert_user_cases o (new_user i now req.username digest t req.role) t refl)
    ]
  ]

  unless_found_cases :
      (found : AuthAnswer User) (created : Db × AuthAnswer User)
      → P created.0
      → P (unless_found found created db).0
  unless_found_cases (granted user) created p = same
  unless_found_cases (denied e) created p = p

  -- A property of the tables as they are, and of those with one fitting user more, is one of the tables
  -- after `Register`.
  pub register_cases :
      (h : Bcrypt) (served : Bool) (o : Outcome) (salt i now : ℕ) (req : RegisterRequest)
      → P (register u h served o salt i now req db).0
  unfolding register
  register_cases h served o salt i now req =
      if_elim (λ (out : Db × AuthAnswer User). P out.0)
        (str_eq req.username "" || str_eq req.password "") (λ _. same)
        (λ _.
          unless_found_cases (get_by_username u served req.username db)
            (create_user u h o salt i now (with_role req) db)
            (create_user_cases h o salt i now (with_role req)))

-- `Register` touches no table but the users'.
pub register-OnlyUsers :
    (u : UuidFormat) (h : Bcrypt) (served : Bool) (o : Outcome) (salt i now : ℕ)
    (req : RegisterRequest) (db : Db)
    → OnlyUsers db (register u h served o salt i now req db).0
register-OnlyUsers u h served o salt i now req db =
    register_cases u (OnlyUsers db) db (refl, refl, refl) (λ row t own fits. (refl, refl, refl)) h
      served o salt i now req
