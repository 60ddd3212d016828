-- ===== src/Auth/Ids.antt =====
-- The ids of users: each is in the table once, and finds the row that the name finds.
use multi_tenant_messaging.Base.{
  ℕ, List, String, ◌∷◌, ◌≡◌, some, arith, false, true, ◌⊎◌, Bool-cases, inl, inr, str_eq, ap, Bool,
  Option, if_true, refl, ◌==◌, sym, ◌∙◌, if_false, is_some,
}
use multi_tenant_messaging.Auth.{
  find_user, find_user_id, has_user_id, get_by_id, get_by_username, User, found_user, granted,
  scan_user, Bcrypt, RegisterRequest, register,
}
use multi_tenant_messaging.Db.{UserRow, Db, Outcome, UuidFormat}
use mathlib.Core.List.{[]}
use mathlib.Core.Option.{none}
use multi_tenant_messaging.Auth.Tables.{register_cases}

-- The primary key, and the unique names.
abbrev pub IsUserTable : List UserRow → Type 0
IsUserTable [] = Unit
IsUserTable (row ∷ rows) =
    (has_user_id row.id rows ≡ false)
    × (is_some (find_user row.username rows) ≡ false)
    × IsUserTable rows

find_user_cons :
    (name : String) (r : UserRow) (rows : List UserRow) {row : UserRow}
    → find_user name (r ∷ rows) ≡ some row
    → (r ≡ row) ⊎ (find_user name rows ≡ some row)
unfolding find_user
find_user_cons name r rows {row} e = elim (Bool-cases (str_eq r.username name)) [
  | inl h ↦ inl (ground (arith, (rw h at e)))
  | inr h ↦ inr (rw h at e)
]

found_has_id :
    (name : String) (rows : List UserRow) {row : UserRow}
    → find_user name rows ≡ some row
    → has_user_id row.id rows ≡ true
unfolding find_user
found_has_id name [] {row} e = absurd (ground (arith, e))
found_has_id name (r ∷ rows) {row} e = elim (find_user_cons name r rows {row = row} e) [
  | inl same ↦ let ids : r.id ≡ row.id = ap (λ (x : UserRow). x.id) same in ground (arith, ids)
  | inr later ↦ ground (arith, found_has_id name rows {row = row} later)
]

find_by_id :
    (name : String) (rows : List UserRow) {row : UserRow}
    → IsUserTable rows
    → find_user name rows ≡ some row
    → find_user_id row.id rows ≡ some row
unfolding find_user find_user_id
find_by_id name [] {row} table e = absurd (ground (arith, e))
find_by_id name (r ∷ rows) {row} (fresh, unique, table) e =
    elim (find_user_cons name r rows {row = row} e) [
      | inl same ↦
          let ids : r.id ≡ row.id = ap (λ (x : UserRow). x.id) same in
          if_true (r.id == row.id) _ _ (ground (arith, ids)) ∙ ap some same
      | inr later ↦ elim (Bool-cases (r.id == row.id)) [
        | inl h ↦
            let ids : r.id ≡ row.id = ground (arith, h) in
            absurd (
              ground (
                arith,
                fresh,
                found_has_id name rows {row = row} later,
                ap (λ i. has_user_id i rows) ids,
              ))
        | inr h ↦ if_false (r.id == row.id) _ _ h ∙ find_by_id name rows {row = row} table later
      ]
    ]

scanned_id :
    (u : UuidFormat) (row : UserRow) (t : Option ℕ) {user : User}
    → scan_user u row t ≡ granted user
    → u.print row.id ≡ user.id
scanned_id u row none {user} e = absurd (ground (arith, e))
scanned_id u row (some t) {user} e = ground (arith, e)

found_row :
    (u : UuidFormat) (found : Option UserRow) {user : User}
    → found_user u found ≡ granted user
    → (row : UserRow) × (found ≡ some row) × (u.print row.id ≡ user.id)
found_row u none {user} e = absurd (ground (arith, e))
found_row u (some row) {user} e = (row, refl, scanned_id u row row.tenant_id {user = user} e)

id_row :
    (u : UuidFormat) (i : ℕ) (db : Db)
    → get_by_id u true (u.print i) db ≡ found_user u (find_user_id i db.users)
unfolding get_by_id
id_row u i db = rw (u.read-print i, get_by_id) refl

-- The user that `GetByUsername` finds under a name is the one that `GetByID` finds under this user's id, where the ids
-- of the table are distinct; so the id in a token's claims leads back to the user who logged in.
pub get_by_id-get_by_username :
    (u : UuidFormat) (name : String) (db : Db) {user : User}
    → IsUserTable db.users
    → get_by_username u true name db ≡ granted user
    → get_by_id u true user.id db ≡ granted user
unfolding get_by_username
get_by_id-get_by_username u name db {user} table e =
    let (row, found, id) = found_row u (find_user name db.users) {user = user} e in
    ap (λ i. get_by_id u true i db) (sym id)
    ∙ id_row u row.id db
    ∙ ap (found_user u) (find_by_id name db.users {row = row} table found ∙ sym found)
    ∙ e

-- Ids and names of users stay distinct, whatever `Register` is asked for and however its statement ends.
pub register-IsUserTable :
    (u : UuidFormat) (h : Bcrypt) (served : Bool) (o : Outcome) (salt i now : ℕ)
    (req : RegisterRequest) (db : Db)
    → IsUserTable db.users
    → IsUserTable (register u h served o salt i now req db).0.users
register-IsUserTable u h served o salt i now req db table =
    register_cases u (λ d. IsUserTable d.users) db table
      (λ row t own fits. (ground (arith, fits), ground (arith, fits), table)) h served o salt i now
      req
