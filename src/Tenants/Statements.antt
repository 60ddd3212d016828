-- ===== src/Tenants/Statements.antt =====
-- How the statements of `TenantService` are answered, by how they end.
use multi_tenant_messaging.Base.{Bool, Option, ◌≡◌, arith, some, refl, String, ℕ}
use multi_tenant_messaging.Db.{
  Db, Outcome, TenantRow, exec, applied, refused, unconfirmed, UuidFormat,
}
use multi_tenant_messaging.Tenants.{
  answered, good, on_tenant, delete_tenant, find_tenant, remove_tenant,
}
use mathlib.Core.Bool.{true, false}
use mathlib.Core.Option.{none}
use multi_tenant_messaging.Db.Outcomes.{exec_either}

-- A statement that is answered well took effect.
pub answered_good :
    {A : Type 0} {a r : A} (o : Outcome) (f : Db → Db) (db : Db)
    → (answered a (exec o f db)).1 ≡ good r
    → ((answered a (exec o f db)).0 ≡ f db) × (a ≡ r)
answered_good applied f db e = ground (arith, e)
answered_good refused f db e = absurd (ground (arith, e))
answered_good unconfirmed f db e = absurd (ground (arith, e))

pub on_tenant_good :
    {A : Type 0} {r : A} (o : Outcome) (f : Db → Db) (a : TenantRow → A) (found : Option TenantRow)
    (db : Db)
    → (on_tenant o f a found db).1 ≡ good r
    → (row : TenantRow) × (found ≡ some row) × ((on_tenant o f a found db).0 ≡ f db) × (a row ≡ r)
on_tenant_good o f a none db e = absurd (ground (arith, e))
on_tenant_good o f a (some row) db e =
    let (done, same) = answered_good o f db e in (row, refl, done, same)

pub answered_either :
    {A : Type 0} (P : Db → Type 0) (a : A) (out : Db × Bool) → P out.0 → P (answered a out).0
answered_either P a (db, true) p = p
answered_either P a (db, false) p = p

pub on_tenant_either :
    {A : Type 0} (P : Db → Type 0) (o : Outcome) (f : Db → Db) (a : TenantRow → A)
    (found : Option TenantRow) (db : Db)
    → P db
    → P (f db)
    → P (on_tenant o f a found db).0
on_tenant_either P o f a none db old new = old
on_tenant_either P o f a (some row) db old new =
    answered_either P (a row) (exec o f db) (exec_either P o f db old new)

-- A tenant that is there is deleted.
pub delete_found :
    (u : UuidFormat) (id : String) (db : Db) {i : ℕ} {row : TenantRow}
    → u.read id ≡ some i
    → find_tenant i db.tenants ≡ some row
    → delete_tenant u applied id db ≡ (remove_tenant i db, good tt)
unfolding delete_tenant
delete_found u id db {i} {row} read found = rw (read, found, delete_tenant) refl
