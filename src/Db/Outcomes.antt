-- ===== src/Db/Outcomes.antt =====
-- Whatever the outcome of a statement, the tables are the old ones or those that the statement makes.
use multi_tenant_messaging.Db.{Db, Outcome, exec, applied, exec_on, refused, unconfirmed}
use multi_tenant_messaging.Base.{Option, ℕ, some, ◌≡◌, refl}
use mathlib.Core.Option.{none}

pub exec_either :
    (P : Db → Type 0) (o : Outcome) (f : Db → Db) (db : Db) → P db → P (f db) → P (exec o f db).0
exec_either P applied f db old new = new
exec_either P refused f db old new = old
exec_either P unconfirmed f db old new = new

pub exec_on_either :
    (P : Db → Type 0) (o : Outcome) (i t : Option ℕ) (g : ℕ → ℕ → Db → Db) (db : Db)
    → P db
    → ((j k : ℕ) → i ≡ some j → t ≡ some k → P (g j k db))
    → P (exec_on o i t g db).0
exec_on_either P o none t g db old new = old
exec_on_either P o (some i) none g db old new = old
exec_on_either P o (some i) (some t) g db old new =
    exec_either P o (g i t) db old (new i t refl refl)
