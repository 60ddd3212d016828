-- ===== src/Tenants/Rows.antt =====
-- What the statements on `tenants` do to the lookup of an id, and the constraints of the table.
use multi_tenant_messaging.Base.{
  ℕ, List, Option, String, some, ◌∷◌, ◌≡◌, Bool-cases, arith, false, if◌then◌else◌, true, ◌==◌, inl,
  refl, inr, ◌∙◌,
}
use multi_tenant_messaging.Base.Int.{ℤ}
use multi_tenant_messaging.Tenants.{
  find_tenant, keep_tenants, set_concurrency_rows, clashes, in_worker_range,
}
use multi_tenant_messaging.Db.{TenantRow}
use mathlib.Core.Option.{none}
use mathlib.Core.List.{[]}

pub find_tenant-keep :
    (i j : ℕ) (rows : List TenantRow)
    → find_tenant j (keep_tenants i rows) ≡ (if i == j then none else find_tenant j rows)
unfolding find_tenant keep_tenants
find_tenant-keep i j [] = ground arith
find_tenant-keep i j (row ∷ rows) = ground (arith, find_tenant-keep i j rows)

abbrev pub with_concurrency : ℤ → ℕ → TenantRow → TenantRow
with_concurrency n now row = record row { concurrency = n; updated_at = now }

abbrev pub with_concurrency_at : ℤ → ℕ → Option TenantRow → Option TenantRow
with_concurrency_at n now none = none
with_concurrency_at n now (some row) = some (with_concurrency n now row)

pub find_tenant-set :
    (n : ℤ) (now i j : ℕ) (rows : List TenantRow)
    → find_tenant j (set_concurrency_rows n now i rows)
      ≡ (if i == j then with_concurrency_at n now (find_tenant j rows) else find_tenant j rows)
unfolding find_tenant set_concurrency_rows
find_tenant-set n now i j [] = ground arith
find_tenant-set n now i j (row ∷ rows) = ground (arith, find_tenant-set n now i j rows)

-- Distinct ids, distinct names, and a concurrency from 1 to 50.
abbrev pub IsTenantTable : List TenantRow → Type 0
IsTenantTable [] = Unit
IsTenantTable (row ∷ rows) =
    (clashes row.id row.name rows ≡ false)
    × (in_worker_range row.concurrency ≡ true)
    × IsTenantTable rows

clashes-keep :
    (i j : ℕ) (name : String) (rows : List TenantRow)
    → clashes j name rows ≡ false
    → clashes j name (keep_tenants i rows) ≡ false
unfolding keep_tenants
clashes-keep i j name [] e = refl
clashes-keep i j name (row ∷ rows) e = ground (arith, clashes-keep i j name rows)

pub keep_tenants-IsTenantTable :
    (i : ℕ) (rows : List TenantRow) → IsTenantTable rows → IsTenantTable (keep_tenants i rows)
unfolding keep_tenants
keep_tenants-IsTenantTable i [] v = tt
keep_tenants-IsTenantTable i (row ∷ rows) (fresh, range, v) = elim (Bool-cases (row.id == i)) [
  | inl e ↦ rw e (keep_tenants-IsTenantTable i rows v)
  | inr e ↦
      rw e (clashes-keep i row.id row.name rows fresh, range, keep_tenants-IsTenantTable i rows v)
]

clashes-set :
    (n : ℤ) (now i j : ℕ) (name : String) (rows : List TenantRow)
    → clashes j name (set_concurrency_rows n now i rows) ≡ clashes j name rows
unfolding set_concurrency_rows
clashes-set n now i j name [] = refl
clashes-set n now i j name (row ∷ rows) = ground (arith, clashes-set n now i j name rows)

pub set_concurrency_rows-IsTenantTable :
    (n : ℤ) (now i : ℕ) (rows : List TenantRow)
    → in_worker_range n ≡ true
    → IsTenantTable rows
    → IsTenantTable (set_concurrency_rows n now i rows)
unfolding set_concurrency_rows
set_concurrency_rows-IsTenantTable n now i [] ok v = tt
set_concurrency_rows-IsTenantTable n now i (row ∷ rows) ok (fresh, range, v) =
    elim (Bool-cases (row.id == i)) [
      | inl e ↦ rw e (
        clashes-set n now i row.id row.name rows ∙ fresh,
        ok,
        set_concurrency_rows-IsTenantTable n now i rows ok v,
      )
      | inr e ↦ rw e (
        clashes-set n now i row.id row.name rows ∙ fresh,
        range,
        set_concurrency_rows-IsTenantTable n now i rows ok v,
      )
    ]
