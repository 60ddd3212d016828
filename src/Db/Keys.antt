-- ===== src/Db/Keys.antt =====
-- The primary key of `messages`, under the statements on that table.
use multi_tenant_messaging.Base.{List, ℕ, ◌∷◌, ◌≡◌, false, none, arith, Bool-cases, inl, inr, refl}
use multi_tenant_messaging.Db.{set_status_rows, upsert_rows, MessageRow, find_row, is_row, Status}
use mathlib.Core.List.{[]}
use multi_tenant_messaging.Db.Rows.{same_key, find_row-set_status, find_row-upsert}
use multi_tenant_messaging.Json.{Json}
use multi_tenant_messaging.Base.Int.{ℤ}

-- No two rows have the same id and tenant.
abbrev pub IsMessageTable : List MessageRow → Type 0
IsMessageTable [] = Unit
IsMessageTable (row ∷ rows) = (find_row row.id row.tenant_id rows ≡ none) × IsMessageTable rows

-- A row's key is what the lookup compares.
other_key :
    (i t : ℕ) (row : MessageRow)
    → is_row i t row ≡ false
    → same_key i t row.id row.tenant_id ≡ false
other_key i t row e = ground (arith, e)

pub set_status_rows-IsMessageTable :
    (s : Status) (now i t : ℕ) (rows : List MessageRow)
    → IsMessageTable rows
    → IsMessageTable (set_status_rows s now i t rows)
unfolding set_status_rows
set_status_rows-IsMessageTable s now i t [] v = tt
set_status_rows-IsMessageTable s now i t (row ∷ rows) (new, v) =
    let rest = set_status_rows-IsMessageTable s now i t rows v in
    let same = find_row-set_status s now i t row.id row.tenant_id rows in
    elim (Bool-cases (is_row i t row)) [
      | inl e ↦ rw e (ground (arith, same, new), rest)
      | inr e ↦ rw e (ground (arith, same, new), rest)
    ]

pub upsert_rows-IsMessageTable :
    (p : Json) (r : ℤ) (now i t : ℕ) (rows : List MessageRow)
    → IsMessageTable rows
    → IsMessageTable (upsert_rows p r now i t rows)
unfolding upsert_rows find_row
upsert_rows-IsMessageTable p r now i t [] v = (refl, tt)
upsert_rows-IsMessageTable p r now i t (row ∷ rows) (new, v) = elim (Bool-cases (is_row i t row)) [
  | inl e ↦ rw e (new, v)
  | inr e ↦
      let other = other_key i t row e in
      rw e (
        rw (find_row-upsert p r now i t row.id row.tenant_id rows, other) new,
        upsert_rows-IsMessageTable p r now i t rows v,
      )
]
