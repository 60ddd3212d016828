-- ===== src/Db/Rows.antt =====
-- What the statements on `messages` do to the row of a key: the lookup after each of them.
use multi_tenant_messaging.Base.{
  ℕ, Bool, Option, ◌==◌, List, ◌&&◌, some, ◌≡◌, if◌then◌else◌, arith, ◌∷◌, Bool-cases, inl, subst,
  inr,
}
use multi_tenant_messaging.Db.{
  Status, find_row, set_status_rows, upsert_rows, MessageRow, processing, is_row,
}
use multi_tenant_messaging.Json.{Json}
use multi_tenant_messaging.Base.Int.{ℤ}
use mathlib.Core.Option.{none}
use mathlib.Core.List.{[]}

-- A row with its status set, if there is one.
abbrev pub with_status : Status → ℕ → Option MessageRow → Option MessageRow
with_status s now none = none
with_status s now (some row) = some (record row { status = s; updated_at = now })

abbrev pub same_key : ℕ → ℕ → ℕ → ℕ → Bool
same_key i t j u = i == j && t == u

pub find_row-set_status :
    (s : Status) (now i t j u : ℕ) (rows : List MessageRow)
    → find_row j u (set_status_rows s now i t rows)
      ≡ (if same_key i t j u then with_status s now (find_row j u rows) else find_row j u rows)
unfolding find_row set_status_rows
find_row-set_status s now i t j u [] = ground arith
find_row-set_status s now i t j u (row ∷ rows) =
    ground (arith, find_row-set_status s now i t j u rows)

abbrev pub upserted : Json → ℤ → ℕ → ℕ → ℕ → Option MessageRow → MessageRow
upserted payload retries now i t none = record {
  id = i;
  tenant_id = t;
  payload = payload;
  status = processing;
  retry_count = retries;
  created_at = now;
  updated_at = now;
}
upserted payload retries now i t (some row) = record row {
  status = processing;
  retry_count = retries;
  updated_at = now;
}

pub find_row-upsert :
    (p : Json) (r : ℤ) (now i t j u : ℕ) (rows : List MessageRow)
    → find_row j u (upsert_rows p r now i t rows) ≡ (
        if same_key i t j u
        then some (upserted p r now i t (find_row i t rows))
        else find_row j u rows)
unfolding find_row upsert_rows
find_row-upsert p r now i t j u [] = ground arith
find_row-upsert p r now i t j u (row ∷ rows) = ground (arith, find_row-upsert p r now i t j u rows)

abbrev HasKey : ℕ → ℕ → Option MessageRow → Type 0
HasKey i t none = Unit
HasKey i t (some row) = (row.id ≡ i) × (row.tenant_id ≡ t)

-- The row of a key has that key.
pub find_row_key :
    (i t : ℕ) (rows : List MessageRow) (row : MessageRow)
    → find_row i t rows ≡ some row
    → (row.id ≡ i) × (row.tenant_id ≡ t)
unfolding find_row
find_row_key i t [] row e = absurd (ground (arith, e))
find_row_key i t (r ∷ rows) row e = elim (Bool-cases (is_row i t r)) [
  | inl here ↦
      let ids : r.id ≡ i = ground (arith, here) in
      let tenants : r.tenant_id ≡ t = ground (arith, here) in
      subst (HasKey i t) (rw here at e) (ids, tenants)
  | inr other ↦ find_row_key i t rows row (rw other at e)
]
