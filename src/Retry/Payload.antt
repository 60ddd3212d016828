-- ===== src/Retry/Payload.antt =====
-- The payload of the row that the processing of an item leaves.
use multi_tenant_messaging.Base.{
  ℕ, Bool, Option, if◌then◌else◌, some, if_elim, ◌≡◌, refl, arith, sym,
}
use multi_tenant_messaging.Json.{Json, value}
use multi_tenant_messaging.Base.Int.{ℤ}
use multi_tenant_messaging.Db.{
  Db, Status, set_status, upsert_processing, MessageRow, find_row, insert_dead_letter, UuidFormat,
}
use multi_tenant_messaging.Db.Rows.{
  find_row-set_status, same_key, with_status, upserted, find_row-upsert,
}
use multi_tenant_messaging.Retry.{payload_json, FloatScale, Attempt, Burial, process_work}
use mathlib.Core.Option.{none}
use multi_tenant_messaging.Pool.{WorkItem}
use multi_tenant_messaging.Retry.Tables.{process_work-kept}

-- A row, where there is one, has this payload.
abbrev pub HasPayload : Json → Option MessageRow → Type 0
HasPayload p none = Unit
HasPayload p (some row) = row.payload ≡ p

abbrev pub KeepsPayload : ℕ → ℕ → Json → Db → Type 0
KeepsPayload i t p db = HasPayload p (find_row i t db.messages)

upserted-HasPayload :
    (p : Json) (r : ℤ) (now i t : ℕ) (found : Option MessageRow)
    → HasPayload p found
    → HasPayload p (some (upserted p r now i t found))
upserted-HasPayload p r now i t none h = refl
upserted-HasPayload p r now i t (some row) h = h

with_status-HasPayload :
    (p : Json) (s : Status) (now : ℕ) (found : Option MessageRow)
    → HasPayload p found
    → HasPayload p (with_status s now found)
with_status-HasPayload p s now none h = tt
with_status-HasPayload p s now (some row) h = h

if-HasPayload :
    (p : Json) (b : Bool) (x y : Option MessageRow)
    → HasPayload p x
    → HasPayload p y
    → HasPayload p (if b then x else y)
if-HasPayload p b x y there here = if_elim (HasPayload p) b (λ _. there) (λ _. here)

module _ (i t : ℕ) (p : Json) where
  upsert-KeepsPayload :
      (q : Json) (r : ℤ) (now j k : ℕ) (db : Db)
      → payload_json (value p) ≡ some q
      → KeepsPayload i t p db
      → KeepsPayload i t p (upsert_processing q r now j k db)
  unfolding upsert_processing
  upsert-KeepsPayload q r now j k db same h = rw (find_row-upsert q r now j k i t db.messages) (
      if_elim (HasPayload p) (same_key j k i t)
        (λ own.
          let ids : j ≡ i = ground (arith, own) in
          let tenants : k ≡ t = ground (arith, own) in
          let read : p ≡ q = ground (arith, same) in
          rw (sym read, ids, tenants) (upserted-HasPayload p r now i t _ h))
        (λ _. h))

  set_status-KeepsPayload :
      (s : Status) (now j k : ℕ) (db : Db)
      → KeepsPayload i t p db
      → KeepsPayload i t p (set_status s now j k db)
  unfolding set_status
  set_status-KeepsPayload s now j k db h =
      rw (find_row-set_status s now j k i t db.messages)
        (if-HasPayload p (same_key j k i t) _ _ (with_status-HasPayload p s now _ h) h)

  -- Whatever happens in the attempts, the row of the key keeps the item's payload, or gets it.
  pub process_work-KeepsPayload :
      (u : UuidFormat) (f : FloatScale) (m : ℤ) (env : ℕ → Attempt) (b : Burial) (item : WorkItem)
      (db : Db)
      → item.payload ≡ value p
      → KeepsPayload i t p db
      → KeepsPayload i t p (process_work u f m env b item db)
  unfolding insert_dead_letter
  process_work-KeepsPayload u f m env b item db same h =
      process_work-kept u (KeepsPayload i t p) item
        (λ q r now j k db read _ _ held. upsert-KeepsPayload q r now j k db (rw same at read) held)
        (λ s now j k db _ _ held. set_status-KeepsPayload s now j k db held) f m env
        (λ q why r now j k db held. held) b item db (refl, refl, refl) h
