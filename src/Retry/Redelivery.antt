-- ===== src/Retry/Redelivery.antt =====
-- A message that fails in every attempt, whatever its row was before: as after a second delivery.
use multi_tenant_messaging.Base.{
  ℕ, ◌≡◌, Option, ◌%◌, some, ◌==◌, true, arith, refl, ◌+◌, suc, ap, false, ◌∙◌, if_false, subst,
  sym,
}
use multi_tenant_messaging.Db.{
  UuidFormat, Db, upsert_processing, MessageRow, applied, find_row, processing,
}
use multi_tenant_messaging.Json.{Json, value, decodes_to_map}
use multi_tenant_messaging.Retry.{
  Attempt, handle_message, upsert_message, after_upsert, simulated, FloatScale, process_with_retry,
  Burial, process_work,
}
use multi_tenant_messaging.Base.Int.{ℤ, ltb_ℤ, pos, leb_ℤ}
use multi_tenant_messaging.Pool.{WorkItem}
use multi_tenant_messaging.Db.Rows.{upserted, find_row-upsert}
use mathlib.Core.Option.{none}
use multi_tenant_messaging.Retry.Attempts.{loop, loop_last, loop_again, retried_item}
use multi_tenant_messaging.Retry.Payload.{KeepsPayload, process_work-KeepsPayload}
use Prim.Native.Nat.{zero}
use multi_tenant_messaging.Retry.DeadLetter.{below_limit_never_dead_letter}
use multi_tenant_messaging.Retry.Tables.{process_work_given_up}

-- An attempt that stores the message as processing and then meets the simulated failure.
pub record IsFailing (a : Attempt) : Type 0 where
  pub stored : a.upsert ≡ applied
  pub fails : (a.nanos % 10 == 0) ≡ true

abbrev pub IsProcessing : ℕ → ℕ → Db → Type 0
IsProcessing i t db =
    (row : MessageRow) × (find_row i t db.messages ≡ some row) × (row.status ≡ processing)

upserted_status :
    (p : Json) (r : ℤ) (now i t : ℕ) (found : Option MessageRow)
    → (upserted p r now i t found).status ≡ processing
upserted_status p r now i t none = refl
upserted_status p r now i t (some row) = refl

module _ (u : UuidFormat) {i t : ℕ} {p : Json} where
  failing_lem :
      (item : WorkItem) (a : Attempt) (db : Db)
      → IsFailing a
      → item.payload ≡ value p
      → decodes_to_map (value p) ≡ true
      → u.read item.message_id ≡ some i
      → u.read item.tenant_id ≡ some t
      → handle_message u item a db
        ≡ (upsert_processing p item.retry_count a.now i t db, some simulated)
  unfolding handle_message upsert_message after_upsert
  failing_lem item a db failing payload good id_read tenant_read =
      rw (payload, good, id_read, tenant_read, failing.stored, failing.fails) refl

  failing-IsProcessing :
      (item : WorkItem) (a : Attempt) (db : Db)
      → IsFailing a
      → item.payload ≡ value p
      → decodes_to_map (value p) ≡ true
      → u.read item.message_id ≡ some i
      → u.read item.tenant_id ≡ some t
      → IsProcessing i t (handle_message u item a db).0
  unfolding upsert_processing
  failing-IsProcessing item a db failing payload good id_read tenant_read =
      rw (failing_lem item a db failing payload good id_read tenant_read) (
        upserted p item.retry_count a.now i t (find_row i t db.messages),
        ground (arith, find_row-upsert p item.retry_count a.now i t i t db.messages),
        upserted_status p item.retry_count a.now i t (find_row i t db.messages),
      )

  module _ (f : FloatScale) (n : ℕ) (env : ℕ → Attempt) (failing : (k : ℕ) → IsFailing (env k))
      (good : decodes_to_map (value p) ≡ true) where
    loop-IsProcessing :
        (rounds attempt : ℕ) (item : WorkItem) (db : Db)
        → attempt + rounds ≡ n
        → item.payload ≡ value p
        → u.read item.message_id ≡ some i
        → u.read item.tenant_id ≡ some t
        → IsProcessing i t (loop u f n env (suc rounds) attempt item db).db
          × ((loop u f n env (suc rounds) attempt item db).error ≡ some simulated)
    loop-IsProcessing zero attempt item db e payload id_read tenant_read =
        let told =
          failing_lem item (env attempt) db (failing attempt) payload good id_read tenant_read in
        rw (loop_last u f n env 0 attempt item db simulated (ap (λ out. out.1) told) (omega arith))
          (
            failing-IsProcessing item (env attempt) db (failing attempt) payload good id_read
                tenant_read,
            refl,
          )
    loop-IsProcessing (suc rounds) attempt item db e payload id_read tenant_read =
        let told =
          failing_lem item (env attempt) db (failing attempt) payload good id_read tenant_read in
        rw
          (loop_again u f n env (suc rounds) attempt item db simulated (ap (λ out. out.1) told)
            (omega arith))
          (loop-IsProcessing rounds (attempt + 1) (retried_item item attempt)
            (handle_message u item (env attempt) db).0 (omega arith) payload id_read tenant_read)

    -- An item below the retry limit whose every attempt stores its row and then meets the simulated failure
    -- leaves the row as `processing`, whatever it was before: a message that was completed, and is delivered again, is no
    -- longer completed. It becomes no dead letter, and a row with the
    -- item's payload keeps it.
    pub process_work-IsProcessing :
        (b : Burial) (item : WorkItem) (db : Db)
        → item.payload ≡ value p
        → u.read item.message_id ≡ some i
        → u.read item.tenant_id ≡ some t
        → ltb_ℤ item.retry_count (pos n) ≡ true
        → KeepsPayload i t p db
        → IsProcessing i t (process_work u f (pos n) env b item db)
          × ((process_work u f (pos n) env b item db).dead_letters ≡ db.dead_letters)
          × KeepsPayload i t p (process_work u f (pos n) env b item db)
    unfolding process_with_retry
    process_work-IsProcessing b item db payload id_read tenant_read below held =
        let (last, error) =
          loop-IsProcessing n 0 item db (omega arith) payload id_read tenant_read in
        let short : leb_ℤ (pos n) item.retry_count ≡ false = ground (arith, below) in
        let over : process_work u f (pos n) env b item db
            ≡ (process_with_retry u f (pos n) env item db).db =
          process_work_given_up u f (pos n) env b item db simulated error ∙ if_false _ _ _ short in
        (
          subst (IsProcessing i t) (sym over) last,
          below_limit_never_dead_letter u f (pos n) env b item db below,
          process_work-KeepsPayload i t p u f (pos n) env b item db payload held,
        )
