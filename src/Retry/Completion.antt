-- ===== src/Retry/Completion.antt =====
-- The message table after `processWork`: the row of the item, and every other row.
use multi_tenant_messaging.Base.{
  ℕ, List, ◌≡◌, some, arith, none, ◌+◌, Bool, Bool-cases, true, Option-cases, suc, inl, refl, inr,
}
use multi_tenant_messaging.Db.{
  Db, Status, UuidFormat, MessageRow, find_row, completed, set_status_rows, set_status,
  upsert_processing,
}
use multi_tenant_messaging.Pool.{WorkItem}
use multi_tenant_messaging.Retry.{
  handle_message, Attempt, FloatScale, after_upsert, upsert_message, process_with_retry, Burial,
  payload_json, process_work,
}
use multi_tenant_messaging.Base.Int.{pos}
use multi_tenant_messaging.Db.Rows.{find_row-set_status, upserted, find_row-upsert}
use multi_tenant_messaging.Retry.Attempts.{
  loop, any_from, succeeds, loop_success, loop_last, process_with_retry_ok, loop_again,
  retried_item,
}
use mathlib.Core.Bool.{false}
use multi_tenant_messaging.Json.{decodes_to_map}
use multi_tenant_messaging.Retry.DeadLetter.{retries_keep_dead_letters}
use multi_tenant_messaging.Retry.Tables.{process_work_done}
use Prim.Native.Nat.{zero}

abbrev pub HasCompleted : ℕ → ℕ → Db → Type 0
HasCompleted i t db =
    (row : MessageRow) × (find_row i t db.messages ≡ some row) × (row.status ≡ completed)

-- A row that is found stays one, with the status set.
with_status-some :
    (s : Status) (now i t : ℕ) (rows : List MessageRow) (row : MessageRow)
    → find_row i t rows ≡ some row
    → find_row i t (set_status_rows s now i t rows)
      ≡ some (record row { status = s; updated_at = now })
with_status-some s now i t rows row e = ground (arith, find_row-set_status s now i t i t rows)

module _ (u : UuidFormat) (item : WorkItem) {i t : ℕ} (id_read : u.read item.message_id ≡ some i)
    (tenant_read : u.read item.tenant_id ≡ some t) where
  upsert_message_row :
      (a : Attempt) (db : Db)
      → (upsert_message u item a db).1 ≡ true
      → (row : MessageRow) × (find_row i t (upsert_message u item a db).0.messages ≡ some row)
  unfolding upsert_message upsert_processing
  upsert_message_row a db ok = elim (Option-cases (payload_json item.payload)) [
    | inl e ↦ absurd (ground arith)
    | inr (p, e) ↦ (
      upserted p item.retry_count a.now i t (find_row i t db.messages),
      ground (arith, find_row-upsert p item.retry_count a.now i t i t db.messages),
    )
  ]

  after_upsert-HasCompleted :
      (a : Attempt) (r : Db × Bool) (row : MessageRow)
      → find_row i t r.0.messages ≡ some row
      → (after_upsert u item a r).1 ≡ none
      → HasCompleted i t (after_upsert u item a r).0
  unfolding after_upsert set_status
  after_upsert-HasCompleted a (db, false) row e ok = cc
  after_upsert-HasCompleted a (db, true) row e ok = (
    record row { status = completed; updated_at = a.now },
    ground (arith, with_status-some completed a.now i t db.messages row e),
    refl,
  )

  handle_message-HasCompleted :
      (a : Attempt) (db : Db)
      → (handle_message u item a db).1 ≡ none
      → HasCompleted i t (handle_message u item a db).0
  unfolding handle_message
  handle_message-HasCompleted a db ok = elim (Bool-cases (decodes_to_map item.payload)) [
    | inl good ↦ elim (Bool-cases (upsert_message u item a db).1) [
      | inl stored ↦
          let (row, found) = upsert_message_row a db stored in
          rw good (
            after_upsert-HasCompleted a (upsert_message u item a db) row found (ground (arith, ok)))
      | inr lost ↦ absurd (ground (arith, ok))
    ]
    | inr bad ↦ absurd (ground (arith, ok))
  ]

module _ (u : UuidFormat) (f : FloatScale) (n : ℕ) (env : ℕ → Attempt) {i t : ℕ} where
  loop-HasCompleted :
      (rounds attempt : ℕ) (item : WorkItem) (db : Db)
      → attempt + rounds ≡ n
      → u.read item.message_id ≡ some i
      → u.read item.tenant_id ≡ some t
      → (loop u f n env (suc rounds) attempt item db).error ≡ none
      → HasCompleted i t (loop u f n env (suc rounds) attempt item db).db
  loop-HasCompleted zero attempt item db e id_read tenant_read ok =
      elim (Option-cases (handle_message u item (env attempt) db).1) [
        | inl fine ↦
            rw (loop_success u f n env 0 attempt item db fine)
              (handle_message-HasCompleted u item id_read tenant_read (env attempt) db fine)
        | inr (x, bad) ↦
            absurd (ground (arith, ok, loop_last u f n env 0 attempt item db x bad (omega arith)))
      ]
  loop-HasCompleted (suc rounds) attempt item db e id_read tenant_read ok =
      elim (Option-cases (handle_message u item (env attempt) db).1) [
        | inl fine ↦
            rw (loop_success u f n env (suc rounds) attempt item db fine)
              (handle_message-HasCompleted u item id_read tenant_read (env attempt) db fine)
        | inr (x, bad) ↦
            let again = loop_again u f n env (suc rounds) attempt item db x bad (omega arith) in
            rw again (
              loop-HasCompleted rounds (attempt + 1) (retried_item item attempt)
                (handle_message u item (env attempt) db).0 (omega arith) id_read tenant_read
                (rw again at ok))
      ]

  -- If one of the attempts 0 to `maxRetry` succeeds, the message's row is there afterwards and is
  -- completed, and no dead letter is added.
  pub process_work-HasCompleted :
      (b : Burial) (item : WorkItem) (db : Db)
      → u.read item.message_id ≡ some i
      → u.read item.tenant_id ≡ some t
      → any_from (λ k. succeeds u item (env k)) (suc n) 0 ≡ true
      → HasCompleted i t (process_work u f (pos n) env b item db)
        × ((process_work u f (pos n) env b item db).dead_letters ≡ db.dead_letters)
  unfolding process_with_retry
  process_work-HasCompleted b item db id_read tenant_read ok =
      let fine : (process_with_retry u f (pos n) env item db).error ≡ none =
        ground (arith, process_with_retry_ok u f n env item db) in
      rw (process_work_done u f (pos n) env b item db fine) (
        loop-HasCompleted n 0 item db (omega arith) id_read tenant_read fine,
        retries_keep_dead_letters u f (pos n) env item db,
      )
