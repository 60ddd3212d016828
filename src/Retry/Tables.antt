-- ===== src/Retry/Tables.antt =====
-- What holds of the tables before an item is processed and is kept by each statement of the processing
-- holds afterwards, however often the worker retries and wherever it fails.
use Prim.Native.Nat.{zero}
use multi_tenant_messaging.Db.{
  Db, UuidFormat, upsert_processing, Status, set_status, insert_dead_letter, completed, failed,
}
use multi_tenant_messaging.Json.{Json, decodes_to_map}
use multi_tenant_messaging.Base.{
  ℕ, some, ◌≡◌, Bool, Bool-cases, Option-cases, String, inl, suc, ◌%◌, inr, ◌+◌, ◌==◌,
  if◌then◌else◌, none,
}
use multi_tenant_messaging.Base.Int.{ℤ, ltb_ℤ, pos, leb_ℤ}
use multi_tenant_messaging.Retry.{
  payload_json, FloatScale, after_complete, after_upsert, handle_message, upsert_message, Attempt,
  mark_completed, process_with_retry, retry_loop, rounds_of, Burial, bury, move_to_dead_letter,
  WorkError, process_work, reason,
}
use multi_tenant_messaging.Pool.{WorkItem}
use mathlib.Core.Bool.{true, false}
use multi_tenant_messaging.Retry.Attempts.{retried_item}
use multi_tenant_messaging.Db.Outcomes.{exec_on_either}

module _ (u : UuidFormat) (f : FloatScale) where
  -- The way out of `processWork`.
  pub process_work_done :
      (m : ℤ) (env : ℕ → Attempt) (b : Burial) (item : WorkItem) (db : Db)
      → (process_with_retry u f m env item db).error ≡ none
      → process_work u f m env b item db ≡ (process_with_retry u f m env item db).db
  unfolding process_work
  process_work_done m env b item db e = rw (e, process_work)

  pub process_work_given_up :
      (m : ℤ) (env : ℕ → Attempt) (b : Burial) (item : WorkItem) (db : Db) (x : WorkError)
      → (process_with_retry u f m env item db).error ≡ some x
      → process_work u f m env b item db ≡ (
          if leb_ℤ m item.retry_count
          then move_to_dead_letter u item x b (process_with_retry u f m env item db).db
          else (process_with_retry u f m env item db).db)
  unfolding process_work
  process_work_given_up m env b item db x e = rw (e, process_work)

-- An item as it was submitted, but for the retry count.
abbrev pub IsCopy : WorkItem → WorkItem → Type 0
IsCopy origin item =
    (item.message_id ≡ origin.message_id)
    × (item.tenant_id ≡ origin.tenant_id)
    × (item.payload ≡ origin.payload)

module _ (u : UuidFormat) (P : Db → Type 0) (origin : WorkItem)
    (upserts : (p : Json) (r : ℤ) (now i t : ℕ) (db : Db)
      → payload_json origin.payload ≡ some p
      → u.read origin.message_id ≡ some i
      → u.read origin.tenant_id ≡ some t
      → P db
      → P (upsert_processing p r now i t db))
    (sets : (s : Status) (now i t : ℕ) (db : Db)
      → u.read origin.message_id ≡ some i
      → u.read origin.tenant_id ≡ some t
      → P db
      → P (set_status s now i t db)) where
  upsert_message-kept :
      (item : WorkItem) (a : Attempt) (db : Db)
      → IsCopy origin item
      → P db
      → P (upsert_message u item a db).0
  unfolding upsert_message
  upsert_message-kept item a db same v = elim (Option-cases (payload_json item.payload)) [
    | inl e ↦ rw (e, upsert_message) v
    | inr (p, e) ↦
        rw (e, upsert_message)
          (exec_on_either P a.upsert _ _ _ db v (λ i t id_read tenant_read.
            upserts p item.retry_count a.now i t db (rw same.2 at e) (rw same.0 at id_read)
              (rw same.1 at tenant_read) v))
  ]

  after_complete-kept : (a : Attempt) (out : Db × Bool) → P out.0 → P (after_complete u a out).0
  unfolding after_complete
  after_complete-kept a (db, true) v = v
  after_complete-kept a (db, false) v = v

  after_upsert-kept :
      (item : WorkItem) (a : Attempt) (out : Db × Bool)
      → IsCopy origin item
      → P out.0
      → P (after_upsert u item a out).0
  unfolding after_upsert mark_completed
  after_upsert-kept item a (db, false) same v = v
  after_upsert-kept item a (db, true) same v = elim (Bool-cases (a.nanos % 10 == 0)) [
    | inl fails ↦ rw fails v
    | inr works ↦ rw works (
        after_complete-kept a _ (
          exec_on_either P a.complete _ _ _ db v (λ i t id_read tenant_read.
            sets completed a.now i t db (rw same.0 at id_read) (rw same.1 at tenant_read) v)))
  ]

  pub handle_message-kept :
      (item : WorkItem) (a : Attempt) (db : Db)
      → IsCopy origin item
      → P db
      → P (handle_message u item a db).0
  unfolding handle_message
  handle_message-kept item a db same v = elim (Bool-cases (decodes_to_map item.payload)) [
    | inl good ↦ rw good (after_upsert-kept item a _ same (upsert_message-kept item a db same v))
    | inr bad ↦ rw bad v
  ]

  module _
      (buries : (p : Json) (why : String) (r : ℤ) (now i t : ℕ) (db : Db)
        → P db
        → P (insert_dead_letter p why r now i t db)) where
    bury-kept :
        (item : WorkItem) (x : WorkError) (b : Burial) (db : Db) → P db → P (bury u item x b db).0
    unfolding bury
    bury-kept item x b db v = elim (Option-cases (payload_json item.payload)) [
      | inl e ↦ rw (e, bury) v
      | inr (p, e) ↦
          rw (e, bury)
            (exec_on_either P b.insert _ _ _ db v
              (λ i t _ _. buries p (reason x) item.retry_count b.now i t db v))
    ]

    pub move_to_dead_letter-kept :
        (item : WorkItem) (x : WorkError) (b : Burial) (db : Db)
        → IsCopy origin item
        → P db
        → P (move_to_dead_letter u item x b db)
    unfolding move_to_dead_letter
    move_to_dead_letter-kept item x b db same v =
        let buried = bury-kept item x b db v in
        exec_on_either P b.fail _ _ _ (bury u item x b db).0 buried (λ i t id_read tenant_read.
          sets failed b.now i t (bury u item x b db).0 (rw same.0 at id_read)
            (rw same.1 at tenant_read) buried)

  module _ (f : FloatScale) (m : ℤ) (env : ℕ → Attempt) where
    retry_loop-kept :
        (rounds attempt : ℕ) (item : WorkItem) (db : Db)
        → IsCopy origin item
        → P db
        → P (retry_loop u f m env rounds attempt item db).db
    unfolding retry_loop
    retry_loop-kept zero attempt item db same v = v
    retry_loop-kept (suc rounds) attempt item db same v =
        let once = handle_message-kept item (env attempt) db same v in
        let again =
          retry_loop-kept rounds (attempt + 1) (retried_item item attempt)
            (handle_message u item (env attempt) db).0 same once in
        elim (Option-cases (handle_message u item (env attempt) db).1) [
          | inl fine ↦ rw (fine, retry_loop) once
          | inr (x, bad) ↦ elim (Bool-cases (ltb_ℤ m (pos (attempt + 1)))) [
            | inl last ↦ rw (bad, retry_loop) (rw last once)
            | inr more ↦ rw (bad, retry_loop) (rw more again)
          ]
        ]

    pub process_with_retry-kept :
        (item : WorkItem) (db : Db)
        → IsCopy origin item
        → P db
        → P (process_with_retry u f m env item db).db
    unfolding process_with_retry
    process_with_retry-kept item db same v = retry_loop-kept (rounds_of m) 0 item db same v

  module _ (f : FloatScale) (m : ℤ) (env : ℕ → Attempt)
      (buries : (p : Json) (why : String) (r : ℤ) (now i t : ℕ) (db : Db)
        → P db
        → P (insert_dead_letter p why r now i t db)) where
    pub process_work-kept :
        (b : Burial) (item : WorkItem) (db : Db)
        → IsCopy origin item
        → P db
        → P (process_work u f m env b item db)
    process_work-kept b item db same v =
        let retried = process_with_retry-kept f m env item db same v in
        elim (Option-cases (process_with_retry u f m env item db).error) [
          | inl fine ↦ rw (process_work_done u f m env b item db fine) retried
          | inr (x, bad) ↦
              rw (process_work_given_up u f m env b item db x bad)
                (elim (Bool-cases (leb_ℤ m item.retry_count)) [
                  | inl reached ↦ rw reached (
                      move_to_dead_letter-kept buries item x b
                        (process_with_retry u f m env item db).db same retried)
                  | inr short ↦ rw short retried
                ])
        ]
