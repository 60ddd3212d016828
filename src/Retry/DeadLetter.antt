-- ===== src/Retry/DeadLetter.antt =====
-- `processWork` as a whole: the row it completes, the rows it spares, and when an item reaches the
-- dead letter table.
use multi_tenant_messaging.Base.{
  ℕ, some, arith, suc, ◌≡◌, true, Option-cases, inl, inr, Bool-cases, false, ◌++◌, ◌∷◌, [], refl,
}
use multi_tenant_messaging.Base.Int.{ℤ, ltb_ℤ, leb_ℤ, pos}
use multi_tenant_messaging.Db.{
  UuidFormat, Db, set_status, applied, insert_dead_letter, failed, find_row, upsert_processing,
}
use multi_tenant_messaging.Retry.{
  FloatScale, Attempt, process_work, Burial, WorkError, process_with_retry, move_to_dead_letter,
  payload_json, reason,
}
use multi_tenant_messaging.Pool.{WorkItem}
use multi_tenant_messaging.Json.{Json}
use multi_tenant_messaging.Retry.Attempts.{any_from, succeeds, process_with_retry_ok}
use multi_tenant_messaging.Db.Rows.{with_status, find_row-set_status}
use multi_tenant_messaging.Retry.Tables.{
  process_work_done, process_work_given_up, process_with_retry-kept,
}

not_both : (a b : ℤ) → ltb_ℤ b a ≡ true → leb_ℤ a b ≡ true → ⊥
not_both a b h k = ground arith

module _ (u : UuidFormat) (f : FloatScale) where
  pub retries_keep_dead_letters :
      (m : ℤ) (env : ℕ → Attempt) (item : WorkItem) (db : Db)
      → (process_with_retry u f m env item db).db.dead_letters ≡ db.dead_letters
  unfolding upsert_processing set_status
  retries_keep_dead_letters m env item db =
      process_with_retry-kept u (λ d. d.dead_letters ≡ db.dead_letters) item
        (λ p r now i t d _ _ _ same. same) (λ s now i t d _ _ same. same) f m env item db
        (refl, refl, refl) refl

  -- An item that was submitted with a retry count below the limit is never dead-lettered, whatever
  -- happens to its attempts: the count that `processWork` tests is not the one that
  -- `processWithRetry` raises.
  pub below_limit_never_dead_letter :
      (m : ℤ) (env : ℕ → Attempt) (b : Burial) (item : WorkItem) (db : Db)
      → ltb_ℤ item.retry_count m ≡ true
      → (process_work u f m env b item db).dead_letters ≡ db.dead_letters
  below_limit_never_dead_letter m env b item db below =
      elim (Option-cases (process_with_retry u f m env item db).error) [
        | inl e ↦
            rw (process_work_done u f m env b item db e) (retries_keep_dead_letters m env item db)
        | inr (x, e) ↦
            rw (process_work_given_up u f m env b item db x e)
              (elim (Bool-cases (leb_ℤ m item.retry_count)) [
                | inl reached ↦ absurd (not_both m item.retry_count below reached)
                | inr short ↦ rw short (retries_keep_dead_letters m env item db)
              ])
      ]

module _ (u : UuidFormat) (item : WorkItem) (b : Burial) {i t : ℕ} {p : Json}
    (id_read : u.read item.message_id ≡ some i) (tenant_read : u.read item.tenant_id ≡ some t) where
  move_to_dead_letter_lem :
      (x : WorkError) (db : Db)
      → payload_json item.payload ≡ some p
      → b.insert ≡ applied
      → b.fail ≡ applied
      → move_to_dead_letter u item x b db
        ≡ set_status failed b.now i t
            (insert_dead_letter p (reason x) item.retry_count b.now i t db)
  unfolding move_to_dead_letter
  move_to_dead_letter_lem x db payload ins fail = ground arith

  -- An item submitted with a retry count at the limit or above, with ids that read as UUIDs and a JSON
  -- payload, whose attempts all fail: if both statements are applied, one dead letter row is added,
  -- with the item's own retry count and the reason of an error, and the message's row, if there is
  -- one, becomes failed.
  pub at_limit_dead_letter :
      (f : FloatScale) (n : ℕ) (env : ℕ → Attempt) (db : Db)
      → payload_json item.payload ≡ some p
      → b.insert ≡ applied
      → b.fail ≡ applied
      → any_from (λ k. succeeds u item (env k)) (suc n) 0 ≡ false
      → leb_ℤ (pos n) item.retry_count ≡ true
      → let after = process_work u f (pos n) env b item db in
        (x : WorkError) × (after.dead_letters
          ≡ db.dead_letters
            ++ record {
              original_message_id = i;
              tenant_id = t;
              payload = p;
              error_reason = reason x;
              retry_count = item.retry_count;
              failed_at = b.now;
            }
              ∷ [])
        × (find_row i t after.messages
            ≡ with_status failed b.now
                (find_row i t (process_with_retry u f (pos n) env item db).db.messages))
  unfolding set_status insert_dead_letter
  at_limit_dead_letter f n env db payload ins fail exhausted reached =
      elim (Option-cases (process_with_retry u f (pos n) env item db).error) [
        | inl fine ↦ absurd (ground (arith, process_with_retry_ok u f n env item db))
        | inr (x, bad) ↦
            let given_up = process_work_given_up u f (pos n) env b item db x bad in
            let kept = retries_keep_dead_letters u f (pos n) env item db in
            let rows = (process_with_retry u f (pos n) env item db).db.messages in
            let moved =
              move_to_dead_letter_lem x (process_with_retry u f (pos n) env item db).db payload ins
                fail in
            (
              x,
              rw given_up (rw reached (rw moved (rw kept refl))),
              rw given_up (
                  rw reached
                    (rw moved (ground (arith, find_row-set_status failed b.now i t i t rows)))),
            )
      ]
