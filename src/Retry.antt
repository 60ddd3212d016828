-- ===== src/Retry.antt =====
-- internal/tenant/worker_pool.go: what a worker does with an item. `processWork` retries
-- `handleMessage` with exponential backoff, and may move the item to the dead letter table.
pub mod Attempts
pub mod Delay
pub mod DeadLetter
pub mod Rows
pub mod Completion
pub mod Tables
pub mod Payload
pub mod Redelivery
use multi_tenant_messaging.Base.{
  ℕ, String, ◌<◌, Option, ◌*◌, ◌≤◌, Bool, none, some, false, if◌then◌else◌, ◌%◌, ◌==◌, List, [],
  suc, ◌+◌, ◌^◌, ◌∷◌,
}
use Prim.Native.String.{◌++◌ as str_append}
use multi_tenant_messaging.Db.{
  Outcome, UuidFormat, Db, exec_on, set_status, completed, upsert_processing, failed,
  insert_dead_letter,
}
use multi_tenant_messaging.Json.{JsonText, Json, value, decodes_to_map}
use multi_tenant_messaging.Pool.{WorkItem}
use mathlib.Core.Bool.{true}
use multi_tenant_messaging.Base.Int.{ℤ, int64, leb_ℤ, pos, ltb_ℤ, negsuc}
use Prim.Native.Nat.{zero}

-- What one call of `handleMessage` meets: how its two statements end and when they run, the clock
-- that the simulated failure and the jitter read (nanoseconds), and the text of an underlying error.
pub record Attempt : Type 0 where
  pub upsert : Outcome
  pub complete : Outcome
  pub now : ℕ
  pub nanos : ℕ
  pub jitter_nanos : ℕ
  pub detail : String

pub data WorkError : Type 0 where
  bad_payload status_update completion : String → WorkError
  simulated max_retries_exceeded : WorkError

-- `err.Error()`
unfoldable pub reason : WorkError → String
reason (bad_payload detail) = str_append "failed to unmarshal payload: " detail
reason (status_update detail) = str_append "failed to update message status: " detail
reason (completion detail) = str_append "failed to mark message as completed: " detail
reason simulated = "simulated processing failure"
reason max_retries_exceeded = "max retries exceeded"

-- The JSON that a statement's payload parameter holds; the column refuses any other text.
abbrev pub payload_json : JsonText → Option Json
payload_json (value v) = some v
payload_json _ = none

-- Multiplication of a duration by a fraction k/500 in floating point, rounded towards zero:
-- `time.Duration(float64(d) * 0.2 * (float64(k) / 100.0))`.
pub record FloatScale : Type 0 where
  pub scale : ℕ → ℕ → ℕ
  pub scale_bound : (d k : ℕ) → k < 100 → 5 * scale d k ≤ d

module _ (u : UuidFormat) where
  -- The upsert before the work, with the ids and the payload as the server reads them.
  upsert_message : WorkItem → Attempt → Db → Db × Bool
  upsert_message item a db = elim (payload_json item.payload) [
    | none ↦ (db, false)
    | some p ↦
        exec_on a.upsert (u.read item.message_id) (u.read item.tenant_id)
          (upsert_processing p item.retry_count a.now) db
  ]

  mark_completed : WorkItem → Attempt → Db → Db × Bool
  mark_completed item a db =
      exec_on a.complete (u.read item.message_id) (u.read item.tenant_id)
        (set_status completed a.now) db

  after_complete : Attempt → Db × Bool → Db × Option WorkError
  after_complete a (db, true) = (db, none)
  after_complete a (db, false) = (db, some (completion a.detail))

  -- Past the upsert: the simulated failure of one clock reading in ten, or the work and its mark.
  after_upsert : WorkItem → Attempt → Db × Bool → Db × Option WorkError
  unfolding mark_completed after_complete
  after_upsert item a (db, true) =
      if a.nanos % 10 == 0
      then (db, some simulated)
      else after_complete a (mark_completed item a db)
  after_upsert item a (db, false) = (db, some (status_update a.detail))

  -- The error of each exit, `none` on success.
  pub handle_message : WorkItem → Attempt → Db → Db × Option WorkError
  unfolding upsert_message after_upsert
  handle_message item a db =
      if decodes_to_map item.payload
      then after_upsert item a (upsert_message item a db)
      else (db, some (bad_payload a.detail))

-- `2^attempt` seconds in nanoseconds, as a 64-bit duration.
pub backoff_base : ℕ → ℤ
backoff_base attempt = int64 (pos (2 ^ attempt * 1_000_000_000))

-- The jitter is a fraction from 0 up to 99/500 of the duration, of the same sign, by the last digits of the
-- clock. The sum may wrap, like the duration.
pub backoff_duration : FloatScale → ℕ → ℕ → ℤ
unfolding backoff_base
backoff_duration f attempt nanos = elim (backoff_base attempt) [
  | pos d ↦ int64 (pos (d + f.scale d (nanos % 100)))
  | negsuc d ↦ int64 (negsuc (d + f.scale (suc d) (nanos % 100)))
]

pub record Retried : Type 0 where
  pub db : Db
  pub error : Option WorkError
  pub sleeps : List ℤ

-- The rounds of `for attempt := 0; attempt <= maxRetry; attempt++`.
abbrev pub rounds_of : ℤ → ℕ
rounds_of (pos n) = suc n
rounds_of (negsuc n) = 0

module _ (u : UuidFormat) (f : FloatScale) (max_retry : ℤ) (env : ℕ → Attempt) where
  -- The loop from attempt `attempt` on, with `rounds` left of `attempt <= maxRetry`. The item is the
  -- function's own copy, whose retry count the caller never sees.
  pub retry_loop : ℕ → ℕ → WorkItem → Db → Retried
  retry_loop zero attempt item db = record {
    db = db;
    error = some max_retries_exceeded;
    sleeps = [];
  }
  retry_loop (suc rounds) attempt item db =
      let (after, error) = handle_message u item (env attempt) db in
      let rest =
        retry_loop rounds (attempt + 1) (record item { retry_count = pos (attempt + 1) }) after in
      elim error [
        | none ↦ record { db = after; error = none; sleeps = [] }
        | some e ↦
            if ltb_ℤ max_retry (pos (attempt + 1))
            then record { db = after; error = some e; sleeps = [] }
            else record rest {
              sleeps = backoff_duration f attempt (env attempt).jitter_nanos ∷ rest.sleeps;
            }
      ]

  pub process_with_retry : WorkItem → Db → Retried
  unfolding retry_loop
  process_with_retry item db = retry_loop (rounds_of max_retry) 0 item db

-- How the two statements of `moveToDeadLetter` end.
pub record Burial : Type 0 where
  pub insert : Outcome
  pub fail : Outcome
  pub now : ℕ

module _ (u : UuidFormat) where
  bury : WorkItem → WorkError → Burial → Db → Db × Bool
  bury item e b db = elim (payload_json item.payload) [
    | none ↦ (db, false)
    | some p ↦
        exec_on b.insert (u.read item.message_id) (u.read item.tenant_id)
          (insert_dead_letter p (reason e) item.retry_count b.now) db
  ]

  -- Both errors are only logged, or not even that.
  pub move_to_dead_letter : WorkItem → WorkError → Burial → Db → Db
  unfolding bury
  move_to_dead_letter item e b db =
      (exec_on b.fail (u.read item.message_id) (u.read item.tenant_id) (set_status failed b.now)
        (bury item e b db).0).0

  -- `processWork` on the pool's `maxRetry`: the retry count it tests is the submitted item's.
  pub process_work : FloatScale → ℤ → (ℕ → Attempt) → Burial → WorkItem → Db → Db
  unfolding process_with_retry move_to_dead_letter
  process_work f max_retry env b item db =
      let r = process_with_retry u f max_retry env item db in
      elim r.error [
        | none ↦ r.db
        | some e ↦
            if leb_ℤ max_retry item.retry_count then move_to_dead_letter item e b r.db else r.db
      ]
