-- ===== src/Retry/Attempts.antt =====
-- Which attempts succeed, how many are made, and when `processWithRetry` gives up.
use multi_tenant_messaging.Base.{
  ℕ, Option, Bool, false, true, some, suc, ◌&&◌, ◌+◌, ◌||◌, ◌≡◌, arith, not, refl, ◌%◌, ◌==◌,
  Option-cases, [], inl, ◌<◌, ◌≤◌, inr, ◌∷◌, is_some,
}
use multi_tenant_messaging.Db.{Outcome, UuidFormat, Db, applied}
use multi_tenant_messaging.Retry.{
  handle_message, FloatScale, Attempt, process_with_retry, retry_loop, Retried, WorkError,
  backoff_duration, max_retries_exceeded,
}
use multi_tenant_messaging.Pool.{WorkItem}
use multi_tenant_messaging.Json.{decodes_to_map}
use mathlib.Core.Option.{none}
use multi_tenant_messaging.Base.Int.{pos}
use Prim.Native.Nat.{zero}

abbrev pub is_applied : Outcome → Bool
is_applied applied = true
is_applied _ = false

abbrev pub is_none {ℓ} : {A : Type ℓ} → Option A → Bool
is_none none = true
is_none (some a) = false

-- An attempt succeeds if the payload is an object or `null`, both ids read as UUIDs, both statements
-- are applied, and the clock reading is no multiple of ten.
abbrev pub succeeds : UuidFormat → WorkItem → Attempt → Bool
succeeds u item a =
    decodes_to_map item.payload
    && (is_some (u.read item.message_id) && is_some (u.read item.tenant_id))
    && (is_applied a.upsert && is_applied a.complete)
    && not (a.nanos % 10 == 0)

-- One call returns no error exactly on such an attempt.
pub handle_message_ok :
    (u : UuidFormat) (item : WorkItem) (a : Attempt) (db : Db)
    → is_none (handle_message u item a db).1 ≡ succeeds u item a
unfolding handle_message
handle_message_ok u item a db = ground arith

-- Whether a test passes at one of the `n` numbers from `i` on.
abbrev pub any_from : (ℕ → Bool) → ℕ → ℕ → Bool
any_from p zero i = false
any_from p (suc n) i = p i || any_from p n (i + 1)

-- The copy of the item that the next attempt gets.
abbrev pub retried_item : WorkItem → ℕ → WorkItem
retried_item item attempt = record item { retry_count = pos (attempt + 1) }

-- One round of the loop: it ends on success, and with the error of the last attempt; else it sleeps.
module _ (u : UuidFormat) (f : FloatScale) (max_retry : ℕ) (env : ℕ → Attempt) where
  abbrev pub loop : ℕ → ℕ → WorkItem → Db → Retried
  loop = retry_loop u f (pos max_retry) env

  -- Without a round left the loop gives up.
  loop_over :
      (attempt : ℕ) (item : WorkItem) (db : Db)
      → loop 0 attempt item db ≡ record { db = db; error = some max_retries_exceeded; sleeps = [] }
  unfolding retry_loop
  loop_over attempt item db = refl

  module _ (rounds attempt : ℕ) (item : WorkItem) (db : Db) where
    abbrev pub call : Db × Option WorkError
    call = handle_message u item (env attempt) db

    pub loop_success :
        call.1 ≡ none
        → loop (suc rounds) attempt item db ≡ record { db = call.0; error = none; sleeps = [] }
    unfolding retry_loop
    loop_success e = ground arith

    pub loop_last :
        (x : WorkError)
        → call.1 ≡ some x
        → max_retry ≤ attempt
        → loop (suc rounds) attempt item db ≡ record { db = call.0; error = some x; sleeps = [] }
    unfolding retry_loop
    loop_last x e last = ground arith

    pub loop_again :
        (x : WorkError)
        → call.1 ≡ some x
        → attempt < max_retry
        → let rest = loop rounds (attempt + 1) (retried_item item attempt) call.0 in
          loop (suc rounds) attempt item db ≡ record rest {
            sleeps = backoff_duration f attempt (env attempt).jitter_nanos ∷ rest.sleeps;
          }
    unfolding retry_loop
    loop_again x e more = ground arith

module _ (u : UuidFormat) (f : FloatScale) (max_retry : ℕ) (env : ℕ → Attempt) where
  retry_loop_ok :
      (rounds attempt : ℕ) (item : WorkItem) (db : Db)
      → attempt + rounds ≡ suc max_retry
      → is_none (retry_loop u f (pos max_retry) env rounds attempt item db).error
        ≡ any_from (λ i. succeeds u item (env i)) rounds attempt
  retry_loop_ok zero attempt item db e = rw (loop_over u f max_retry env attempt item db)
  retry_loop_ok (suc zero) attempt item db e =
      let ok = handle_message_ok u item (env attempt) db in
      elim (Option-cases (handle_message u item (env attempt) db).1) [
        | inl fine ↦
            rw (loop_success u f max_retry env 0 attempt item db fine) (rw (← ok, fine) refl)
        | inr (x, bad) ↦
            rw (loop_last u f max_retry env 0 attempt item db x bad (omega arith))
              (rw (← ok, bad) refl)
      ]
  retry_loop_ok (suc (suc rounds)) attempt item db e =
      let (after, error) = handle_message u item (env attempt) db in
      let ok = handle_message_ok u item (env attempt) db in
      elim (Option-cases (handle_message u item (env attempt) db).1) [
        | inl fine ↦
            rw (loop_success u f max_retry env (suc rounds) attempt item db fine)
              (rw (← ok, fine) refl)
        | inr (x, bad) ↦
            rw (loop_again u f max_retry env (suc rounds) attempt item db x bad (omega arith)) (
              rw (← ok, bad)
                (retry_loop_ok (suc rounds) (attempt + 1) (retried_item item attempt)
                  (handle_message u item (env attempt) db).0 (omega arith)))
      ]

  -- `processWithRetry` returns no error exactly if one of the attempts 0 to `maxRetry` succeeds.
  pub process_with_retry_ok :
      (item : WorkItem) (db : Db)
      → is_none (process_with_retry u f (pos max_retry) env item db).error
        ≡ any_from (λ i. succeeds u item (env i)) (suc max_retry) 0
  unfolding process_with_retry
  process_with_retry_ok item db = retry_loop_ok (suc max_retry) 0 item db (omega arith)
