-- ===== src/Examples/Retries.antt =====
-- The theorems on processing an item at concrete items and attempts.
use multi_tenant_messaging.Base.{
  ℕ, length, if◌then◌else◌, ◌∷◌, [], ◌==◌, ◌≡◌, ◌≤◌, arith, refl, ◌++◌,
}
use multi_tenant_messaging.Db.{Db, MessageRow, find_row, pending, failed, completed}
use multi_tenant_messaging.Retry.{
  Attempt, process_work, process_with_retry, handle_message, WorkError, reason,
}
use multi_tenant_messaging.Retry.Completion.{HasCompleted, process_work-HasCompleted}
use multi_tenant_messaging.Retry.Delay.{AreBackoffs, failures, process_with_retry_sleeps}
use multi_tenant_messaging.Examples.{calm, empty_db, unary_ids, exact_scale, item_a, burial, item_b}
use multi_tenant_messaging.Json.{null, object, end}
use multi_tenant_messaging.Retry.Attempts.{is_none, succeeds, handle_message_ok}
use multi_tenant_messaging.Base.Int.{pos}
use multi_tenant_messaging.Retry.DeadLetter.{below_limit_never_dead_letter, at_limit_dead_letter}
use multi_tenant_messaging.Db.Rows.{with_status}
use multi_tenant_messaging.Retry.Redelivery.{IsProcessing, process_work-IsProcessing}
use multi_tenant_messaging.Retry.Payload.{KeepsPayload}
use multi_tenant_messaging.Retry.Rows.{process_work_isolates}

-- Attempts 0 and 1 fail, attempt 2 succeeds.
abbrev pub third_time : ℕ → Attempt
third_time i = calm (if i == 2 then 3 else 10)

abbrev never : ℕ → Attempt
never i = calm 20

handle_message_ok_example :
    is_none (handle_message unary_ids item_a (calm 3) empty_db).1
    ≡ succeeds unary_ids item_a (calm 3)
handle_message_ok_example = handle_message_ok unary_ids item_a (calm 3) empty_db

process_with_retry_sleeps_example :
    AreBackoffs 0 (process_with_retry unary_ids exact_scale (pos 4) never item_a empty_db).sleeps
    × (length (process_with_retry unary_ids exact_scale (pos 4) never item_a empty_db).sleeps
        ≡ failures (λ i. succeeds unary_ids item_a (never i)) 4 0)
    × (length (process_with_retry unary_ids exact_scale (pos 4) never item_a empty_db).sleeps ≤ 4)
process_with_retry_sleeps_example =
    process_with_retry_sleeps unary_ids exact_scale 4 never item_a empty_db (omega arith)

process_work-HasCompleted_example :
    HasCompleted 1 2 (process_work unary_ids exact_scale (pos 4) third_time burial item_a empty_db)
    × ((process_work unary_ids exact_scale (pos 4) third_time burial item_a empty_db).dead_letters
        ≡ [])
process_work-HasCompleted_example =
    process_work-HasCompleted unary_ids exact_scale 4 third_time burial item_a empty_db refl refl
      refl

below_limit_never_dead_letter_example :
    (process_work unary_ids exact_scale (pos 4) never burial item_a empty_db).dead_letters ≡ []
below_limit_never_dead_letter_example =
    below_limit_never_dead_letter unary_ids exact_scale (pos 4) never burial item_a empty_db refl

at_limit_dead_letter_example :
    let after = process_work unary_ids exact_scale (pos 4) never burial item_b empty_db in
    (x : WorkError) × (after.dead_letters
      ≡ []
        ++ record {
          original_message_id = 3;
          tenant_id = 2;
          payload = object end;
          error_reason = reason x;
          retry_count = pos 5;
          failed_at = 9;
        }
          ∷ [])
    × (find_row 3 2 after.messages
        ≡ with_status failed 9 (
            find_row 3 2
              (process_with_retry unary_ids exact_scale (pos 4) never item_b empty_db).db.messages))
at_limit_dead_letter_example =
    at_limit_dead_letter unary_ids item_b burial refl refl exact_scale 4 never empty_db refl refl
      refl refl refl

abbrev other_row : MessageRow
other_row = record {
  id = 8;
  tenant_id = 2;
  payload = null;
  status = pending;
  retry_count = pos 0;
  created_at = 1;
  updated_at = 1;
}

abbrev busy_db : Db
busy_db = record empty_db { messages = other_row ∷ [] }

abbrev done_row : MessageRow
done_row = record {
  id = 1;
  tenant_id = 2;
  payload = object end;
  status = completed;
  retry_count = pos 0;
  created_at = 1;
  updated_at = 1;
}

abbrev done_db : Db
done_db = record empty_db { messages = done_row ∷ [] }

process_work-IsProcessing_example :
    IsProcessing 1 2 (process_work unary_ids exact_scale (pos 4) never burial item_a done_db)
    × ((process_work unary_ids exact_scale (pos 4) never burial item_a done_db).dead_letters ≡ [])
    × KeepsPayload 1 2
        (object end)
        (process_work unary_ids exact_scale (pos 4) never burial item_a done_db)
unfolding find_row
process_work-IsProcessing_example =
    process_work-IsProcessing unary_ids exact_scale 4 never
      (λ k. record { stored = refl; fails = refl }) refl burial item_a done_db refl refl refl refl
      refl

process_work_isolates_example :
    let after = process_work unary_ids exact_scale (pos 4) third_time burial item_a busy_db in
    (find_row 8 2 after.messages ≡ find_row 8 2 busy_db.messages)
    × (after.tenants ≡ [])
    × (after.users ≡ [])
process_work_isolates_example =
    process_work_isolates unary_ids 8 2 item_a (λ both. ground (arith, both.0)) exact_scale (pos 4)
      third_time burial busy_db
