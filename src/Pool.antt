-- ===== src/Pool.antt =====
-- internal/tenant/worker_pool.go: the pool's state and the operations on it. Goroutines are counted;
-- what they do with an item is in Retry.antt, and how they interleave in Pool/Steps.antt.
pub mod Size
pub mod Steps
pub mod Order
pub mod Shutdown
use multi_tenant_messaging.Base.{
  ℕ, zero, suc, ◌+◌, ◌≤◌, Bool, true, false, ◌&&◌, ◌||◌, not, List, [], ◌∷◌, ◌++◌, Option, none,
  some, String, ltb, ◌==◌, if◌then◌else◌, length,
}
use multi_tenant_messaging.Base.Int.{
  ℤ, pos, ◌+ℤ◌, ◌-ℤ◌, scale_ℤ, leb_ℤ, ltb_ℤ, pos_part, is_negative, int32, int64,
}
use multi_tenant_messaging.Json.{JsonText}

pub record WorkItem : Type 0 where
  pub message_id : String
  pub tenant_id : String
  pub payload : JsonText
  pub retry_count : ℤ

-- `work_chan` is the channel's buffer, oldest first; `done` says whether `doneChan` is closed; `live`
-- is the wait group's counter, that is the running worker goroutines; `busy` are the items that
-- workers have received and not finished.
pub record WorkerPool : Type 0 where
  pub tenant_id : String
  pub workers : ℤ  -- int32
  pub work_chan : List WorkItem
  pub capacity : ℕ
  pub done : Bool
  pub live : ℕ
  pub busy : List WorkItem
  pub max_retry : ℤ

-- `for i := 0; i < workers; i++ { wp.wg.Add(1); go wp.worker() }`
pub spawn_workers : ℕ → ℕ → ℕ
spawn_workers zero live = live
spawn_workers (suc n) live = spawn_workers n (live + 1)

abbrev at_least_one : ℤ → ℤ
at_least_one n = if leb_ℤ n (pos 0) then pos 1 else n

pub start : WorkerPool → ℤ → WorkerPool
unfolding spawn_workers
start wp workers =
    let n = at_least_one workers in
    record wp { workers = int32 n; live = spawn_workers (pos_part n) wp.live }

-- `make(chan WorkItem, workers*10)` panics on a negative size, shown by `none`. Memory is not modelled.
unfoldable pub new_worker_pool : String → ℤ → ℤ → Option WorkerPool
unfolding start
new_worker_pool tenant_id workers max_retry =
    let size = int64 (scale_ℤ 10 workers) in
    let wp : WorkerPool = record {
      tenant_id = tenant_id;
      workers = pos 0;
      work_chan = [];
      capacity = pos_part size;
      done = false;
      live = 0;
      busy = [];
      max_retry = max_retry;
    } in
    if is_negative size then none else some (start wp workers)

pub resize : WorkerPool → ℤ → WorkerPool
unfolding spawn_workers
resize wp new_count =
    let n = at_least_one new_count in
    let diff = int64 (n -ℤ wp.workers) in
    if ltb_ℤ (pos 0) diff
    then record wp {
      live = spawn_workers (pos_part diff) wp.live;
      workers = int32 (wp.workers +ℤ int32 diff);
    }
    else if ltb_ℤ diff (pos 0)
    then record wp { workers = int32 n }
    else wp

unfoldable pub get_worker_count : WorkerPool → ℤ
get_worker_count wp = wp.workers

pub data Submitted : Type 0 where
  accepted shutting_down queue_full : Submitted

-- What the scheduler decides in `Submit`: whether an idle worker waits at the channel, and which case
-- runs if both the send and the closed `doneChan` are ready.
pub record Select : Type 0 where
  pub receiver_waits : Bool
  pub picks_send : Bool

unfoldable pub has_room : WorkerPool → Bool
has_room wp = ltb (length wp.work_chan) wp.capacity

-- A worker that waits at the channel is handed the item directly; then the buffer is empty.
unfoldable pub can_hand_over : Select → WorkerPool → Bool
can_hand_over s wp = s.receiver_waits && length wp.work_chan == 0 && ltb (length wp.busy) wp.live

unfoldable pub send : Select → WorkerPool → WorkItem → WorkerPool
unfolding can_hand_over
send s wp item =
    if can_hand_over s wp
    then record wp { busy = wp.busy ++ item ∷ [] }
    else record wp { work_chan = wp.work_chan ++ item ∷ [] }

unfoldable pub submit : Select → WorkerPool → WorkItem → WorkerPool × Submitted
unfolding send can_hand_over
submit s wp item =
    if has_room wp || can_hand_over s wp
    then if wp.done && not s.picks_send then (wp, shutting_down) else (send s wp item, accepted)
    else if wp.done
    then (wp, shutting_down)
    else (wp, queue_full)

-- `close(wp.doneChan)`, the first statement of `Stop`: closing twice panics. `Stop` then waits until
-- `live` is 0 (Pool/Shutdown.antt).
unfoldable pub close_done : WorkerPool → Option WorkerPool
close_done wp = if wp.done then none else some (record wp { done = true })

-- The headers of a delivery, as far as they are read: `x-retry-count` if it holds an int32.
pub record Delivery : Type 0 where
  pub message_id : String
  pub body : JsonText
  pub retry_count_header : Option ℤ

abbrev header_count : Option ℤ → ℤ
header_count none = pos 0
header_count (some n) = n

unfoldable pub submit_rabbitmq_message : Select → WorkerPool → Delivery → WorkerPool × Submitted
submit_rabbitmq_message s wp d = submit s wp (record {
  message_id = d.message_id;
  tenant_id = wp.tenant_id;
  payload = d.body;
  retry_count = header_count d.retry_count_header;
})
