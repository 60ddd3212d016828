-- ===== src/Pool/Steps.antt =====
-- The pool as a system of goroutines: submitters, the `worker` loops, `Resize` and `Stop`, one atomic
-- step at a time, with the items sent, received and finished so far kept beside the pool.
use mathlib.Core.Logic.{◌≢◌}
use multi_tenant_messaging.Base.{
  List, [], if◌then◌else◌, ◌≡◌, ◌++◌, ◌∷◌, length, ◌<◌, true, ◌-◌, some,
}
use multi_tenant_messaging.Pool.{
  Select, WorkerPool, WorkItem, submit, can_hand_over, accepted, close_done, ℤ, resize,
}

pub record History : Type 0 where
  pub pool : WorkerPool
  pub sent : List WorkItem
  pub taken : List WorkItem
  pub finished : List WorkItem

-- A new pool has no past.
abbrev pub fresh : WorkerPool → History
fresh wp = record { pool = wp; sent = []; taken = []; finished = [] }

-- An item that is sent while a worker waits goes straight to it.
abbrev pub taken_by_send : Select → WorkerPool → WorkItem → List WorkItem → List WorkItem
taken_by_send s wp item taken = if can_hand_over s wp then taken ++ item ∷ [] else taken

-- A worker that is not busy receives the oldest item, or returns if `doneChan` is closed: `select`
-- picks either when both are ready.
pub data Step (h : History) : History → Type 0 where
  sends :
      (s : Select) (item : WorkItem)
      → (submit s h.pool item).1 ≡ accepted
      → Step h (record h {
        pool = (submit s h.pool item).0;
        sent = h.sent ++ item ∷ [];
        taken = taken_by_send s h.pool item h.taken;
      })
  refuses :
      (s : Select) (item : WorkItem)
      → (submit s h.pool item).1 ≢ accepted
      → Step h (record h { pool = (submit s h.pool item).0 })
  receives :
      (item : WorkItem) (rest : List WorkItem)
      → h.pool.work_chan ≡ item ∷ rest
      → length h.pool.busy < h.pool.live
      → Step h (record h {
        pool = record (h.pool) { work_chan = rest; busy = h.pool.busy ++ item ∷ [] };
        taken = h.taken ++ item ∷ [];
      })
  finishes :
      (before after : List WorkItem) (item : WorkItem)
      → h.pool.busy ≡ before ++ (item ∷ after)
      → Step h (record h {
        pool = record (h.pool) { busy = before ++ after };
        finished = item ∷ h.finished;
      })
  exits :
      h.pool.done ≡ true
      → length h.pool.busy < h.pool.live
      → Step h (record h { pool = record (h.pool) { live = h.pool.live - 1 } })
  closes : (wp : WorkerPool) → close_done h.pool ≡ some wp → Step h (record h { pool = wp })
  resizes : (n : ℤ) → Step h (record h { pool = resize h.pool n })

pub data Reach (h : History) : History → Type 0 where
  here : Reach h h
  next : {i j : History} → Reach h i → Step i j → Reach h j
