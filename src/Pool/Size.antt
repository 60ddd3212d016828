-- ===== src/Pool/Size.antt =====
-- How many workers a pool counts and how many run: `NewWorkerPool`, `Start` and `Resize`.
use multi_tenant_messaging.Base.{
  ℕ, zero, suc, ◌+◌, ◌-◌, ◌*◌, ◌^◌, ◌≤◌, ◌<◌, ◌≡◌, [], some, false, String, arith, if◌then◌else◌,
  ltb, List, All, ◌∷◌,
}
use multi_tenant_messaging.Base.Int.{ℤ, pos, int32_fits, int64_fits, int64_fits_neg, pos_part}
use multi_tenant_messaging.Pool.{
  WorkerPool, spawn_workers, new_worker_pool, resize, get_worker_count, submit, send, Select,
  WorkItem,
}

pub spawn_workers_add : (n live : ℕ) → spawn_workers n live ≡ live + n
unfolding spawn_workers
spawn_workers_add zero live = omega arith
spawn_workers_add (suc n) live = omega (arith, spawn_workers_add n (live + 1))

-- A pool made for `n` workers, `n` from 1 up to a tenth of the int32 range, counts and runs exactly
-- `n`, is open and empty, and buffers `10 * n` items.
pub new_worker_pool_size :
    (t : String) (n : ℕ) (r : ℤ)
    → 0 < n
    → n < 2 ^ 31
    → new_worker_pool t (pos n) r
      ≡ some (record {
        tenant_id = t;
        workers = pos n;
        work_chan = [];
        capacity = 10 * n;
        done = false;
        live = n;
        busy = [];
        max_retry = r;
      })
unfolding new_worker_pool
new_worker_pool_size t n r low high =
    ground (arith, int32_fits n, int64_fits (10 * n), spawn_workers_add n 0)

-- The counter is a worker count that a later `Resize` reads back, and no more than the goroutines.
pub record IsSized (wp : WorkerPool) : Type 0 where
  pub counted : wp.workers ≡ pos (pos_part wp.workers)
  pub low : 0 < pos_part wp.workers
  pub high : pos_part wp.workers < 2 ^ 31
  pub covered : pos_part wp.workers ≤ wp.live

-- `Resize` in the range where nothing wraps.
resize_lem :
    (wp : WorkerPool) (w n : ℕ)
    → wp.workers ≡ pos w
    → 0 < w
    → w < 2 ^ 31
    → 0 < n
    → n < 2 ^ 31
    → resize wp (pos n) ≡ (
        if ltb w n
        then record wp { live = wp.live + (n - w); workers = pos n }
        else if ltb n w
        then record wp { workers = pos n }
        else wp)
unfolding resize
resize_lem wp w n e lw hw ln hn = ground (
  arith,
  int64_fits (n - w),
  int64_fits_neg (w - n - 1),
  int32_fits (n - w),
  int32_fits n,
  spawn_workers_add (n - w) wp.live,
)

-- `Resize` to a count from 1 up to the int32 range sets the counter to it, and starts one goroutine
-- for each worker that is more than before. It stops none: fewer workers leave the goroutines alone.
pub resize_size :
    (wp : WorkerPool) (n : ℕ)
    → IsSized wp
    → 0 < n
    → n < 2 ^ 31
    → (get_worker_count (resize wp (pos n)) ≡ pos n)
      × ((resize wp (pos n)).live ≡ wp.live + (n - pos_part wp.workers))
      × IsSized (resize wp (pos n))
unfolding resize get_worker_count
resize_size wp n v low high = ground (arith, resize_lem wp (pos_part wp.workers) n)

-- Submitting changes neither whose a pool is, nor its counts, nor whether it is closed.
pub submit_identity :
    (s : Select) (wp : WorkerPool) (item : WorkItem)
    → ((submit s wp item).0.tenant_id ≡ wp.tenant_id)
      × ((submit s wp item).0.done ≡ wp.done)
      × ((submit s wp item).0.workers ≡ wp.workers)
      × ((submit s wp item).0.live ≡ wp.live)
unfolding submit send
submit_identity s wp item = (ground arith, ground arith, ground arith, ground arith)

-- What a resize never changes.
pub resize_identity :
    (wp : WorkerPool) (n : ℤ)
    → ((resize wp n).tenant_id ≡ wp.tenant_id)
      × ((resize wp n).done ≡ wp.done)
      × ((resize wp n).max_retry ≡ wp.max_retry)
unfolding resize
resize_identity wp n = ground arith

-- A pool scaled down from `w` to `m` workers and back up to `w` counts `w`, and has started `w - m`
-- goroutines on top of those that never ended.
pub resize_leaks :
    (wp : WorkerPool) (m : ℕ)
    → IsSized wp
    → 0 < m
    → m < pos_part wp.workers
    → let back = resize (resize wp (pos m)) wp.workers in
      (get_worker_count back ≡ wp.workers) × (back.live ≡ wp.live + (pos_part wp.workers - m))
unfolding get_worker_count
resize_leaks wp m v low below =
    let lo = resize_size wp m v low (omega arith) in
    let hi = resize_size (resize wp (pos m)) (pos_part wp.workers) lo.2 v.low v.high in
    rw v.counted (ground (arith, lo, hi))

-- The resizes of a list, one after the other.
abbrev pub resize_all : WorkerPool → List ℕ → WorkerPool
resize_all wp [] = wp
resize_all wp (n ∷ ns) = resize_all (resize wp (pos n)) ns

abbrev pub InRange : ℕ → Type 0
InRange n = (0 < n) × (n < 2 ^ 31)

resize_all-live :
    (wp : WorkerPool) (ns : List ℕ)
    → IsSized wp
    → All InRange ns
    → wp.live ≤ (resize_all wp ns).live
resize_all-live wp [] v rs = omega arith
resize_all-live wp (n ∷ ns) v (r, rs) =
    let (_, grown, sized) = resize_size wp n v r.0 r.1 in
    omega (arith, grown, resize_all-live (resize wp (pos n)) ns sized rs)

-- Over any sequence of resizes within the range, the goroutines are at least as many as every count
-- that was ever asked for, and the counter stays a valid count.
pub resize_all_high_water :
    (wp : WorkerPool) (ns : List ℕ)
    → IsSized wp
    → All InRange ns
    → All (λ n. n ≤ (resize_all wp ns).live) ns × IsSized (resize_all wp ns)
resize_all_high_water wp [] v rs = (tt, v)
resize_all_high_water wp (n ∷ ns) v (r, rs) =
    let (counted, grown, sized) = resize_size wp n v r.0 r.1 in
    let (rest, kept) = resize_all_high_water (resize wp (pos n)) ns sized rs in
    ((omega (arith, grown, resize_all-live (resize wp (pos n)) ns sized rs), rest), kept)
