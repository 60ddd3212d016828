-- ===== src/Pool/Shutdown.antt =====
-- `Stop`: after the close it waits for `wg`, that is until no worker goroutine is left.
use multi_tenant_messaging.Base.{
  ℕ, List, ◌≡◌, [], some, true, suc, ◌∷◌, ◌++◌, arith, subst, refl, ◌-◌, ◌∙◌, ap, length,
}
use multi_tenant_messaging.Pool.{WorkerPool, WorkItem, close_done}
use multi_tenant_messaging.Pool.Steps.{History, Reach, next, fresh, here, closes, finishes, exits}
use Prim.Native.Nat.{zero}
use mathlib.Core.List.{Perm, append-nil}
use multi_tenant_messaging.Pool.Order.{Reach-IsOrderly, empty_of_length}

pub Reach-trans : {h i j : History} → Reach h i → Reach i j → Reach h j
Reach-trans r here = r
Reach-trans r (next q st) = next (Reach-trans r q) st

-- `wg.Wait()` returns.
abbrev pub HasStopped : History → Type 0
HasStopped h = (h.pool.done ≡ true) × (h.pool.live ≡ 0)

-- The idle workers of a closed pool all leave.
idle_exit :
    (n : ℕ) (h : History)
    → h.pool.done ≡ true
    → h.pool.busy ≡ []
    → h.pool.live ≡ n
    → Reach h (record h { pool = record (h.pool) { live = 0 } })
idle_exit zero h d b e =
    subst (λ n. Reach h (record h { pool = record (h.pool) { live = n } })) e here
idle_exit (suc n) h d b e =
    let left : History = record h { pool = record (h.pool) { live = h.pool.live - 1 } } in
    Reach-trans (next here (exits d (omega (arith, ap length b))))
      (idle_exit n left d b (omega arith))

-- Where `Stop` returns, every item that a worker received is finished, and what was sent is what was
-- received followed by the buffer, which no worker will read: those items are dropped.
stopped_drops_buffer :
    (wp : WorkerPool) {h : History}
    → wp.work_chan ≡ []
    → wp.busy ≡ []
    → Reach (fresh wp) h
    → HasStopped h
    → (h.pool.busy ≡ []) × Perm h.taken h.finished × (h.sent ≡ h.taken ++ h.pool.work_chan)
stopped_drops_buffer wp {h} e f r (d, gone) =
    let v = Reach-IsOrderly wp e f r in
    let idle : h.pool.busy ≡ [] = empty_of_length (omega (arith, v.one_each)) in
    (
      idle,
      subst (λ b. Perm h.taken b) (ap (◌++◌ h.finished) idle ∙ append-nil h.finished) v.kept,
      v.fifo,
    )

-- Every worker finishes the item in its hands; then all leave.
stop_run :
    (items : List WorkItem) (h : History)
    → h.pool.done ≡ true
    → h.pool.busy ≡ items
    → (i : History) × Reach h i
      × HasStopped i
      × (i.pool.work_chan ≡ h.pool.work_chan)
      × (i.sent ≡ h.sent)
      × (i.taken ≡ h.taken)
stop_run [] h d b = (_, idle_exit h.pool.live h d b refl, (d, refl), refl, refl, refl)
stop_run (item ∷ items) h d b =
    let (i, r, stopped, chan, sent, taken) =
      stop_run items
        (record h { pool = record (h.pool) { busy = items }; finished = item ∷ h.finished }) d
        refl in
    (i, Reach-trans (next here (finishes [] items item b)) r, stopped, chan, sent, taken)

close_done_lem :
    (wp closed : WorkerPool)
    → close_done wp ≡ some closed
    → (closed.done ≡ true) × (closed.work_chan ≡ wp.work_chan)
unfolding close_done
close_done_lem wp closed e = ground arith

-- From every state where `Stop` may close the pool there is a schedule in which it returns and no
-- worker receives another item: whatever was in the buffer is left there.
pub stop_may_drop :
    (h : History) (wp : WorkerPool)
    → close_done h.pool ≡ some wp
    → (i : History) × Reach h i
      × HasStopped i
      × (i.pool.work_chan ≡ h.pool.work_chan)
      × (i.taken ≡ h.taken)
stop_may_drop h wp e =
    let closed = close_done_lem h.pool wp e in
    let (i, r, stopped, chan, sent, taken) =
      stop_run wp.busy (record h { pool = wp }) closed.0 refl in
    (i, Reach-trans (next here (closes wp e)) r, stopped, chan ∙ closed.1, taken)
