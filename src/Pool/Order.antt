-- ===== src/Pool/Order.antt =====
-- Items are received in the order in which they were sent, and none is lost or made up on the way.
use mathlib.Core.List.Perm
use mathlib.Core.List.{Perm, append_assoc, append-nil, perm_middle}
use multi_tenant_messaging.Base.{
  ◌≡◌, [], arith, ◌++◌, ◌≤◌, length, List, ◌∷◌, ◌≢◌, true, inl, ◌⊎◌, false, inr, ◌<◌, length-append,
  ◌∙◌, ap, ltb→lt, subst, refl,
}
use multi_tenant_messaging.Pool.{
  WorkerPool, resize, submit, ℤ, can_hand_over, has_room, close_done, Select, WorkItem, accepted,
  at_least_one, send,
}
use multi_tenant_messaging.Pool.Steps.{
  History, fresh, Step, sends, refuses, receives, finishes, exits, closes, resizes, taken_by_send,
  Reach, next, here,
}
use multi_tenant_messaging.Pool.Size.{spawn_workers_add}
use multi_tenant_messaging.Base.Int.{pos_part, int64, ◌-ℤ◌}

-- `fifo`: what was sent is what was received followed by the buffer. `kept`: what was received is
-- finished or in a worker's hands. The buffer holds no more than its capacity, and no worker has two
-- items.
pub record IsOrderly (h : History) : Type 0 where
  pub fifo : h.sent ≡ h.taken ++ h.pool.work_chan
  pub kept : Perm h.taken (h.finished ++ h.pool.busy)
  bounded : length h.pool.work_chan ≤ h.pool.capacity
  pub one_each : length h.pool.busy ≤ h.pool.live

-- The pool that `NewWorkerPool` makes is orderly.
fresh-IsOrderly : (wp : WorkerPool) → wp.work_chan ≡ [] → wp.busy ≡ [] → IsOrderly (fresh wp)
fresh-IsOrderly wp e f = record {
  fifo = ground arith;
  kept = rw f Perm.nil;
  bounded = ground arith;
  one_each = ground arith;
}

resize_keeps :
    (wp : WorkerPool) (n : ℤ)
    → ((resize wp n).work_chan ≡ wp.work_chan)
      × ((resize wp n).busy ≡ wp.busy)
      × ((resize wp n).capacity ≡ wp.capacity)
      × (wp.live ≤ (resize wp n).live)
unfolding resize
resize_keeps wp n =
    ground (arith, spawn_workers_add (pos_part (int64 (at_least_one n -ℤ wp.workers))) wp.live)

pub empty_of_length : {xs : List WorkItem} → length xs ≡ 0 → xs ≡ []
empty_of_length {xs = []} e = refl
empty_of_length {xs = x ∷ xs} e = absurd (omega arith)

-- An accepted item is in the hands of a worker that waited past an empty buffer, or at the end of the buffer.
pub submit_accepted :
    (s : Select) (wp : WorkerPool) (item : WorkItem)
    → (submit s wp item).1 ≡ accepted
    → ((can_hand_over s wp ≡ false)
        × (has_room wp ≡ true)
        × ((submit s wp item).0 ≡ record wp { work_chan = wp.work_chan ++ item ∷ [] }))
      ⊎ ((can_hand_over s wp ≡ true)
          × (length wp.work_chan ≡ 0)
          × (length wp.busy < wp.live)
          × ((submit s wp item).0 ≡ record wp { busy = wp.busy ++ item ∷ [] }))
unfolding submit send can_hand_over
submit_accepted s wp item ok = ground arith

pub submit_refused :
    (s : Select) (wp : WorkerPool) (item : WorkItem)
    → (submit s wp item).1 ≢ accepted
    → (submit s wp item).0 ≡ wp
unfolding submit
submit_refused s wp item no_send = ground arith

-- An item that a worker takes is one more item in hand.
kept_taken :
    {taken : List WorkItem} (finished busy : List WorkItem) (item : WorkItem)
    → Perm taken (finished ++ busy)
    → Perm (taken ++ item ∷ []) (finished ++ (busy ++ item ∷ []))
kept_taken finished busy item p =
    rw (← append_assoc finished busy (item ∷ [])) (Perm.append_right (item ∷ []) p)

kept_finished :
    {taken : List WorkItem} (finished before after : List WorkItem) (item : WorkItem)
    → Perm taken (finished ++ (before ++ (item ∷ after)))
    → Perm taken ((item ∷ finished) ++ (before ++ after))
kept_finished finished before after item p = Perm.trans p (
    Perm.trans (Perm.append_left finished (perm_middle before after))
      (perm_middle finished (before ++ after)))

sends-IsOrderly :
    (h : History) (s : Select) (item : WorkItem)
    → (submit s h.pool item).1 ≡ accepted
    → IsOrderly h
    → IsOrderly (record h {
      pool = (submit s h.pool item).0;
      sent = h.sent ++ item ∷ [];
      taken = taken_by_send s h.pool item h.taken;
    })
unfolding has_room
sends-IsOrderly h s item ok v = elim (submit_accepted s h.pool item ok) [
  | inl (alone, room, e) ↦ rw e (
      rw alone (record {
        fifo = rw v.fifo (append_assoc h.taken h.pool.work_chan (item ∷ []));
        kept = v.kept;
        bounded = omega (arith, length-append h.pool.work_chan (item ∷ []), ltb→lt _ _ room);
        one_each = v.one_each;
      }))
  | inr (waits, empty, idle, e) ↦
      let none_left = empty_of_length empty in
      rw e (
        rw waits (record {
          fifo =
              rw (v.fifo, none_left)
                (rw (append-nil h.taken, append-nil (h.taken ++ item ∷ [])) refl);
          kept = kept_taken h.finished h.pool.busy item v.kept;
          bounded = v.bounded;
          one_each = omega (arith, length-append h.pool.busy (item ∷ []));
        }))
]

-- Every step keeps the order and the bounds.
Step-IsOrderly : {h i : History} → Step h i → IsOrderly h → IsOrderly i
unfolding close_done
Step-IsOrderly {h} (sends s item ok) v = sends-IsOrderly h s item ok v
Step-IsOrderly {h} (refuses s item no_send) v = rw (submit_refused s h.pool item no_send) v
Step-IsOrderly {h} (receives item rest e idle) v = record {
  fifo = v.fifo ∙ rw (e, append_assoc h.taken (item ∷ []) rest);
  kept = kept_taken h.finished h.pool.busy item v.kept;
  bounded = omega (arith, v.bounded, ap length e);
  one_each = omega (arith, length-append h.pool.busy (item ∷ []));
}
Step-IsOrderly {h} (finishes before after item e) v = record {
  fifo = v.fifo;
  kept =
      kept_finished h.finished before after item
        (subst (λ b. Perm h.taken (h.finished ++ b)) e v.kept);
  bounded = v.bounded;
  one_each = omega (
    arith,
    ap length e,
    length-append before (item ∷ after),
    length-append before after,
    v.one_each,
  );
}
Step-IsOrderly (exits d idle) v = record {
  fifo = v.fifo;
  kept = v.kept;
  bounded = v.bounded;
  one_each = omega arith;
}
Step-IsOrderly {h} (closes wp e) v = record {
  fifo = ground arith;
  kept = subst (λ b. Perm h.taken (h.finished ++ b)) (ground arith) v.kept;
  bounded = ground arith;
  one_each = ground arith;
}
Step-IsOrderly {h} (resizes n) v =
    let (chan, busy, capacity, more) = resize_keeps h.pool n in
    record {
      fifo = rw chan v.fifo;
      kept = rw busy v.kept;
      bounded = rw (chan, capacity) v.bounded;
      one_each = rw busy (omega (arith, more));
    }

-- In every state that a new pool reaches, by any interleaving of its goroutines, the items sent are
-- those received, in the same order, followed by the buffer; the items received are those finished
-- and those in a worker's hands; the buffer is within its capacity, and no worker has two items.
pub Reach-IsOrderly :
    (wp : WorkerPool) {h : History}
    → wp.work_chan ≡ []
    → wp.busy ≡ []
    → Reach (fresh wp) h
    → IsOrderly h
Reach-IsOrderly wp e f here = fresh-IsOrderly wp e f
Reach-IsOrderly wp e f (next r st) = Step-IsOrderly st (Reach-IsOrderly wp e f r)
