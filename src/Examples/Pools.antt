-- ===== src/Examples/Pools.antt =====
-- The theorems on worker pools at concrete pools.
use multi_tenant_messaging.Base.{All, false, ◌≤◌, refl, true, ◌≡◌, ◌+◌, ◌∷◌, [], ◌-◌, arith}
use multi_tenant_messaging.Pool.{
  Select, WorkerPool, get_worker_count, resize, submit, send, has_room, can_hand_over,
}
use multi_tenant_messaging.Pool.Order.{IsOrderly, Reach-IsOrderly}
use multi_tenant_messaging.Pool.Steps.{History, Reach, fresh, next, here, sends, receives}
use multi_tenant_messaging.Base.Int.{pos}
use multi_tenant_messaging.Examples.{pool_of_three, item_a, pool_of_three-IsSized}
use multi_tenant_messaging.Pool.Size.{resize_all, IsSized, resize_all_high_water, resize_size}

resize_size_example :
    (get_worker_count (resize pool_of_three (pos 8)) ≡ pos 8)
    × ((resize pool_of_three (pos 8)).live ≡ 3 + (8 - 3))
    × IsSized (resize pool_of_three (pos 8))
resize_size_example = resize_size pool_of_three 8 pool_of_three-IsSized (omega arith) (omega arith)

resize_all_high_water_example :
    All (λ n. n ≤ (resize_all pool_of_three (2 ∷ 9 ∷ 4 ∷ [])).live) (2 ∷ 9 ∷ 4 ∷ [])
    × IsSized (resize_all pool_of_three (2 ∷ 9 ∷ 4 ∷ []))
resize_all_high_water_example =
    resize_all_high_water pool_of_three (2 ∷ 9 ∷ 4 ∷ []) pool_of_three-IsSized
      ((omega arith, omega arith), ((omega arith, omega arith), ((omega arith, omega arith), tt)))

abbrev eager : Select
eager = record { receiver_waits = false; picks_send = true }

abbrev after_send : History
after_send = record {
  pool = record pool_of_three { work_chan = item_a ∷ [] };
  sent = item_a ∷ [];
  taken = [];
  finished = [];
}

abbrev after_receive : History
after_receive = record after_send {
  pool = record pool_of_three { busy = item_a ∷ [] };
  taken = item_a ∷ [];
}

item_on_its_way : Reach (fresh pool_of_three) after_receive
unfolding submit send has_room can_hand_over
item_on_its_way = next (next here (sends eager item_a refl)) (receives item_a [] refl (omega arith))

Reach-IsOrderly_example : IsOrderly after_receive
Reach-IsOrderly_example = Reach-IsOrderly pool_of_three refl refl item_on_its_way

abbrev closed_pool : WorkerPool
closed_pool = record pool_of_three { work_chan = item_a ∷ []; done = true }
