-- ===== src/Manager/Interleavings.antt =====
-- However calls overlap, no consumer is closed twice.
use multi_tenant_messaging.Base.{
  ℕ, List, ◌≡◌, false, ◌++◌, if◌then◌else◌, ◌+◌, ◌≤◌, ◌<◌, ◌==◌, ◌∷◌, arith, refl, String, none,
  some, Bool-cases, str_eq, inl, inr, true, if_elim, if_false, if_true, suc, ap, subst, ◌∙◌, ◌⊎◌,
}
use multi_tenant_messaging.Base.Assoc.{lookup, insert, delete}
use multi_tenant_messaging.Manager.{TenantConsumer, close_consumer, stopped_pool}
use multi_tenant_messaging.Manager.Shared.{
  Shared, count_of, drop_pointer, pointers, after_closing, store, resized_consumer, SharedReach,
  SharedStep, at_start, nothing_yet, takes, then_step, takes_all, closes_one, resizes_late,
  registers,
}
use mathlib.Core.List.{[]}
use multi_tenant_messaging.Base.Int.{ℤ}
use multi_tenant_messaging.Pool.{close_done}
use multi_tenant_messaging.Pool.Size.{resize_identity}

-- How many calls and map entries hold a consumer.
abbrev pub holders : ℕ → Shared → ℕ
holders p s = count_of p (pointers s.consumers) + count_of p s.pending

abbrev pub IsOpen : TenantConsumer → Type 0
IsOpen c = (c.done ≡ false) × (c.worker_pool.done ≡ false)

-- At most one holds it, and what is held was made and is open.
record IsSound (s : Shared) : Type 0 where
  alive : s.crashed ≡ false
  once : (p : ℕ) → holders p s ≤ 1
  old : (p : ℕ) → 0 < holders p s → p < s.made
  open_ones : (p : ℕ) → 0 < holders p s → IsOpen (s.heap p)

count-insert :
    (p q : ℕ) (k : String) (m : List (String × ℕ))
    → lookup k m ≡ none
    → count_of p (pointers (insert k q m)) ≡ (if q == p then 1 else 0) + count_of p (pointers m)
unfolding insert lookup
count-insert p q k [] h = refl
count-insert p q k ((j, r) ∷ m) h = elim (Bool-cases (str_eq j k)) [
  | inl same ↦ absurd (ground (arith, same, h))
  | inr other ↦ ground (arith, other, h, count-insert p q k m (rw other at h))
]

count-delete :
    (p : ℕ) (k : String) (m : List (String × ℕ))
    → count_of p (pointers (delete k m)) ≤ count_of p (pointers m)
unfolding delete
count-delete p k [] = omega arith
count-delete p k ((j, r) ∷ m) = ground (arith, count-delete p k m)

count-taken :
    (p q : ℕ) (k : String) (m : List (String × ℕ))
    → lookup k m ≡ some q
    → (if q == p then 1 else 0) + count_of p (pointers (delete k m)) ≤ count_of p (pointers m)
unfolding delete lookup
count-taken p q k [] h = absurd (ground (arith, h))
count-taken p q k ((j, r) ∷ m) h = elim (Bool-cases (str_eq j k)) [
  | inl same ↦ ground (arith, same, (rw same at h), count-delete p k m)
  | inr other ↦ ground (arith, other, count-taken p q k m (rw other at h))
]

count-append : (p : ℕ) (qs rs : List ℕ) → count_of p (qs ++ rs) ≡ count_of p qs + count_of p rs
count-append p [] rs = omega arith
count-append p (q ∷ qs) rs = omega (arith, count-append p qs rs)

count-drop :
    (p q : ℕ) (qs : List ℕ) → count_of q (drop_pointer p qs) ≡ (if p == q then 0 else count_of q qs)
count-drop p q [] = ground arith
count-drop p q (r ∷ qs) = ground (arith, count-drop p q qs)

store_same : (p : ℕ) (c : TenantConsumer) (heap : ℕ → TenantConsumer) → store p c heap p ≡ c
store_same p c heap = if_true (p == p) _ _ (ground arith)

store_other :
    (p q : ℕ) (c : TenantConsumer) (heap : ℕ → TenantConsumer)
    → (q == p) ≡ false
    → store p c heap q ≡ heap q
store_other p q c heap h = if_false (q == p) _ _ h

-- What is open stays so in another consumer's place, or in the place of an open one.
store-IsOpen :
    (p q : ℕ) (c : TenantConsumer) (heap : ℕ → TenantConsumer)
    → ((q == p) ≡ true → IsOpen c)
    → ((q == p) ≡ false → IsOpen (heap q))
    → IsOpen (store p c heap q)
store-IsOpen p q c heap new old = if_elim IsOpen (q == p) new old

-- Closing an open consumer does not panic.
close_open :
    (taken : ℕ) (c : TenantConsumer)
    → IsOpen c
    → (d : TenantConsumer) × (close_consumer taken c ≡ some d)
unfolding close_consumer close_done
close_open taken c (running, pool_running) = (
  _,
  if_false c.done _ _ running
      ∙ ap (stopped_pool taken c) (if_false c.worker_pool.done none _ pool_running),
)

module _ (s : Shared) (v : IsSound s) where
  spawns-IsSound :
      (k : String) (c : TenantConsumer)
      → lookup k s.consumers ≡ none
      → IsOpen c
      → IsSound (record s {
        heap = store s.made c s.heap;
        made = suc s.made;
        consumers = insert k s.made s.consumers;
      })
  spawns-IsSound k c absent fresh = record {
    alive = v.alive;
    once = λ p. ground (arith, count-insert p s.made k s.consumers absent, v.once p, v.old p);
    old = λ p held. ground (arith, count-insert p s.made k s.consumers absent, v.old p);
    open_ones = λ p held.
        store-IsOpen s.made p c s.heap (λ _. fresh)
          (λ other.
            v.open_ones p
              (ground (arith, held, other, count-insert p s.made k s.consumers absent)));
  }

  takes-IsSound :
      (k : String) (p : ℕ)
      → lookup k s.consumers ≡ some p
      → IsSound (record s { consumers = delete k s.consumers; pending = p ∷ s.pending })
  takes-IsSound k p found = record {
    alive = v.alive;
    once = λ q. omega (arith, count-taken q p k s.consumers found, v.once q);
    old = λ q held. v.old q (omega (arith, held, count-taken q p k s.consumers found));
    open_ones = λ q held. v.open_ones q (omega (arith, held, count-taken q p k s.consumers found));
  }

  takes_all-IsSound :
      IsSound (record s { consumers = []; pending = pointers s.consumers ++ s.pending })
  takes_all-IsSound = record {
    alive = v.alive;
    once = λ q. omega (arith, count-append q (pointers s.consumers) s.pending, v.once q);
    old = λ q held. v.old q (omega (arith, held, count-append q (pointers s.consumers) s.pending));
    open_ones = λ q held.
        v.open_ones q (omega (arith, held, count-append q (pointers s.consumers) s.pending));
  }

  closes-IsSound :
      (taken p : ℕ)
      → 0 < count_of p s.pending
      → IsSound (after_closing p s (close_consumer taken (s.heap p)))
  closes-IsSound taken p waiting =
      let (d, fine) = close_open taken (s.heap p) (v.open_ones p (omega arith)) in
      rw fine (record {
        alive = v.alive;
        once = λ q. ground (arith, count-drop p q s.pending, v.once q);
        old = λ q held. ground (arith, held, count-drop p q s.pending, v.old q);
        open_ones = λ q held.
            store-IsOpen p q d s.heap
              (λ same.
                let e : q ≡ p = ground (arith, same) in
                absurd (
                  ground (
                    arith,
                    held,
                    same,
                    count-drop p q s.pending,
                    v.once p,
                    ap (λ r. count_of r (pointers s.consumers)) e,
                  )))
              (λ other. v.open_ones q (ground (arith, held, other, count-drop p q s.pending)));
      })

  resizes-IsSound :
      (p : ℕ) (n : ℤ) → IsSound (record s { heap = store p (resized_consumer n (s.heap p)) s.heap })
  resizes-IsSound p n = record {
    alive = v.alive;
    once = v.once;
    old = v.old;
    open_ones = λ q held.
        store-IsOpen p q (resized_consumer n (s.heap p)) s.heap
          (λ same.
            let e : q ≡ p = ground (arith, same) in
            let (running, pool_running) = v.open_ones p (subst (λ r. 0 < holders r s) e held) in
            (running, (resize_identity (s.heap p).worker_pool n).1 ∙ pool_running))
          (λ _. v.open_ones q held);
  }

SharedStep-IsSound : (s t : Shared) → SharedStep s t → IsSound s → IsSound t
SharedStep-IsSound _ _ (registers k c s absent running pool_running) v =
    spawns-IsSound s v k c absent (running, pool_running)
SharedStep-IsSound _ _ (takes k p s found) v = takes-IsSound s v k p found
SharedStep-IsSound _ _ (takes_all s) v = takes_all-IsSound s v
SharedStep-IsSound _ _ (closes_one taken p s waiting) v = closes-IsSound s v taken p waiting
SharedStep-IsSound _ _ (resizes_late p n s low) v = resizes-IsSound s v p n

SharedReach-IsSound : {s t : Shared} → SharedReach s t → IsSound s → IsSound t
SharedReach-IsSound (at_start s) v = v
SharedReach-IsSound (then_step {a} {b} {c} r step) v =
    SharedStep-IsSound b c step (SharedReach-IsSound r v)

held_once :
    (s : Shared) (p : ℕ) → IsSound s → (holders p s ≡ 0) ⊎ ((holders p s ≡ 1) × IsOpen (s.heap p))
held_once s p v = elim (Bool-cases (holders p s == 0)) [
  | inl free ↦ inl (ground (arith, free))
  | inr held ↦ inr (ground (arith, held, v.once p), v.open_ones p (ground (arith, held)))
]

-- However the calls of `SpawnConsumer`, `StopConsumer`, `UpdateConcurrency` and `ShutdownAll` overlap, none
-- panics by closing a consumer's channels a second time; and a consumer is in the map or in the hands of
-- one call that is about to close it, and is running then, or is held by nobody.
pub no_double_close :
    {heap : ℕ → TenantConsumer} {s : Shared} (p : ℕ)
    → SharedReach (nothing_yet heap) s
    → (s.crashed ≡ false) × ((holders p s ≡ 0) ⊎ ((holders p s ≡ 1) × IsOpen (s.heap p)))
no_double_close {heap} {s} p r =
    let v = SharedReach-IsSound r (record {
      alive = refl;
      once = λ q. omega arith;
      old = λ q held. absurd (omega (arith, held));
      open_ones = λ q held. absurd (omega (arith, held));
    }) in
    (v.alive, held_once s p v)
